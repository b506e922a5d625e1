-- ===== src/Fleet/Memory/Marked.antt =====
-- src/machine.rs `note_fleet_view`: the names of the exit marks that it remembers.
use pulse_cutover.Prelude.{
  ◌≡◌, inl, inr, String, Bool, true, false, Option, none, some, List, [], ◌∷◌, ◌==◌, contains,
  contains-append, contains-append_later, contains-first, arith, eq_iff, Option-cases, Bool-cases,
  find, unwrap_or, and_then,
}
use pulse_cutover.Json.{Json}
use pulse_cutover.Fleet.Reports.{exit_mark, producers, is_text}
use pulse_cutover.Fleet.Members.{entry_of}
use pulse_cutover.Fleet.Memory.{exited_names, marked_names, fresh_marks, remember_marks}

pub named_text : (o : Option String) (n : String) → is_text o n ≡ true → o ≡ some n
named_text none n h = cc h
named_text (some s) n h = ground (arith, eq_iff s n)

contains-fresh_marks :
    (known marks : List String) (n : String)
    → contains marks n ≡ true
    → contains known n ≡ false
    → contains (fresh_marks known marks) n ≡ true
contains-fresh_marks known [] n h k = cc h
contains-fresh_marks known (m ∷ ms) n h k = elim (Bool-cases (m == n)) [
  | inl e ↦
      let same : m ≡ n = (eq_iff m n).0 e in
      let new : contains known m ≡ false = cc (k, same) in rw new (ground (arith, e))
  | inr d ↦
      let later = contains-fresh_marks known ms n (ground (arith, h, d)) k in
      elim (Bool-cases (contains known m)) [
        | inl old ↦ rw old later
        | inr new ↦ rw new (ground (arith, later))
      ]
]

pub contains-remember_marks :
    (known marks : List String) (n : String)
    → contains marks n ≡ true
    → contains (remember_marks known marks) n ≡ true
unfolding remember_marks
contains-remember_marks known marks n h = elim (Bool-cases (contains known n)) [
  | inl old ↦ contains-append known (fresh_marks known marks) n old
  | inr new ↦
      contains-append_later known (fresh_marks known marks) n
        (contains-fresh_marks known marks n h new)
]

module _ ⦃J : Json⦄ where
  open J use {Value, index, as_str, as_array}

  -- A name stays when a producer before it is named too.
  later_name :
      (o : Option String) (rest : List String) (n : String)
      → contains rest n ≡ true
      → contains (elim o [ none ↦ rest | some m ↦ m ∷ rest ]) n ≡ true
  later_name none rest n h = h
  later_name (some m) rest n h = ground (arith, h)

  entry-exited_names :
      (event n : String) (prods : List Value) (p : Value)
      → entry_of prods n ≡ some p
      → (exit_mark p event).exited ≡ true
      → contains (exited_names event prods) n ≡ true
  unfolding exited_names entry_of
  entry-exited_names event n [] p e x = cc e
  entry-exited_names event n (q ∷ qs) p e x =
      elim (Bool-cases (is_text (as_str (index q "name")) n)) [
        | inl y ↦
            let same : some q ≡ some p = rw y at e in
            let exits : (exit_mark q event).exited ≡ true = cc (x, same) in
            rw (exits, named_text (as_str (index q "name")) n y) (contains-first _ n)
        | inr k ↦
            let later = entry-exited_names event n qs p (rw k at e) x in
            elim (Bool-cases (exit_mark q event).exited) [
              | inl z ↦ rw z (later_name (as_str (index q "name")) _ n later)
              | inr z ↦ rw z later
            ]
      ]

  unlisted : (n : String) (p : Value) → entry_of [] n ≡ some p → ⊥
  unfolding entry_of
  unlisted n p e = cc e

  abbrev is_network : String → Value → Bool
  is_network network v = is_text (as_str (index v "id")) network

  abbrev listed : String → List Value → List Value
  listed network nets =
      unwrap_or (and_then (find nets (is_network network)) (λ v. as_array (index v "producers"))) []

  listed-marked_names :
      (network event n : String) (nets : List Value) (p : Value)
      → entry_of (listed network nets) n ≡ some p
      → (exit_mark p event).exited ≡ true
      → contains (marked_names network event nets) n ≡ true
  unfolding marked_names
  listed-marked_names network event n [] p e x = absurd (unlisted n p e)
  listed-marked_names network event n (v ∷ vs) p e x = elim (Bool-cases (is_network network v)) [
    | inl y ↦ rw y (contains-append _ _ n (entry-exited_names event n _ p (rw y at e) x))
    | inr k ↦ rw k (listed-marked_names network event n vs p (rw k at e) x)
  ]

  -- Every member that the relay marks as having exited, in the list that a gate or a proof reads, is one
  -- of the names that the agent remembers.
  pub producers-marked_names :
      (network event n : String) (status p : Value)
      → entry_of (producers status network) n ≡ some p
      → (exit_mark p event).exited ≡ true
      → contains (marked_names network event (unwrap_or (as_array (index status "networks")) [])) n
        ≡ true
  unfolding producers
  producers-marked_names network event n status p e x =
      elim (Option-cases (as_array (index status "networks"))) [
        | inl k ↦ absurd (unlisted n p (rw k at e))
        | inr (nets, k) ↦ rw k (listed-marked_names network event n nets p (rw k at e) x)
      ]
