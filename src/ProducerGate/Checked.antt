-- ===== src/ProducerGate/Checked.antt =====
-- src/producer_gate.rs, `check`, against what it asks of a gate.
use pulse_cutover.Prelude.{
  ℕ, ◌≡◌, ◌≢◌, refl, subst, inl, inr, String, Bool, true, false, not, ◌||◌, Option, none, some,
  List, [], ◌∷◌, ◌++◌, nat_eq, ◌==◌, eq_iff, contains, is_empty, filter, arith, Bool-cases, or_true,
  and_true, eq_ignore_ascii_case,
}
use pulse_cutover.Config.{RosterMember}
use pulse_cutover.Version.{version_at_least}
use pulse_cutover.ProducerGate.{
  Gate, GateError, check, check_names, bad_required, bad_member, stray_cover, canonical, repeats,
  subset, union_of, uncovered_names, roster_names, member_of, min_agent_version, find_error,
  ◌otherwise◌,
}
use pulse_cutover.ProducerGate.Relay.Tests.{not-false}

otherwise-none :
    (test : Bool) (e : GateError) (rest : Option GateError)
    → ((test, e) otherwise rest) ≡ none
    → (test ≡ false) × (rest ≡ none)
otherwise-none true e rest h = cc
otherwise-none false e rest h = (refl, h)

find_error-none :
    (o : Option String) (e : String → GateError) (rest : Option GateError)
    → find_error o e rest ≡ none
    → (o ≡ none) × (rest ≡ none)
find_error-none none e rest h = (refl, h)
find_error-none (some s) e rest h = cc

nonzero : (n : ℕ) → nat_eq n 0 ≡ false → n ≢ 0
nonzero n h = ground arith

subset-contains :
    (ss ts : List String) (n : String)
    → subset ss ts ≡ true
    → contains ss n ≡ true
    → contains ts n ≡ true
unfolding subset
subset-contains [] ts n h c = cc
subset-contains (s ∷ ss) ts n h c =
    let a = and_true (contains ts s) (subset ss ts) h in
    elim (or_true (s == n) (contains ss n) c) [
      | inl e ↦ subst (λ x. contains ts x ≡ true) ((eq_iff s n).0 e) a.0
      | inr k ↦ subset-contains ss ts n a.1 k
    ]

-- Nothing is left by a filter that keeps what fails a test: all pass it.
pub none_left :
    (xs : List String) (p : String → Bool) (n : String)
    → is_empty (filter xs (λ x. not (p x))) ≡ true
    → contains xs n ≡ true
    → p n ≡ true
none_left [] p n h c = cc
none_left (x ∷ xs) p n h c = elim (Bool-cases (p x)) [
  | inl e ↦ elim (or_true (x == n) (contains xs n) c) [
    | inl k ↦ subst (λ y. p y ≡ true) ((eq_iff x n).0 k) e
    | inr k ↦ none_left xs p n (rw e at h) k
  ]
  | inr e ↦ cc (rw e at h)
]

pub contains-append :
    (xs ys : List String) (n : String) → contains (xs ++ ys) n ≡ (contains xs n || contains ys n)
contains-append [] ys n = refl
contains-append (x ∷ xs) ys n = ground (arith, contains-append xs ys n)

-- What a gate that `check` accepts guarantees, against the roster of its event.
pub record Checked (digest : String → String) (g : Gate) (roster : List RosterMember) : Type 0 where
  pub hash_matches : eq_ignore_ascii_case g.sha256 (digest (canonical g)) ≡ true
  pub cut : g.h ≢ 0
  pub new_enough : version_at_least g.min_version min_agent_version ≡ true
  pub no_repeats : repeats g.required ≡ false
  -- Exactly the names that are active, pending, proposed or standby are required.
  pub complete : (n : String) → contains (union_of g) n ≡ true → contains g.required n ≡ true
  pub exact : (n : String) → contains g.required n ≡ true → contains (union_of g) n ≡ true
  pub some_active : is_empty g.active.producers ≡ false
  -- A roster member runs each required name's agent.
  pub covered :
      (n : String)
      → contains g.required n ≡ true
      → contains (roster_names roster) (member_of g n) ≡ true

check_names-covered :
    (g : Gate) (roster : List RosterMember)
    → check_names g roster ≡ none
    → (n : String) → contains g.required n ≡ true
    → contains (roster_names roster) (member_of g n) ≡ true
unfolding check_names
check_names-covered g roster h n =
    let b1 = find_error-none (bad_required g) _ _ h in
    let b2 = find_error-none (bad_member g) _ _ b1.1 in
    let b3 = find_error-none (stray_cover g) _ _ b2.1 in
    let b4 = otherwise-none (not (is_empty (uncovered_names g roster))) _ _ b3.1 in
    none_left g.required (λ x. contains (roster_names roster) (member_of g x)) n (not-false _ b4.0)

-- A gate that `check` accepts binds exactly its schedules and standbys, and its roster covers them.
pub check-Checked :
    (digest : String → String) (g : Gate) (roster : List RosterMember)
    → check digest g roster ≡ none
    → Checked digest g roster
unfolding check
check-Checked digest g roster h =
    let a1 = otherwise-none _ _ _ h in
    let a2 = otherwise-none _ _ _ a1.1 in
    let a3 = otherwise-none _ _ _ a2.1 in
    let a4 = otherwise-none (nat_eq g.h 0) _ _ a3.1 in
    let a5 = otherwise-none _ _ _ a4.1 in
    let a6 = otherwise-none _ _ _ a5.1 in
    let a7 = otherwise-none _ _ _ a6.1 in
    let a8 = otherwise-none _ _ _ a7.1 in
    let a9 = otherwise-none _ _ _ a8.1 in
    let both = and_true (subset g.required (union_of g)) _ (not-false _ a8.0) in
    record {
      hash_matches = not-false _ a2.0;
      cut = nonzero g.h a4.0;
      new_enough = not-false _ a6.0;
      no_repeats = a7.0;
      complete = λ n. subset-contains (union_of g) g.required n both.1;
      exact = λ n. subset-contains g.required (union_of g) n both.0;
      some_active = a9.0;
      covered = check_names-covered g roster a9.1;
    }
