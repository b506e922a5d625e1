-- ===== src/Journal/Replay/Readable.antt =====
-- src/journal.rs, `Journal::replay`: the lines that it reads and those that it refuses.
use pulse_cutover.Prelude.{
  ◌≡◌, ◌↔◌, ◌⊎◌, refl, sym, ap, ◌∙◌, subst, Bool, true, false, not, ◌&&◌, ◌||◌, List, [], ◌∷◌, ◌++◌,
  All, is_some, ◌==◌, Option-cases, inl, inr, arith,
}
use pulse_cutover.Json.{Json}
use pulse_cutover.State.{from_str}
use pulse_cutover.Journal.Replay.{
  Replayed, read, refused, Entry, Line, blank, torn, entry, Recovered, default_recovered,
}
use pulse_cutover.Journal.Replay.Lines.{known_kind, apply, then_replay, replay_lines, replay}

abbrev pub is_read : {A : Type 0} → Replayed A → Bool
is_read (read a) = true
is_read (refused e) = false

module _ ⦃J : Json⦄ where
  open J use {Value}

  -- A record of a kind that the agent knows, and if it is a transition, to a state that it knows.
  abbrev pub understood : Entry → Bool
  understood e = known_kind e.kind && (not (e.kind == "transition") || is_some (from_str e.state))

  abbrev pub Sound : Line → Type 0
  Sound blank = Unit
  Sound torn = ⊥
  Sound (entry e) = understood e ≡ true

  -- Every line is blank or understood; or the last one is torn, and the file does not end with a newline.
  abbrev pub Readable : Bool → List Line → Type 0
  Readable ends_with_newline ls =
      All Sound ls
      ⊎ ((before : List Line) × (ends_with_newline ≡ false)
          × (ls ≡ before ++ torn ∷ [])
          × All Sound before)

  apply-read : (e : Entry) (r : Recovered) → is_read (apply e r) ≡ understood e
  unfolding apply
  apply-read e r = elim (Option-cases (from_str e.state)) [
    | inl f ↦ ground (arith, f)
    | inr (st, f) ↦ ground (arith, f)
  ]

  then_read :
      (m : Replayed Recovered) (next : Recovered → Replayed Recovered)
      → is_read (then_replay m next) ≡ true
      → (x : Recovered) × (is_read m ≡ true) × (is_read (next x) ≡ true)
  then_read (read x) next h = (x, refl, h)
  then_read (refused e) next h = cc

  read_then :
      (m : Replayed Recovered) (next : Recovered → Replayed Recovered)
      → is_read m ≡ true
      → ((x : Recovered) → is_read (next x) ≡ true)
      → is_read (then_replay m next) ≡ true
  read_then (read x) next h k = k x
  read_then (refused e) next h k = cc

  prepend :
      (nl : Bool) (l : Line) (ls : List Line) → Sound l → Readable nl ls → Readable nl (l ∷ ls)
  prepend nl l ls s (inl a) = inl (s, a)
  prepend nl l ls s (inr (before, n, e, a)) = inr (l ∷ before, n, ap (λ ms. l ∷ ms) e, (s, a))

  read-Readable :
      (nl : Bool) (ls : List Line) (r : Recovered)
      → is_read (replay_lines nl ls r) ≡ true
      → Readable nl ls
  unfolding replay_lines
  read-Readable nl [] r h = inl tt
  read-Readable nl (blank ∷ ls) r h = prepend nl blank ls tt (read-Readable nl ls r h)
  read-Readable nl (torn ∷ []) r h = inr ([], ground arith, refl, tt)
  read-Readable nl (torn ∷ l ∷ ls) r h = cc
  read-Readable nl (entry e ∷ ls) r h =
      let (x, a, b) = then_read (apply e r) (replay_lines nl ls) h in
      prepend nl (entry e) ls (sym (apply-read e r) ∙ a) (read-Readable nl ls x b)

  Sound-read :
      (nl : Bool) (before rest : List Line) (r : Recovered)
      → All Sound before
      → ((x : Recovered) → is_read (replay_lines nl rest x) ≡ true)
      → is_read (replay_lines nl (before ++ rest) r) ≡ true
  unfolding replay_lines
  Sound-read nl [] rest r a k = k r
  Sound-read nl (blank ∷ ls) rest r a k = Sound-read nl ls rest r a.1 k
  Sound-read nl (torn ∷ ls) rest r a k = absurd a.0
  Sound-read nl (entry e ∷ ls) rest r a k =
      read_then (apply e r) (replay_lines nl (ls ++ rest)) (apply-read e r ∙ a.0)
        (λ x. Sound-read nl ls rest x a.1 k)

  append-nil : (ls : List Line) → (ls ++ []) ≡ ls
  append-nil [] = refl
  append-nil (l ∷ ls) = ap (λ ms. l ∷ ms) (append-nil ls)

  -- A journal is read exactly when every line is blank or an understood record, but for a torn last line
  -- of a file that does not end with a newline.
  pub replay-Readable :
      (ends_with_newline : Bool) (ls : List Line)
      → (is_read (replay ends_with_newline ls) ≡ true) ↔ Readable ends_with_newline ls
  unfolding replay replay_lines
  replay-Readable nl ls = (read-Readable nl ls default_recovered, back)
    where
      back : Readable nl ls → is_read (replay nl ls) ≡ true
      back (inl a) =
          subst (λ ms. is_read (replay_lines nl ms default_recovered) ≡ true) (append-nil ls)
            (Sound-read nl ls [] default_recovered a (λ x. refl))
      back (inr (before, n, e, a)) =
          subst (λ ms. is_read (replay_lines nl ms default_recovered) ≡ true) (sym e)
            (Sound-read nl before (torn ∷ []) default_recovered a (λ x. rw n refl))
