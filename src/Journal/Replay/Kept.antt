-- ===== src/Journal/Replay/Kept.antt =====
-- src/journal.rs, `Journal::replay`: facts through the lines of a file.
use pulse_cutover.Prelude.{
  ◌≡◌, refl, sym, ap, ◌∙◌, Bool, true, not, ◌&&◌, ◌||◌, List, [], ◌∷◌, In, is_some_and, is_empty,
  ◌==◌, Bool-cases, Option-cases, inl, inr, arith,
}
use pulse_cutover.Json.{Json}
use pulse_cutover.State.{from_str}
use pulse_cutover.Journal.Replay.{
  Replayed, read, refused, Entry, Line, blank, torn, entry, Recovered, default_recovered,
}
use pulse_cutover.Journal.Replay.Transition.{past_ignition, transition}
use pulse_cutover.Journal.Replay.Effects.{sealed_error, refuses_shadow}
use pulse_cutover.Journal.Replay.Lines.{note, known_kind, apply, then_replay, replay_lines, replay}
use pulse_cutover.Journal.Replay.Sticky.{seals, effect_ignites, seals-note, seals-transition}

module _ ⦃J : Json⦄ where
  open J use {Value}

  -- The record shows that ignition may have started.
  abbrev pub ignites : Entry → Bool
  ignites e =
      ((e.kind == "transition") && is_some_and (from_str e.state) past_ignition)
      || (sealed_error e || effect_ignites e)

  apply-seals :
      (e : Entry) (r out : Recovered)
      → apply e r ≡ read out
      → (out.reached_ignited ≡ (r.reached_ignited || ignites e))
        × (out.shadow_refused ≡ (r.shadow_refused || refuses_shadow e))
  unfolding apply
  apply-seals e r out h = elim (Bool-cases (known_kind e.kind)) [
    | inr k ↦ cc (rw k at h)
    | inl k ↦ elim (Bool-cases (e.kind == "transition")) [
      | inr t ↦
          let o : note e r ≡ out = cc (rw (k, t) at h) in
          let n = sym (ap seals o) ∙ seals-note e r in
          (ap (λ (p : Bool × Bool). p.0) n ∙ ground (arith, t), ap (λ (p : Bool × Bool). p.1) n)
      | inl t ↦ elim (Option-cases (from_str e.state)) [
        | inl f ↦ cc (rw (k, t, f) at h)
        | inr (st, f) ↦
            let o : note e (transition st e r) ≡ out = cc (rw (k, t, f) at h) in
            let n = sym (ap seals o) ∙ seals-note e (transition st e r) in
            let s = seals-transition st e r in
            let s0 : (transition st e r).reached_ignited ≡ (r.reached_ignited || past_ignition st) =
              ap (λ (p : Bool × Bool). p.0) s in
            let s1 : (transition st e r).shadow_refused ≡ r.shadow_refused =
              ap (λ (p : Bool × Bool). p.1) s in
            (
              ap (λ (p : Bool × Bool). p.0) n ∙ rw (s0, t, f) (ground arith),
              ap (λ (p : Bool × Bool). p.1) n ∙ rw s1 refl,
            )
      ]
    ]
  ]

  then_replay-read :
      (m : Replayed Recovered) (next : Recovered → Replayed Recovered) {out : Recovered}
      → then_replay m next ≡ read out
      → (x : Recovered) × (m ≡ read x) × (next x ≡ read out)
  then_replay-read (read x) next h = (x, refl, h)
  then_replay-read (refused e) next h = cc

  torn-read :
      (ends_with_newline : Bool) (ls : List Line) (r out : Recovered)
      → replay_lines ends_with_newline (torn ∷ ls) r ≡ read out
      → replay_lines ends_with_newline ls (record r { torn_tail = true }) ≡ read out
  unfolding replay_lines
  torn-read ends_with_newline ls r out h =
      elim (Bool-cases (is_empty ls && not ends_with_newline)) [
        | inl t ↦ rw t at h
        | inr t ↦ cc (rw t at h)
      ]

  module _ (fact : Recovered → Bool) (sets : Entry → Bool)
      (step : (e : Entry) (r out : Recovered)
        → apply e r ≡ read out
        → fact out ≡ (fact r || sets e))
      (kept_torn : (r : Recovered) → fact (record r { torn_tail = true }) ≡ fact r) where
    replay_lines-kept :
        (ends_with_newline : Bool) (ls : List Line) (r out : Recovered)
        → replay_lines ends_with_newline ls r ≡ read out
        → fact r ≡ true
        → fact out ≡ true
    unfolding replay_lines
    replay_lines-kept nl [] r out h k = let o : r ≡ out = cc h in sym (ap fact o) ∙ k
    replay_lines-kept nl (blank ∷ ls) r out h k = replay_lines-kept nl ls r out h k
    replay_lines-kept nl (torn ∷ ls) r out h k =
        replay_lines-kept nl ls (record r { torn_tail = true }) out (torn-read nl ls r out h)
          (kept_torn r ∙ k)
    replay_lines-kept nl (entry e ∷ ls) r out h k =
        let (x, a, b) = then_replay-read (apply e r) (replay_lines nl ls) h in
        replay_lines-kept nl ls x out b (ground (arith, step e r x a, k))

    replay_lines-set :
        (ends_with_newline : Bool) (ls : List Line) (r out : Recovered) (e : Entry)
        → replay_lines ends_with_newline ls r ≡ read out
        → In (entry e) ls
        → sets e ≡ true
        → fact out ≡ true
    unfolding replay_lines
    replay_lines-set nl [] r out e h i s = absurd i
    replay_lines-set nl (blank ∷ ls) r out e h (inl p) s = absurd (cc p)
    replay_lines-set nl (blank ∷ ls) r out e h (inr i) s = replay_lines-set nl ls r out e h i s
    replay_lines-set nl (torn ∷ ls) r out e h (inl p) s = absurd (cc p)
    replay_lines-set nl (torn ∷ ls) r out e h (inr i) s =
        replay_lines-set nl ls (record r { torn_tail = true }) out e (torn-read nl ls r out h) i s
    replay_lines-set nl (entry d ∷ ls) r out e h (inl p) s =
        let (x, a, b) = then_replay-read (apply d r) (replay_lines nl ls) h in
        let q : e ≡ d = cc p in
        replay_lines-kept nl ls x out b (ground (arith, step d r x a, sym (ap sets q) ∙ s))
    replay_lines-set nl (entry d ∷ ls) r out e h (inr i) s =
        let (x, a, b) = then_replay-read (apply d r) (replay_lines nl ls) h in
        replay_lines-set nl ls x out e b i s

  -- If any record of a journal that is read shows that ignition may have started, the restarted agent
  -- knows it, whatever records follow.
  pub replay-reached_ignited :
      (ends_with_newline : Bool) (ls : List Line) (out : Recovered) (e : Entry)
      → replay ends_with_newline ls ≡ read out
      → In (entry e) ls
      → ignites e ≡ true
      → out.reached_ignited ≡ true
  unfolding replay
  replay-reached_ignited nl ls out e h i s =
      replay_lines-set (λ r. r.reached_ignited) ignites (λ e r out a. (apply-seals e r out a).0)
        (λ r. refl) nl ls default_recovered out e h i s

  -- If any record of a journal that is read refuses a shadow's identity, the restarted agent knows it,
  -- whatever records follow.
  pub replay-shadow_refused :
      (ends_with_newline : Bool) (ls : List Line) (out : Recovered) (e : Entry)
      → replay ends_with_newline ls ≡ read out
      → In (entry e) ls
      → refuses_shadow e ≡ true
      → out.shadow_refused ≡ true
  unfolding replay
  replay-shadow_refused nl ls out e h i s =
      replay_lines-set (λ r. r.shadow_refused) refuses_shadow
        (λ e r out a. (apply-seals e r out a).1) (λ r. refl) nl ls default_recovered out e h i s
