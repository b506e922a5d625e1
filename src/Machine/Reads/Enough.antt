-- ===== src/Machine/Reads/Enough.antt =====
-- src/machine.rs: the retried read ends within its window, so its fuel is enough.
use pulse_cutover.Prelude.{
  ℕ, zero, suc, ◌+◌, ◌-◌, ◌*◌, ◌/◌, ◌≤◌, ◌<◌, String, Bool, true, false, ◌||◌, ◌≡◌, refl, Option,
  none, some, arith, leb, Bool-cases, inl, inr, if◌then◌else◌, is_none_or,
}
use native.Mathlib.Nat.{lt-div-mul-add}
use pulse_cutover.Json.{Json}
use pulse_cutover.Journal.Episodes.{PauseEvent}
use pulse_cutover.Machine.Exec.{Result, ok, err, lift, ◌>>=◌, ◌>>◌, when, on_result}
use pulse_cutover.Machine.Exec.Along.{Along, Preorder, along_rules, Along-modify}
use pulse_cutover.Machine.Host.{Host, Record, Line}
use pulse_cutover.Machine.Core.{
  Machine, Action, call, now_ms, sleep_ms, append, evidence, producer_paused, push_pause_event,
  push_event,
}
use pulse_cutover.Machine.Reads.{
  read_paused, retry_read, read_paused_retrying, reads_within, read_wait, journal_pause,
  failed_read, after_read, after_failure,
}

module _ ⦃J : Json⦄ ⦃H : Host⦄ where
  -- The clock does not go back in a read or a write, and a sleep lasts at least what was asked for.
  pub record ClockLaws : Type 0 where
    pub reads : (w : H.World) → H.now_ms w ≤ H.now_ms (H.producer_paused w).1
    pub statuses : (url : String) (w : H.World) → H.now_ms w ≤ H.now_ms (H.get_json url w).1
    pub writes : (l : Line) (w : H.World) → H.now_ms w ≤ H.now_ms (H.append l w).1
    pub sleeps : (ms : ℕ) (w : H.World) → H.now_ms w + ms ≤ H.now_ms (H.sleep_ms ms w)

  abbrev pub Later : Machine → Machine → Type 0
  Later s t = H.now_ms s.world ≤ H.now_ms t.world

  instance pub Later-Preorder : Preorder Later
  Later-Preorder = record { same = λ s. omega arith; after = λ a b. omega (arith, a, b) }

  module _ (laws : ClockLaws) where
    append-Later : (l : Line) → Along Later (append l)
    unfolding append call
    append-Later l = record { at = λ m. laws.writes l m.world }

    pub evidence-Later : (r : Record) → Along Later (evidence r)
    unfolding evidence
    evidence-Later r = search (along_rules, append-Later)

    push-Later : (e : PauseEvent) → Along Later (push_pause_event e)
    unfolding push_pause_event push_event
    push-Later e = Along-modify (push_event e) λ m. omega arith

    pub read-Later : Along Later producer_paused
    unfolding producer_paused call
    read-Later = record { at = λ m. laws.reads m.world }

    journal-Later : (r : Record) (e : PauseEvent) → Along Later (journal_pause r e)
    unfolding journal_pause
    journal-Later r e = search (along_rules, evidence-Later, push-Later)

    pub read_paused-Later : Along Later read_paused
    unfolding read_paused
    read_paused-Later = search (along_rules, read-Later, journal-Later) depth 30 fits 4000

    pub when-Later : (b : Bool) (r : Record) → Along Later (when b (evidence r))
    when-Later b r = search (along_rules, evidence-Later)

    module _ (start window : ℕ) (what : String) where
      -- The two amounts of fuel agree wherever the window ends in time.
      abbrev Agree : ℕ → ℕ → Type 0
      Agree g f =
          (failures : ℕ) (last : Option ℕ) (m : Machine)
          → start + window ≤ H.now_ms m.world + f * read_wait
          → retry_read (suc g) start window what failures last m
            ≡ retry_read (suc f) start window what failures last m

      slept :
          (g f n : ℕ) (next : Option ℕ) (r : Result Unit) (s : Machine)
          → Agree g f
          → start + window ≤ H.now_ms s.world + suc f * read_wait
          → (lift r >> (sleep_ms read_wait >> retry_read (suc g) start window what n next)) s
            ≡ (lift r >> (sleep_ms read_wait >> retry_read (suc f) start window what n next)) s
      unfolding ◌>>=◌ sleep_ms
      slept g f n next (err e) s same h = refl
      slept g f n next (ok done) s same h =
          same n next (record s { world = H.sleep_ms read_wait s.world })
            (omega (arith, h, laws.sleeps read_wait s.world))

      abbrev failing : ℕ → ℕ → Option ℕ → String → Action Bool
      failing fuel = after_failure (retry_read fuel start window what) start window what

      failing_same :
          (g f failures : ℕ) (last : Option ℕ) (e : String) (s : Machine)
          → Agree g f
          → start + window ≤ H.now_ms s.world + suc f * read_wait
          → failing (suc g) failures last e s ≡ failing (suc f) failures last e s
      unfolding ◌>>=◌ now_ms
      failing_same g f failures last e s same h =
          let now = H.now_ms s.world in
          elim (Bool-cases (leb window (now - start))) [
            | inl over ↦ rw over refl
            | inr left ↦
                let due = is_none_or last (λ t. leb 1000 (now - t)) || false in
                let r = failed_read e what (failures + 1) (now - start) in
                let (done, t) = when due (evidence r) s in
                rw left (
                  slept g f (failures + 1) (if due then some now else last) done t same
                    (omega (arith, h, (when-Later due r).at s)))
          ]

      -- Without fuel left for another read, the window has ended.
      last_read :
          (g failures : ℕ) (last : Option ℕ) (e : String) (s : Machine)
          → start + window ≤ H.now_ms s.world
          → failing g failures last e s ≡ failing zero failures last e s
      unfolding ◌>>=◌ now_ms
      last_read g failures last e s h =
          let over : leb window (H.now_ms s.world - start) ≡ true = ground (arith, h) in
          rw over refl

      abbrev outcome : ℕ → ℕ → Option ℕ → Result Bool → Action Bool
      outcome fuel failures last r =
          on_result r (after_read what failures) (failing fuel failures last)

      outcome_same :
          (g f failures : ℕ) (last : Option ℕ) (r : Result Bool) (s : Machine)
          → ((e : String) → failing g failures last e s ≡ failing f failures last e s)
          → outcome g failures last r s ≡ outcome f failures last r s
      unfolding on_result
      outcome_same g f failures last (ok v) s h = refl
      outcome_same g f failures last (err e) s h = h e

      -- With time for the reads left that fills the window, more fuel changes nothing.
      pub retry_read_enough : (f g : ℕ) → f ≤ g → Agree g f
      unfolding retry_read on_result ◌>>=◌
      retry_read_enough zero g l failures last m h =
          let (r, s) = read_paused m in
          outcome_same g zero failures last r s
            λ e. last_read g failures last e s (omega (arith, h, read_paused-Later.at m))
      retry_read_enough (suc f) zero l failures last m h = absurd (omega (arith, l))
      retry_read_enough (suc f) (suc g) l failures last m h =
          let (r, s) = read_paused m in
          outcome_same (suc g) (suc f) failures last r s λ e.
            failing_same g f failures last e s (retry_read_enough f g (omega (arith, l)))
              (omega (arith, h, read_paused-Later.at m))

    pub filled : (a w : ℕ) → 0 < w → a ≤ (a / w + 1) * w
    filled a w h = let d = lt-div-mul-add {a = a} {b = w} h in ground (arith, d)

    -- The retried read of the producer ends in its window: where the clock does not go back and a sleep
    -- lasts as long as asked, more fuel than the model's gives the same result and the same state.
    pub read_paused_retrying_enough :
        (window fuel : ℕ) (what : String) (m : Machine)
        → reads_within window ≤ fuel
        → retry_read fuel (H.now_ms m.world) window what 0 none m
          ≡ read_paused_retrying window what m
    unfolding read_paused_retrying reads_within now_ms ◌>>=◌
    read_paused_retrying_enough window zero what m h = absurd (omega (arith, h))
    read_paused_retrying_enough window (suc g) what m h =
        retry_read_enough (H.now_ms m.world) window what (window / read_wait + 1) g
          (omega (arith, h)) 0 none m (omega (arith, filled window read_wait (omega arith)))
