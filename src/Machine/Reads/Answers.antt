-- ===== src/Machine/Reads/Answers.antt =====
-- src/machine.rs: the retried read of a producer that answers again.
use pulse_cutover.Prelude.{
  ℕ, zero, suc, ◌+◌, ◌-◌, ◌*◌, ◌/◌, ◌≤◌, ◌<◌, String, Bool, true, false, ◌||◌, ◌&&◌, ◌≡◌, refl,
  Option, none, some, [], ◌∷◌, arith, ltb, leb, Bool-cases, inl, inr, if◌then◌else◌, is_none_or,
}
use pulse_cutover.Json.{Json}
use pulse_cutover.Journal.Episodes.{resume}
use pulse_cutover.Machine.Exec.{
  Exec, Result, ok, err, pure, lift, gets, ◌>>=◌, ◌>>◌, when, on_result,
}
use pulse_cutover.Machine.Exec.Fails.{failed}
use pulse_cutover.Machine.Host.{Host, Record, Line}
use pulse_cutover.Machine.Core.{
  Machine, Action, call, now_ms, sleep_ms, append, evidence, producer_paused, push_pause_event,
  current_episode, is_producer,
}
use pulse_cutover.Machine.Reads.{
  read_paused, note_released, retry_read, read_paused_retrying, reads_within, read_wait,
  journal_pause, failed_read, recovered_read, after_read, after_failure, is_ok_false,
}
use pulse_cutover.Machine.Reads.Shown.{last_answer, read_paused_retrying-Shows}
use pulse_cutover.Machine.Reads.Enough.{ClockLaws, when-Later, read_paused-Later, filled}

returned : {A : Type 0} (r : Result A) → failed r ≡ false → (a : A) × (r ≡ ok a)
returned (ok a) h = (a, refl)
returned (err e) h = cc h

module _ {S A B : Type 0} where
  lifted_returns :
      (r : Result A) (f : A → Exec S B) (s : S)
      → failed r ≡ false
      → ((a : A) → failed (f a s).0 ≡ false)
      → failed ((lift r >>= f) s).0 ≡ false
  unfolding ◌>>=◌
  lifted_returns (ok a) f s h k = k a
  lifted_returns (err e) f s h k = cc h

  pub bind_returns :
      (m : Exec S A) (f : A → Exec S B) (s : S)
      → failed (m s).0 ≡ false
      → ((a : A) → failed (f a (m s).1).0 ≡ false)
      → failed ((m >>= f) s).0 ≡ false
  unfolding ◌>>=◌
  bind_returns m f s h k = let (r, t) = m s in lifted_returns r f t h k

module _ ⦃J : Json⦄ ⦃H : Host⦄ where
  -- The producer answers from this time on, a read lasts no longer than this, and the journal can be
  -- written.
  pub record AnswersFrom (time longest : ℕ) : Type 0 where
    pub answers : (w : H.World) → time ≤ H.now_ms w → failed (H.producer_paused w).0 ≡ false
    pub lasts : (w : H.World) → H.now_ms (H.producer_paused w).1 ≤ H.now_ms w + longest
    pub journals : (l : Line) (w : H.World) → failed (H.append l w).0 ≡ false

  module _ {time longest : ℕ} (from : AnswersFrom time longest) where
    evidence_returns : (r : Record) (m : Machine) → failed (evidence r m).0 ≡ false
    unfolding evidence append call ◌>>=◌
    evidence_returns r m = from.journals _ m.world

    journal_returns : (r : Record) (m : Machine) → failed (journal_pause r resume m).0 ≡ false
    unfolding journal_pause push_pause_event ◌>>=◌
    journal_returns r m =
        bind_returns (evidence r) (λ done. push_pause_event resume) m (evidence_returns r m)
          λ done. refl

    when_returns :
        (b : Bool) (a : Action Unit) (m : Machine)
        → failed (a m).0 ≡ false
        → failed (when b a m).0 ≡ false
    unfolding ◌>>=◌
    when_returns true a m h = h
    when_returns false a m h = refl

    noted_returns :
        (r : Result Bool) (m : Machine) → failed r ≡ false → failed (note_released r m).0 ≡ false
    unfolding ◌>>=◌
    noted_returns r m h =
        let release : Action Unit = do
          episode ← gets current_episode
          let released =
              ("own_pause_released_externally", J.flag true) ∷ ("episode", J.number episode) ∷ []
          journal_pause released resume
        in bind_returns (when (is_ok_false r && (is_producer H.cfg.mode && m.paused_by_us)) release)
          (λ done. lift r) m (when_returns _ release m (journal_returns _ m)) λ done. h

    read_paused_returns : (m : Machine) → time ≤ H.now_ms m.world → failed (read_paused m).0 ≡ false
    unfolding read_paused producer_paused call ◌>>=◌
    read_paused_returns m h =
        noted_returns (H.producer_paused m.world).0 (producer_paused m).1 (from.answers m.world h)

    noted_lasts :
        (r : Result Bool) (m : Machine) (t : ℕ)
        → failed (note_released r m).0 ≡ true
        → H.now_ms m.world ≤ t
        → H.now_ms (note_released r m).1.world ≤ t
    unfolding ◌>>=◌
    noted_lasts (ok b) m t f h = cc (f, noted_returns (ok b) m refl)
    noted_lasts (err e) m t f h = h

    failed_read_lasts :
        (m : Machine)
        → failed (read_paused m).0 ≡ true
        → H.now_ms (read_paused m).1.world ≤ H.now_ms m.world + longest
    unfolding read_paused producer_paused call ◌>>=◌
    failed_read_lasts m h =
        noted_lasts (H.producer_paused m.world).0 (producer_paused m).1 _ h (from.lasts m.world)

    module _ (laws : ClockLaws) (start window : ℕ) (what : String)
        (inside : time + longest ≤ start + window) where
      abbrev Returns : ℕ → Type 0
      Returns fuel =
          (failures : ℕ) (last : Option ℕ) (m : Machine)
          → start ≤ H.now_ms m.world
          → start + window ≤ H.now_ms m.world + fuel * read_wait
          → failed (retry_read (suc fuel) start window what failures last m).0 ≡ false

      abbrev retried : ℕ → ℕ → Option ℕ → String → Action Bool
      retried fuel = after_failure (retry_read fuel start window what) start window what

      slept-Returns :
          (fuel n : ℕ) (next : Option ℕ) (s : Machine)
          → Returns fuel
          → start ≤ H.now_ms s.world
          → start + window ≤ H.now_ms s.world + suc fuel * read_wait
          → failed ((sleep_ms read_wait >> retry_read (suc fuel) start window what n next) s).0
            ≡ false
      unfolding ◌>>=◌ sleep_ms
      slept-Returns fuel n next s k after h =
          k n next (record s { world = H.sleep_ms read_wait s.world })
            (omega (arith, after, laws.sleeps read_wait s.world))
            (omega (arith, h, laws.sleeps read_wait s.world))

      -- A read that failed ended inside the window.
      retried-Returns :
          (fuel failures : ℕ) (last : Option ℕ) (e : String) (s : Machine)
          → Returns fuel
          → start ≤ H.now_ms s.world
          → H.now_ms s.world < start + window
          → start + window ≤ H.now_ms s.world + suc fuel * read_wait
          → failed (retried (suc fuel) failures last e s).0 ≡ false
      unfolding ◌>>=◌ now_ms
      retried-Returns fuel failures last e s k after early h =
          let now = H.now_ms s.world in
          let left : leb window (now - start) ≡ false = ground (arith, early, after) in
          let due = is_none_or last (λ t. leb 1000 (now - t)) || false in
          let note = evidence (failed_read e what (failures + 1) (now - start)) in
          rw left (
            bind_returns (when due note)
              (λ done.
                sleep_ms read_wait
                >> retry_read (suc fuel) start window what (failures + 1)
                    (if due then some now else last))
              s (when_returns due note s (evidence_returns _ s))
              λ done.
                slept-Returns fuel (failures + 1) _ (when due note s).1 k
                  (omega (
                    arith,
                    after,
                    (when-Later laws due (failed_read e what (failures + 1) (now - start))).at s,
                  ))
                  (omega (
                    arith,
                    h,
                    (when-Later laws due (failed_read e what (failures + 1) (now - start))).at s,
                  )))

      ended_returns :
          (fuel failures : ℕ) (last : Option ℕ) (r : Result Bool) (s : Machine)
          → ((e : String) → failed r ≡ true → failed (retried fuel failures last e s).0 ≡ false)
          → failed (on_result r (after_read what failures) (retried fuel failures last) s).0 ≡ false
      unfolding on_result ◌>>=◌
      ended_returns fuel failures last (err e) s k = k e refl
      ended_returns fuel failures last (ok v) s k =
          let note = evidence (recovered_read what failures) in
          bind_returns (when (ltb 0 failures) note) (λ done. pure v) s
            (when_returns (ltb 0 failures) note s (evidence_returns _ s)) λ done. refl

      -- A read that fails began before the producer answers.
      failed_early : (m : Machine) → failed (read_paused m).0 ≡ true → H.now_ms m.world < time
      failed_early m f = elim (Bool-cases (leb time (H.now_ms m.world))) [
        | inl e ↦ cc (f, read_paused_returns m (ground (arith, e)))
        | inr l ↦ ground (arith, l)
      ]

      retry_read-Returns : (fuel : ℕ) → Returns fuel
      unfolding retry_read ◌>>=◌
      retry_read-Returns zero failures last m after h =
          let (r, s) = read_paused m in
          ended_returns zero failures last r s
            λ e f. absurd (omega (arith, h, inside, failed_early m f))
      retry_read-Returns (suc fuel) failures last m after h =
          let (r, s) = read_paused m in
          ended_returns (suc fuel) failures last r s λ e f.
            let later = (read_paused-Later laws).at m in
            retried-Returns fuel failures last e s (retry_read-Returns fuel)
              (omega (arith, after, later))
              (omega (arith, inside, failed_early m f, failed_read_lasts m f))
              (omega (arith, h, later))

  answered_read :
      (laws : ClockLaws) {time longest : ℕ} (from : AnswersFrom time longest) (window : ℕ)
      (what : String) (m : Machine)
      → time + longest ≤ H.now_ms m.world + window
      → failed (read_paused_retrying window what m).0 ≡ false
  unfolding read_paused_retrying reads_within now_ms ◌>>=◌
  answered_read laws from window what m inside =
      retry_read-Returns from laws (H.now_ms m.world) window what inside (window / read_wait + 1) 0
        none m (omega arith) (omega (arith, filled laws window read_wait (omega arith)))

  -- Where the clock does not go back, a sleep lasts as long as asked and the journal can be written, the
  -- retried read of a producer returns a state, never an error, and the state is the one that the producer
  -- answered last, if the producer answers from some time on and a read that begins before that time ends
  -- inside the window.
  pub read_paused_retrying_returns :
      (laws : ClockLaws) {time longest : ℕ} (from : AnswersFrom time longest) (window : ℕ)
      (what : String) (m : Machine)
      → time + longest ≤ H.now_ms m.world + window
      → (b : Bool) × ((read_paused_retrying window what m).0 ≡ ok b)
        × (last_answer (read_paused_retrying window what m).1.trace ≡ some (ok b))
  read_paused_retrying_returns laws from window what m inside =
      let (b, h) =
        returned (read_paused_retrying window what m).0
          (answered_read laws from window what m inside) in
      (b, h, read_paused_retrying-Shows window what m b h)
