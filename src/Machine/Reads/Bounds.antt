-- ===== src/Machine/Reads/Bounds.antt =====
-- src/machine.rs: how long the retried read of the producer lasts.
use pulse_cutover.Prelude.{
  ℕ, zero, suc, ◌+◌, ◌-◌, ◌*◌, ◌≤◌, ◌≡◌, String, Bool, true, false, ◌||◌, Option, none, some, arith,
  ltb, leb, Bool-cases, inl, inr, if◌then◌else◌, is_none_or,
}
use pulse_cutover.Json.{Json}
use pulse_cutover.Journal.Episodes.{PauseEvent}
use pulse_cutover.Machine.Exec.{
  Result, ok, err, pure, raise, lift, gets, attempt, ◌>>=◌, ◌>>◌, when, on_result,
}
use pulse_cutover.Machine.Host.{Host, Record, Line}
use pulse_cutover.Machine.Core.{
  Machine, Action, call, now_ms, sleep_ms, append, evidence, producer_paused, push_pause_event,
  push_event,
}
use pulse_cutover.Machine.Reads.{
  read_paused, retry_read, read_paused_retrying, reads_within, read_wait, journal_pause,
  failed_read, recovered_read, after_read, after_failure,
}
use pulse_cutover.Machine.Reads.Enough.{ClockLaws, read_paused_retrying_enough}

module _ ⦃J : Json⦄ ⦃H : Host⦄ where
  -- A read, a write, and what a sleep lasts beyond what was asked for, each last no longer than this.
  pub record LastsAtMost (span : ℕ) : Type 0 where
    pub reads : (w : H.World) → H.now_ms (H.producer_paused w).1 ≤ H.now_ms w + span
    pub writes : (l : Line) (w : H.World) → H.now_ms (H.append l w).1 ≤ H.now_ms w + span
    pub sleeps : (ms : ℕ) (w : H.World) → H.now_ms (H.sleep_ms ms w) ≤ H.now_ms w + ms + span

  record Lasts {A : Type 0} (span : ℕ) (a : Action A) : Type 0 where
    at : (m : Machine) → H.now_ms (a m).1.world ≤ H.now_ms m.world + span

  module _ {A : Type 0} where
    Lasts-pure : (a : A) → Lasts 0 (pure a)
    unfolding ◌>>=◌
    Lasts-pure a = record { at = λ m. omega arith }

    Lasts-lift : (r : Result A) → Lasts 0 (lift r)
    unfolding ◌>>=◌
    Lasts-lift r = record { at = λ m. omega arith }

    Lasts-gets : (f : Machine → A) → Lasts 0 (gets f)
    unfolding ◌>>=◌
    Lasts-gets f = record { at = λ m. omega arith }

    Lasts-attempt : {k : ℕ} (a : Action A) → Lasts k a → Lasts k (attempt a)
    unfolding ◌>>=◌
    Lasts-attempt a h = record { at = λ m. h.at m }

    Lasts-within : {j k : ℕ} (a : Action A) → Lasts j a → j ≤ k → Lasts k a
    Lasts-within a h l = record { at = λ m. omega (arith, h.at m, l) }

  module _ {A B : Type 0} where
    lifted-Lasts :
        {k : ℕ} (r : Result A) (f : A → Action B) (s : Machine)
        → ((a : A) → Lasts k (f a))
        → H.now_ms ((lift r >>= f) s).1.world ≤ H.now_ms s.world + k
    unfolding ◌>>=◌
    lifted-Lasts (ok a) f s h = (h a).at s
    lifted-Lasts (err e) f s h = omega arith

    Lasts-bind :
        {j k : ℕ} (a : Action A) (f : A → Action B)
        → Lasts j a
        → ((x : A) → Lasts k (f x))
        → Lasts (j + k) (a >>= f)
    unfolding ◌>>=◌
    Lasts-bind a f h g = record {
      at = λ m. let (r, s) = a m in omega (arith, h.at m, lifted-Lasts r f s g);
    }

  module _ {span : ℕ} (most : LastsAtMost span) where
    append-Lasts : (l : Line) → Lasts span (append l)
    unfolding append call
    append-Lasts l = record { at = λ m. most.writes l m.world }

    evidence-Lasts : (r : Record) → Lasts span (evidence r)
    unfolding evidence
    evidence-Lasts r =
        Lasts-within _ (Lasts-bind _ _ (Lasts-gets _) λ st. append-Lasts _) (omega arith)

    push-Lasts : (e : PauseEvent) → Lasts 0 (push_pause_event e)
    unfolding push_pause_event push_event ◌>>=◌
    push-Lasts e = record { at = λ m. omega arith }

    journal-Lasts : (r : Record) (e : PauseEvent) → Lasts span (journal_pause r e)
    unfolding journal_pause
    journal-Lasts r e =
        Lasts-within _ (Lasts-bind _ _ (evidence-Lasts r) λ done. push-Lasts e) (omega arith)

    when-Lasts : (b : Bool) (a : Action Unit) → Lasts span a → Lasts span (when b a)
    when-Lasts true a h = h
    when-Lasts false a h = Lasts-within _ (Lasts-pure tt) (omega arith)

    read-Lasts : Lasts span producer_paused
    unfolding producer_paused call
    read-Lasts = record { at = λ m. most.reads m.world }

    read_paused-Lasts : Lasts (span + span) read_paused
    unfolding read_paused
    read_paused-Lasts =
        Lasts-within _
          (Lasts-bind _ _ (Lasts-attempt _ read-Lasts) λ r. Lasts-bind _ _ (Lasts-gets _) λ ours.
            Lasts-bind _ _
              (when-Lasts _ _ (
                Lasts-within _ (Lasts-bind _ _ (Lasts-gets _) λ episode. journal-Lasts _ _)
                  (omega arith)))
              λ done. Lasts-lift r)
          (omega arith)

    recovered-Lasts :
        (failures : ℕ) (what : String) (v : Bool)
        → Lasts span (when (ltb 0 failures) (evidence (recovered_read what failures)) >> pure v)
    recovered-Lasts failures what v =
        Lasts-within _
          (Lasts-bind _ _ (when-Lasts (ltb 0 failures) _ (evidence-Lasts _)) λ done. Lasts-pure v)
          (omega arith)

    module _ (start window : ℕ) (what : String) where
      -- The latest time at which a try begins.
      abbrev last_try : ℕ
      last_try = start + window + read_wait + (span + span)

      abbrev last_end : ℕ
      last_end = last_try + (span + span + span)

      abbrev Ends : ℕ → Type 0
      Ends fuel =
          (failures : ℕ) (last : Option ℕ) (m : Machine)
          → H.now_ms m.world ≤ last_try
          → H.now_ms (retry_read fuel start window what failures last m).1.world ≤ last_end

      slept-Ends :
          (fuel n : ℕ) (next : Option ℕ) (r : Result Unit) (s : Machine)
          → Ends fuel
          → H.now_ms s.world ≤ start + window + span
          → H.now_ms
              ((lift r >> (sleep_ms read_wait >> retry_read fuel start window what n next))
                s).1.world
            ≤ last_end
      unfolding ◌>>=◌ sleep_ms
      slept-Ends fuel n next (err e) s k h = omega (arith, h)
      slept-Ends fuel n next (ok done) s k h =
          k n next (record s { world = H.sleep_ms read_wait s.world })
            (omega (arith, h, most.sleeps read_wait s.world))

      abbrev retried : ℕ → ℕ → Option ℕ → String → Action Bool
      retried fuel = after_failure (retry_read fuel start window what) start window what

      raised_ends :
          (r : Result Unit) (e : String) (s : Machine)
          → H.now_ms s.world ≤ last_end
          → H.now_ms ((lift r >> raise {A = Bool} e) s).1.world ≤ last_end
      unfolding ◌>>=◌
      raised_ends (ok done) e s h = h
      raised_ends (err f) e s h = h

      retried-Ends :
          (fuel failures : ℕ) (last : Option ℕ) (e : String) (s : Machine)
          → Ends fuel
          → H.now_ms s.world ≤ last_try + (span + span)
          → H.now_ms (retried fuel failures last e s).1.world ≤ last_end
      unfolding ◌>>=◌ now_ms
      retried-Ends fuel failures last e s k h =
          let now = H.now_ms s.world in
          let r = failed_read e what (failures + 1) (now - start) in
          elim (Bool-cases (leb window (now - start))) [
            | inl over ↦
                let due = is_none_or last (λ t. leb 1000 (now - t)) || true in
                let lasts = (when-Lasts due (evidence r) (evidence-Lasts r)).at s in
                rw over (
                  raised_ends (when due (evidence r) s).0 e (when due (evidence r) s).1
                    (omega (arith, h, lasts)))
            | inr left ↦
                let due = is_none_or last (λ t. leb 1000 (now - t)) || false in
                let lasts = (when-Lasts due (evidence r) (evidence-Lasts r)).at s in
                let (done, t) = when due (evidence r) s in
                let early : now ≤ start + window = ground (arith, left) in
                rw left (
                  slept-Ends fuel (failures + 1) (if due then some now else last) done t k
                    (omega (arith, early, lasts)))
          ]

      ended-Ends :
          (fuel failures : ℕ) (last : Option ℕ) (r : Result Bool) (s : Machine)
          → Ends fuel
          → H.now_ms s.world ≤ last_try + (span + span)
          → H.now_ms (on_result r (after_read what failures) (retried fuel failures last) s).1.world
            ≤ last_end
      unfolding on_result
      ended-Ends fuel failures last (err e) s k h = retried-Ends fuel failures last e s k h
      ended-Ends fuel failures last (ok v) s k h =
          omega (arith, h, (recovered-Lasts failures what v).at s)

      retry_read-Ends : (fuel : ℕ) → Ends fuel
      unfolding retry_read ◌>>=◌
      retry_read-Ends zero failures last m h = omega (arith, h)
      retry_read-Ends (suc fuel) failures last m h =
          let (r, s) = read_paused m in
          ended-Ends fuel failures last r s (retry_read-Ends fuel)
            (omega (arith, h, read_paused-Lasts.at m))

  -- Where the clock does not go back and a sleep lasts as long as asked, and where a read, a write and what
  -- a sleep lasts too long each stay below a span, the loop of the retried read comes to the same result
  -- and state with any fuel from the model's up, so it ends by itself, with a state or with an error, and
  -- at the latest one wait and five spans after its window.
  pub read_paused_retrying_ends :
      (laws : ClockLaws) {span : ℕ} (most : LastsAtMost span) (window fuel : ℕ) (what : String)
      (m : Machine)
      → reads_within window ≤ fuel
      → (retry_read fuel (H.now_ms m.world) window what 0 none m
          ≡ read_paused_retrying window what m)
        × (H.now_ms (read_paused_retrying window what m).1.world
            ≤ H.now_ms m.world + window + read_wait + 5 * span)
  unfolding read_paused_retrying now_ms ◌>>=◌
  read_paused_retrying_ends laws most window fuel what m h =
      let ends =
        retry_read-Ends most (H.now_ms m.world) window what (reads_within window) 0 none m
          (omega arith) in
      (read_paused_retrying_enough laws window fuel what m h, omega (arith, ends))
