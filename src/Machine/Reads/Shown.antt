-- ===== src/Machine/Reads/Shown.antt =====
-- src/machine.rs, the retried read of the producer: what it returns is what the producer answered last.
use pulse_cutover.Prelude.{
  ℕ, zero, suc, ◌∙◌, String, Bool, true, false, ◌≡◌, refl, ap, Option, none, some, List, [], ◌∷◌,
  if◌then◌else◌,
}
use pulse_cutover.Json.{Json}
use pulse_cutover.Journal.Episodes.{PauseEvent}
use pulse_cutover.Machine.Exec.{Result, ok, err, raise, lift, ◌>>=◌, when, on_result}
use pulse_cutover.Machine.Exec.Along.{Along, Same, Same-Preorder, along_rules, Along-modify}
use pulse_cutover.Machine.Exec.Returns.{bind_ok, pure_ok, lift_ok}
use pulse_cutover.Machine.Host.{Host, Record, Line, Effect, saw_producer}
use pulse_cutover.Machine.Core.{
  Machine, Action, call, now_ms, append, mark_line, evidence, producer_paused, push_pause_event,
  push_event,
}
use pulse_cutover.Machine.Reads.{
  read_paused, note_released, retry_read, read_paused_retrying, reads_within, journal_pause,
  after_read, after_failure,
}

module _ ⦃J : Json⦄ where
  -- The last answer of the producer to a read, the latest effect first.
  unfoldable pub last_answer : List Effect → Option (Result Bool)
  last_answer [] = none
  last_answer (saw_producer r ∷ t) = some r
  last_answer (_ ∷ t) = last_answer t

module _ ⦃J : Json⦄ ⦃H : Host⦄ where
  abbrev Unread : {A : Type 0} → Action A → Type 0
  Unread a = Along (Same (λ (m : Machine). last_answer m.trace)) a

  append-Unread : (l : Line) → Unread (append l)
  unfolding append call last_answer
  append-Unread l = record { at = λ m. line m (H.append l m.world).0 }
    where
      line :
          (m : Machine) (r : Result Unit)
          → last_answer (mark_line l r ∷ m.trace) ≡ last_answer m.trace
      line m (ok done) = refl
      line m (err e) = refl

  evidence-Unread : (r : Record) → Unread (evidence r)
  unfolding evidence
  evidence-Unread r = search (along_rules, append-Unread)

  push-Unread : (e : PauseEvent) → Unread (push_pause_event e)
  unfolding push_pause_event push_event last_answer
  push-Unread e = Along-modify (push_event e) λ m. refl

  journal-Unread : (r : Record) (e : PauseEvent) → Unread (journal_pause r e)
  unfolding journal_pause
  journal-Unread r e = search (along_rules, evidence-Unread, push-Unread)

  noted-Unread : (r : Result Bool) → Unread (note_released r)
  noted-Unread r = search (along_rules, journal-Unread) depth 30 fits 4000

  when-Unread : (b : Bool) (r : Record) → Unread (when b (evidence r))
  when-Unread b r = search (along_rules, evidence-Unread)

  -- Where the action returns a flag, the producer answered it last.
  record Shows (a : Action Bool) : Type 0 where
    at : (m : Machine) (b : Bool) → (a m).0 ≡ ok b → last_answer (a m).1.trace ≡ some (ok b)

  lifted-Shows :
      {A : Type 0} (r : Result A) (f : A → Action Bool) (s : Machine) (b : Bool)
      → ((x : A) → Shows (f x))
      → ((lift r >>= f) s).0 ≡ ok b
      → last_answer ((lift r >>= f) s).1.trace ≡ some (ok b)
  unfolding ◌>>=◌
  lifted-Shows (ok x) f s b k h = (k x).at s b h
  lifted-Shows (err e) f s b k h = cc h

  Shows-bind :
      {A : Type 0} (a : Action A) (f : A → Action Bool) → ((x : A) → Shows (f x)) → Shows (a >>= f)
  unfolding ◌>>=◌
  Shows-bind a f k = record { at = λ m b h. let (r, s) = a m in lifted-Shows r f s b k h }

  Shows-raise : (e : String) → Shows (raise e)
  unfolding ◌>>=◌
  Shows-raise e = record { at = λ m b h. cc h }

  Shows-if : (c : Bool) (a n : Action Bool) → Shows a → Shows n → Shows (if c then a else n)
  Shows-if true a n h k = h
  Shows-if false a n h k = k

  noted_result :
      (r : Result Bool) (m : Machine) (b : Bool) → (note_released r m).0 ≡ ok b → r ≡ ok b
  noted_result r m b h =
      let (ours, e, h1) = bind_ok _ _ m b h in
      let (done, e2, h2) = bind_ok _ _ _ b h1 in lift_ok r _ b h2

  read_paused-Shows : Shows read_paused
  unfolding read_paused producer_paused call ◌>>=◌ last_answer
  read_paused-Shows = record {
    at = λ m b h.
        let r = (H.producer_paused m.world).0 in
        (noted-Unread r).at (producer_paused m).1
        ∙ ap some (noted_result r (producer_paused m).1 b h);
  }

  read-Shows :
      (what : String) (failures : ℕ) (again : String → Action Bool) (r : Result Bool) (s : Machine)
      (b : Bool)
      → ((v : Bool) → r ≡ ok v → last_answer s.trace ≡ some (ok v))
      → ((e : String) → Shows (again e))
      → (on_result r (after_read what failures) again s).0 ≡ ok b
      → last_answer (on_result r (after_read what failures) again s).1.trace ≡ some (ok b)
  unfolding on_result
  read-Shows what failures again (err e) s b seen k h = (k e).at s b h
  read-Shows what failures again (ok v) s b seen k h =
      let (done, e, h1) = bind_ok _ _ s b h in
      let kept : Unread (after_read what failures v) = search (along_rules, when-Unread) in
      kept.at s ∙ seen v refl ∙ ap (λ x. some (ok x)) (pure_ok v b _ h1)

  failed-Shows :
      (again : ℕ → Option ℕ → Action Bool) (start window : ℕ) (what : String) (failures : ℕ)
      (last : Option ℕ) (e : String)
      → ((n : ℕ) (next : Option ℕ) → Shows (again n next))
      → Shows (after_failure again start window what failures last e)
  failed-Shows again start window what failures last e k =
      Shows-bind _ _
        λ now. Shows-bind _ _ λ done. Shows-if _ _ _ (Shows-raise e) (Shows-bind _ _ λ slept. k _ _)

  retry_read-Shows :
      (fuel start window : ℕ) (what : String) (failures : ℕ) (last : Option ℕ)
      → Shows (retry_read fuel start window what failures last)
  unfolding retry_read ◌>>=◌
  retry_read-Shows zero start window what failures last = Shows-raise _
  retry_read-Shows (suc fuel) start window what failures last = record {
    at = λ m b h.
        let (r, s) = read_paused m in
        let again = retry_read fuel start window what in
        read-Shows what failures (after_failure again start window what failures last) r s b
          (λ v e. read_paused-Shows.at m v e)
          (λ e.
            failed-Shows again start window what failures last e
              λ n next. retry_read-Shows fuel start window what n next)
          h;
  }

  -- The state that the retried read returns is the producer's last answer.
  pub read_paused_retrying-Shows :
      (window : ℕ) (what : String) (m : Machine) (b : Bool)
      → (read_paused_retrying window what m).0 ≡ ok b
      → last_answer (read_paused_retrying window what m).1.trace ≡ some (ok b)
  unfolding read_paused_retrying
  read_paused_retrying-Shows window what m b h =
      (Shows-bind now_ms (λ start. retry_read (reads_within window) start window what 0 none)
          λ start. retry_read-Shows (reads_within window) start window what 0 none).at
        m b h
