-- ===== src/Machine/Reads.antt =====
-- src/machine.rs: the retried calls of the source, and every read of the producer's state. A loop has fuel
-- for its window and the shortest wait between two tries.
pub mod Answers
pub mod Bounds
pub mod Enough
pub mod Retries
pub mod Shown
use pulse_cutover.Prelude.{
  ℕ, zero, suc, ◌+◌, ◌-◌, ◌*◌, ◌/◌, min, max, String, Bool, true, false, not, ◌&&◌, ◌||◌, Option,
  none, some, List, [], ◌∷◌, any, if◌then◌else◌, is_some, is_some_and, is_none_or, ltb, leb,
  to_ascii_lowercase, map_or, u64_mod,
}
use Prim.Native.String.{◌++◌, len, slice}
use text.Mathlib.Text.{find?, starts_with}
use pulse_cutover.Prelude.Decimal.{show_u64}
use pulse_cutover.Json.{Json}
use pulse_cutover.State.{as_str}
use pulse_cutover.Journal.Episodes.{PauseEvent, pause, resume}
use pulse_cutover.Machine.Exec.{
  Exec, Result, ok, err, pure, raise, lift, gets, modify, attempt, ◌>>=◌, ◌>>◌, when, on_result,
}
use pulse_cutover.Machine.Host.{Host, Record}
use pulse_cutover.Machine.Core.{
  Machine, Action, now_ms, sleep_ms, producer_paused, evidence, push_pause_event, current_episode,
  next_episode, is_producer,
}

abbrev pub is_ok_true : Result Bool → Bool
is_ok_true (ok b) = b
is_ok_true (err e) = false

abbrev pub is_ok_false : Result Bool → Bool
is_ok_false (ok b) = not b
is_ok_false (err e) = false

abbrev pub pause_read_retry_ms : ℕ
pause_read_retry_ms = 30_000

abbrev pub source_unreachable : String
source_unreachable = "source unreachable"

abbrev pub saturating_add : ℕ → ℕ → ℕ
saturating_add a b = min (a + b) (u64_mod - 1)

abbrev transient_words : List String
transient_words =
    "connection refused" ∷ "connection reset" ∷ "connection aborted" ∷ "timed out" ∷ "timeout"
    ∷ "broken pipe" ∷ "unexpected eof" ∷ "network error" ∷ "http 500" ∷ "http 502" ∷ "http 503"
    ∷ "http 504" ∷ []

module _ ⦃J : Json⦄ ⦃H : Host⦄ where
  open J use {Value, text, flag, number, object, get, index}
  open H use {cfg}

  -- A chain exception: a JSON body with `code` and `error.name`.
  abbrev is_chain_error : Value → Bool
  is_chain_error v = is_some (get v "code") && is_some (get (index v "error") "name")

  abbrev body_after : String → ℕ → Option Value
  body_after e i = H.from_str (H.trim (slice e (i + 10) (len e)))

  unfoldable pub transient_rpc_error : String → Bool
  transient_rpc_error e =
      not (is_some_and (find? e "HTTP 500: ") (λ i. is_some_and (body_after e i) is_chain_error))
      && any transient_words (λ k. is_some (find? (to_ascii_lowercase e) k))

  -- A pause event: its record first, then the memory.
  unfoldable pub journal_pause : Record → PauseEvent → Action Unit
  journal_pause r e = do evidence r; push_pause_event e

  -- After the producer's answer: an own pause that is gone is closed.
  abbrev pub note_released : Result Bool → Action Bool
  note_released r = do
    ours ← gets (λ m. m.paused_by_us)
    when (is_ok_false r && (is_producer cfg.mode && ours)) do
      episode ← gets current_episode
      let released = ("own_pause_released_externally", flag true) ∷ ("episode", number episode) ∷ []
      journal_pause released resume
    lift r

  unfoldable pub read_paused : Action Bool
  read_paused = do r ← attempt producer_paused; note_released r

  abbrev pub recovered_read : String → ℕ → Record
  recovered_read what failures =
      ("producer_state_read_recovered", text what) ∷ ("failed_reads", number failures) ∷ []

  abbrev pub failed_read : String → String → ℕ → ℕ → Record
  failed_read e what failures elapsed =
      ("producer_state_read_failed", text e)
      ∷ ("during", text what)
      ∷ ("failed_reads", number failures)
      ∷ ("elapsed_ms", number elapsed)
      ∷ []

  -- The wait between two reads.
  abbrev pub read_wait : ℕ
  read_wait = max cfg.poll_ms 1

  abbrev pub after_read : String → ℕ → Bool → Action Bool
  after_read what failures v = do
    when (ltb 0 failures) (evidence (recovered_read what failures))
    pure v

  -- After a read that failed: the window has ended, or another try.
  abbrev pub after_failure :
      (ℕ → Option ℕ → Action Bool) → ℕ → ℕ → String → ℕ → Option ℕ → String → Action Bool
  after_failure again start window what failures last e = do
    now ← now_ms
    let elapsed = now - start
    let due = is_none_or last (λ t. leb 1000 (now - t)) || leb window elapsed
    when due (evidence (failed_read e what (failures + 1) elapsed))
    if leb window elapsed
        then raise e
        else do sleep_ms read_wait; again (failures + 1) (if due then some now else last)

  unfoldable pub retry_read : ℕ → ℕ → ℕ → String → ℕ → Option ℕ → Action Bool
  retry_read zero start window what failures last = raise "out of fuel"
  retry_read (suc fuel) start window what failures last = do
    r ← attempt read_paused
    on_result r (after_read what failures)
        (after_failure (retry_read fuel start window what) start window what failures last)

  unfoldable pub reads_within : ℕ → ℕ
  reads_within window = suc (window / read_wait + 1)

  unfoldable pub read_paused_retrying : ℕ → String → Action Bool
  read_paused_retrying window what = do
    start ← now_ms
    retry_read (reads_within window) start window what 0 none

  unfoldable pub stop_point : Action Unit
  stop_point = do
    requested ← gets (λ m. H.stop_requested m.world)
    st ← gets (λ m. m.state)
    when requested do
      evidence (("stopped_by_signal", flag true) ∷ ("state", text (as_str st)) ∷ [])
      raise (
          "STOPPED by signal: stopped at a safe point in "
          ++ as_str st
          ++ " (journaled). Resume with `pulse-cutover run`, or roll back with `pulse-cutover rollback`")

  abbrev retry_record : String → String → ℕ → Record
  retry_record what e bound =
      (
        "source_rpc_retry",
        object
            (("what", text what) ∷ ("error", text e) ∷ ("bound_secs", number (bound / 1000)) ∷ []),
      )
      ∷ []

  abbrev unreachable_record : String → ℕ → ℕ → String → Record
  unreachable_record what attempts waited last =
      (
        "source_rpc_unreachable",
        object (
            ("what", text what)
            ∷ ("attempts", number attempts)
            ∷ ("waited_ms", number waited)
            ∷ ("error", text last)
            ∷ []),
      )
      ∷ []

  abbrev recovered_record : String → ℕ → ℕ → Record
  recovered_record what attempts waited =
      (
        "source_rpc_recovered",
        object (
            ("what", text what)
            ∷ ("attempts", number attempts)
            ∷ ("waited_ms", number waited)
            ∷ []),
      )
      ∷ []

  abbrev unreachable_text : String → String → ℕ → ℕ → String
  unreachable_text what last attempts waited =
      source_unreachable
      ++ ": "
      ++ what
      ++ ": "
      ++ last
      ++ " (retried "
      ++ show_u64 attempts
      ++ " times over "
      ++ show_u64 (waited / 1000)
      ++ " s)"

  unfoldable pub retry_call :
      {A : Type 0} → ℕ → String → Action A → ℕ → ℕ → ℕ → ℕ → String → Action A
  retry_call zero what f start bound backoff attempts last = raise "out of fuel"
  retry_call (suc fuel) what f start bound backoff attempts last = do
    now ← now_ms
    let waited = now - start
    if leb bound waited
        then evidence (unreachable_record what attempts waited last)
          >> raise (unreachable_text what last attempts waited)
        else do
          stop_point
          sleep_ms backoff
          r ← attempt f
          on_result r
              (λ v. do
                later ← now_ms
                evidence (recovered_record what (attempts + 1) (later - start))
                pure v)
              (λ e.
                if transient_rpc_error e
                then retry_call fuel what f start bound (min (backoff * 2) 5000) (attempts + 1) e
                else raise e)

  abbrev pub retry_bound : Option ℕ → ℕ → ℕ
  retry_bound deadline start =
      map_or cfg.rpc_retry_ms (λ d. min (d - start) cfg.rpc_retry_ms) deadline

  unfoldable pub tries_within : ℕ → ℕ
  tries_within bound = suc (bound / 100 + 1)

  unfoldable pub src_retry : {A : Type 0} → String → Action A → Action A
  src_retry what f = do
    first ← attempt f
    on_result first (λ v. pure v)
        λ e. if not (transient_rpc_error e) then raise e else do
          start ← now_ms
          deadline ← gets (λ m. m.tick_deadline)
          let bound = retry_bound deadline start
          modify (λ m. record m { rpc_retry_streaks = m.rpc_retry_streaks + 1 })
          evidence (retry_record what e bound)
          retry_call (tries_within bound) what f start bound (max cfg.poll_ms 100) 1 e

  -- Every retried call inside the action shares one deadline, which is cleared whatever it returns.
  unfoldable pub with_tick : {A : Type 0} → Action A → Action A
  with_tick f = do
    deadline ← gets (λ m. m.tick_deadline)
    if is_some deadline then f else do
      now ← now_ms
      modify (λ m. record m { tick_deadline = some (saturating_add now cfg.rpc_retry_ms) })
      r ← attempt f
      modify (λ m. record m { tick_deadline = none })
      lift r

  unfoldable pub pause_read_window_ms : ℕ
  pause_read_window_ms = max pause_read_retry_ms cfg.rpc_retry_ms
