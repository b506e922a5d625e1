-- ===== src/Machine/Guard.antt =====
-- src/machine.rs: when the old chain may be resumed: the guard on the fleet's view, and the wait until the
-- relay shows that this node is going back.
pub mod Safe
pub mod Waits
use pulse_cutover.Prelude.{
  ℕ, zero, suc, ◌+◌, ◌*◌, ◌/◌, max, String, Bool, true, false, not, ◌&&◌, ◌||◌, Option, none, some,
  List, [], ◌∷◌, map, filter, any, is_empty, if◌then◌else◌, is_some, is_none_or, is_some_and,
  unwrap_or, map_option, ltb, ◌==◌,
}
use Prim.Native.String.{◌++◌}
use pulse_cutover.Prelude.Decimal.{show_u64}
use pulse_cutover.Json.{Json}
use pulse_cutover.State.{State, frozen, snapshotted, verified, aborted, stranded}
use pulse_cutover.Fleet.Reports.{is_true, is_text}
use pulse_cutover.Machine.Exec.{Result, ok, err, pure, raise, gets, attempt, ◌>>=◌, ◌>>◌, on_option}
use pulse_cutover.Fleet.Marks.{FleetMemory}
use pulse_cutover.Fleet.Memory.{journaled_fleet_memory}
use pulse_cutover.Fleet.Result.{err_of}
use pulse_cutover.Fleet.Resume.{resume_guard_with}
use pulse_cutover.Machine.Host.{Host, Record, coordination_of}
use pulse_cutover.Machine.Core.{
  Machine, Action, ask, evidence, now_ms, sleep_ms, is_producer, concat_map,
}
use pulse_cutover.Machine.View.{fleet_status, note_fleet_view}
use pulse_cutover.Machine.Halt.{past_point_of_no_return}
use pulse_cutover.Machine.Admission.Release.{step_done}

-- `matches!(state, Frozen | Snapshotted | Verified)`.
abbrev pub is_frozen_stage : State → Bool
is_frozen_stage frozen = true
is_frozen_stage snapshotted = true
is_frozen_stage verified = true
is_frozen_stage _ = false

module _ ⦃J : Json⦄ ⦃H : Host⦄ where
  open J use {Value, text, flag, null, number, index, as_array, as_str, as_bool}
  open H use {cfg}

  unfoldable pub has_event : Bool
  has_event = cfg.coordinated && is_some cfg.event_id

  unfoldable pub needs_resume_guard : Machine → Bool
  needs_resume_guard m = is_producer cfg.mode && (has_event && is_frozen_stage m.state)

  abbrev resumable_stage : Machine → State → Bool
  resumable_stage m stranded = true
  resumable_stage m frozen = true
  resumable_stage m snapshotted = true
  resumable_stage m verified = true
  resumable_stage m aborted =
      not m.aborted_rollback_complete && (is_some m.frozen_ts_ms || is_some m.head_at_pause)
  resumable_stage m _ = false

  unfoldable pub operator_rollback_needs_guard : Machine → Bool
  operator_rollback_needs_guard m =
      is_producer cfg.mode
      && (has_event
          && (not (past_point_of_no_return m)
              && (not (step_done "resume" m) && resumable_stage m m.state)))

  abbrev pub guard_record : Bool → Option String → Record
  guard_record signed none = ("resume_guard", text "clear") ∷ ("signed_abort", flag signed) ∷ []
  guard_record signed (some why) =
      ("resume_guard", text "refused") ∷ ("signed_abort", flag signed) ∷ ("why", text why) ∷ []

  abbrev pub shows_abort : Result (Option Value) → Bool
  shows_abort (ok (some doc)) = H.signed_abort doc
  shows_abort (ok none) = false
  shows_abort (err e) = false

  -- The event has a local tombstone, or the coordinator's document shows a signed abort of it.
  unfoldable pub is_abort_signed : Action Bool
  is_abort_signed = do
    dead ← gets (λ m. H.is_tombstoned m.world)
    if dead then pure true else do
      r ← attempt (ask (H.get_json (cfg.relay_url ++ "/api/coord/" ++ cfg.network)))
      pure (shows_abort r)

  -- Without a view, the memory as it is, or the journal's.
  unfoldable pub view_memory : Option Value → Action FleetMemory
  view_memory status =
      on_option status
        (gets λ m.
          unwrap_or m.fleet_mem
            (journaled_fleet_memory (H.journal_data m.world) (unwrap_or cfg.event_id "")))
        note_fleet_view

  -- The guard's answer, journaled: nothing is clear, a text refuses.
  unfoldable pub resume_guard : Action (Option String)
  resume_guard = do
    status ← fleet_status 5
    signed ← is_abort_signed
    mem ← view_memory status
    let answer = resume_guard_with status (coordination_of cfg) cfg.me signed mem
    let why = map_option H.refusal_text (err_of answer)
    evidence (guard_record signed why)
    pure why

  abbrev array_at : Value → String → List Value
  array_at v k = unwrap_or (as_array (index v k)) []

  -- This node's reports of the event, as the relay has them.
  unfoldable pub own_reports : String → String → Value → List Value
  own_reports prod inst doc =
      let networks =
        filter (array_at doc "networks") (λ n. is_text (as_str (index n "id")) cfg.network) in
      let listed = concat_map (λ n. array_at n "producers") networks in
      let mine = filter listed (λ p. is_text (as_str (index p "name")) prod) in
      let reports = map (λ b. index b "report") (concat_map (λ p. array_at p "beacons") mine) in
      filter reports λ r.
        is_text (as_str (index (index r "coord") "event_id")) (unwrap_or cfg.event_id "")
        && is_none_or (as_str (index r "instance_id")) (λ i. i == inst)

  abbrev ceremony_flag : Value → String → Bool
  ceremony_flag r k = is_true (as_bool (index (index r "ceremony") k))

  unfoldable pub is_withdrawn : Value → Bool
  is_withdrawn r =
      not (is_text (as_str (index (index r "ceremony") "state")) "VERIFIED")
      || (ceremony_flag r "aborting" || ceremony_flag r "rollback_pending")

  unfoldable pub all_withdrawn : List Value → Bool
  all_withdrawn rs = not (is_empty rs) && not (any rs (λ r. not (is_withdrawn r)))

  abbrev shows_withdrawn : Result (Option Value) → Bool
  shows_withdrawn (ok (some doc)) =
      is_some_and cfg.me (λ (prod, inst). all_withdrawn (own_reports prod inst doc))
  shows_withdrawn (ok none) = false
  shows_withdrawn (err e) = false

  unfoldable pub settle : ℕ → ℕ → Action Unit
  settle zero until = raise "out of fuel"
  settle (suc fuel) until = do
    now ← now_ms
    if ltb now until then sleep_ms 1000 >> settle fuel until else pure tt

  abbrev settle_ms : ℕ
  settle_ms = max (unwrap_or cfg.beacon_interval_secs 5) 10 * 1000

  abbrev not_seen : String
  not_seen =
      "not seen on the relay; waited report_max_age_secs ("
      ++ show_u64 cfg.report_max_age_secs
      ++ " s): the last VERIFIED report is now too old for any gate"

  -- One beacon cycle more, so that a peer that has just started creation is seen by the second pass.
  unfoldable pub settle_peers : ℕ → Action Unit
  settle_peers cycle = do
    evidence (("own_report_withdrawn", text "the relay shows this node aborting") ∷ [])
    now ← now_ms
    settle cycle (now + settle_ms)
    evidence (("settle_before_second_guard_ms", number settle_ms) ∷ [])

  unfoldable pub await_withdrawal : ℕ → ℕ → ℕ → Action Unit
  await_withdrawal cycle zero deadline = raise "out of fuel"
  await_withdrawal cycle (suc fuel) deadline = do
    r ← attempt (ask (H.get_json (cfg.relay_url ++ "/api/status")))
    if shows_withdrawn r then settle_peers cycle else do
      now ← now_ms
      if ltb deadline now
          then evidence (("own_report_withdrawn", text not_seen) ∷ [])
          else sleep_ms 2000 >> await_withdrawal cycle fuel deadline

  -- The rounds of the two waits that their times allow.
  unfoldable pub cycle_rounds : ℕ
  cycle_rounds = suc (settle_ms / 1000)

  unfoldable pub withdrawal_rounds : ℕ
  withdrawal_rounds = suc (cfg.report_max_age_secs * 1000 / 2000 + 1)

  unfoldable pub wait_own_report_withdrawn : Action Unit
  wait_own_report_withdrawn = do
    now ← now_ms
    await_withdrawal cycle_rounds withdrawal_rounds (now + cfg.report_max_age_secs * 1000)
