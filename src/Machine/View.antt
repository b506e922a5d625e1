-- ===== src/Machine/View.antt =====
-- src/machine.rs: the relay's view of the fleet, as a machine reads it, and what the machine remembers of it.
use pulse_cutover.Prelude.{
  ℕ, zero, suc, ◌-◌, String, true, not, ◌&&◌, ◌||◌, ◌==◌, Option, none, some, List, [], ◌∷◌, map,
  is_empty, is_none_or, is_some_and, if◌then◌else◌, unwrap_or, and_then, ltb, leb,
}
use Prim.Native.String.{◌++◌}
use pulse_cutover.Prelude.Decimal.{show_u64}
use pulse_cutover.Json.{Json}
use pulse_cutover.Fleet.Marks.{FleetMemory, default_memory}
use pulse_cutover.Fleet.Foreign.{drop_foreign_ceremonies, annotate_evidence}
use pulse_cutover.Fleet.Memory.{
  Regression, incomplete_marks, state_went_back, unknown_names, journaled_fleet_memory,
  merged_fleet_memory, journaled_exit_marks, marked_names, fresh_marks, remember_marks,
}
use pulse_cutover.Machine.Exec.{
  Result, ok, err, pure, raise, gets, modify, attempt, ◌>>=◌, ◌>>◌, when, on_option,
}
use pulse_cutover.Machine.Host.{Host, Record, coordination_of}
use pulse_cutover.Machine.Core.{Machine, Action, ask, evidence, now_ms, sleep_ms}

abbrev regression_text : Regression → String
regression_text incomplete_marks = "the relay reports the event's marks as incomplete"
regression_text (state_went_back jid jg id g) =
    "relay marks state "
    ++ jid
    ++ "/"
    ++ show_u64 jg
    ++ " journaled, "
    ++ id
    ++ "/"
    ++ show_u64 g
    ++ " now"

module _ ⦃J : Json⦄ ⦃H : Host⦄ where
  open J use {Value, index, as_array, is_object, text, flag, number, object, array}
  open H use {cfg}

  -- The document rewritten for the event's H; `none` is a panic.
  unfoldable pub prepared : Option ℕ → Value → Option Value
  prepared none doc = some doc
  prepared (some h) doc =
      and_then (drop_foreign_ceremonies doc cfg.network h)
        λ r. annotate_evidence r.0 cfg.network cfg.event_id h

  abbrev document : Result (Option Value) → Option Value
  document (ok (some doc)) = if is_object doc then some doc else none
  document (ok none) = none
  document (err e) = none

  unfoldable pub rewritten : Value → Action (Option Value)
  rewritten doc = do
    h ← gets (λ m. m.resolved_h)
    on_option (prepared h doc) (raise "panic") (λ d. pure (some d))

  -- The relay's `/api/status` in as many tries, 2 s apart.
  unfoldable pub fleet_status : ℕ → Action (Option Value)
  fleet_status zero = pure none
  fleet_status (suc n) = do
    r ← attempt (ask (H.get_json (cfg.relay_url ++ "/api/status")))
    on_option (document r) (when (ltb 0 n) (sleep_ms 2000) >> fleet_status n) rewritten

  abbrev name_array : List String → Value
  name_array ns = array (map text ns)

  abbrev peers_record : List String → String → Record
  peers_record added ev = ("peers_seen_verified", name_array added) ∷ ("event_id", text ev) ∷ []

  abbrev regressed_record : Regression → String → Record
  regressed_record why ev =
      ("relay_marks_regressed", flag true)
      ∷ ("event_id", text ev)
      ∷ ("why", text (regression_text why))
      ∷ []

  abbrev state_record : String → ℕ → String → Record
  state_record id g ev =
      ("relay_marks_state", object (("state_id", text id) ∷ ("generation", number g) ∷ []))
      ∷ ("event_id", text ev)
      ∷ []

  abbrev marks_record : List String → String → Record
  marks_record fresh ev = ("exit_marks_seen", name_array fresh) ∷ ("event_id", text ev) ∷ []

  -- The marks state is journaled when it is new, and at most every 30 s when it grew.
  unfoldable pub note_state : FleetMemory → String → String × ℕ → Action Unit
  note_state old ev (id, g) = do
    now ← now_ms
    last ← gets (λ m. m.fleet_mem_state_journaled_ms)
    let first = is_none_or old.relay_state (λ (jid, jg). not (jid == id))
    let grew = is_some_and old.relay_state (λ (jid, jg). ltb jg g)
    when (first || (grew && leb 30_000 (now - last))) do
      evidence (state_record id g ev)
      modify (λ m. record m { fleet_mem_state_journaled_ms = now })

  abbrev recall_marks : String → Machine → Machine
  recall_marks ev m = record m {
    exit_marks_seen =
        some (unwrap_or m.exit_marks_seen (journaled_exit_marks (H.journal_data m.world) ev));
  }

  unfoldable pub note_marks : String → Value → Action Unit
  note_marks ev doc = do
    modify (recall_marks ev)
    known ← gets (λ m. unwrap_or m.exit_marks_seen [])
    let marks = marked_names cfg.network ev (unwrap_or (as_array (index doc "networks")) [])
    let fresh = fresh_marks known marks
    when (not (is_empty fresh)) do
      evidence (marks_record fresh ev)
      modify (λ m. record m { exit_marks_seen = some (remember_marks known marks) })

  abbrev recall_memory : String → Machine → Machine
  recall_memory ev m = record m {
    fleet_mem = some (unwrap_or m.fleet_mem (journaled_fleet_memory (H.journal_data m.world) ev));
  }

  -- What a view adds is journaled before it is remembered.
  unfoldable pub note_view : String → Value → Action FleetMemory
  note_view ev doc = do
    modify (recall_memory ev)
    old ← gets (λ m. unwrap_or m.fleet_mem default_memory)
    let (new, regressed) = merged_fleet_memory (coordination_of cfg) cfg.me doc old
    let added = unknown_names old.verified_peers new.verified_peers
    when (not (is_empty added)) (evidence (peers_record added ev))
    on_option regressed (pure tt)
        (λ why. when (not old.relay_regressed) (evidence (regressed_record why ev)))
    on_option new.relay_state (pure tt) (note_state old ev)
    note_marks ev doc
    modify (λ m. record m { fleet_mem = some new })
    pure new

  unfoldable pub note_fleet_view : Value → Action FleetMemory
  note_fleet_view doc = on_option cfg.event_id (pure default_memory) (λ ev. note_view ev doc)
