-- ===== src/Machine/Host.antt =====
-- What src/machine.rs works with: the configuration it reads (src/config.rs), the calls it makes
-- (`ChainOps` of src/ops.rs, `Journal` of src/journal.rs, src/shadow.rs, src/stop.rs, the staged file), and
-- the record of what it did. The outside of the machine is a state of its own, `World`, which each call may
-- change and which decides each answer; the trace has the calls and the answers, the latest first.
use pulse_cutover.Prelude.{ℕ, String, Bool, Option, List}
use pulse_cutover.Json.{Json}
use pulse_cutover.State.{State}
use pulse_cutover.Config.{RosterMember, Coordination}
use pulse_cutover.Fleet.Result.{Refusal}
use pulse_cutover.Journal.Episodes.{PauseEvent}
use pulse_cutover.Machine.Exec.{Result}

pub data Mode : Type 0 where
  producer api : Mode

pub record Config : Type 0 where
  pub mode : Mode
  pub poll_ms : ℕ
  pub journal_path : String
  -- `snapshot.staged_path`
  pub staged_path : String
  -- who runs the command: `SUDO_USER`, else `USER`
  pub operator : String
  -- `ceremony.freeze_height`
  pub freeze_height : ℕ
  -- `source.rpc_retry_secs` in ms, by default the smaller of its default and half the snapshot timeout
  pub rpc_retry_ms : ℕ
  pub admission_lock : Bool
  pub auto_rollback : Bool
  pub is_shadow : Bool
  -- `coordination`, where there is one
  pub coordinated : Bool
  pub network : String
  -- `url`, without the slashes at its end
  pub relay_url : String
  pub report_max_age_secs : ℕ
  pub event_id : Option String
  pub roster : List RosterMember
  pub fleet_quorum : ℕ
  pub early_abort : Bool
  -- `beacon`: its producer and `beacon::instance_id`, and its interval
  pub me : Option (String × String)
  pub beacon_interval_secs : Option ℕ
  pub on_abort : Option String
  pub on_halt : Option String
  -- `source.start_cmd`
  pub start_cmd : Option String
  -- `target.fence_cmd()`
  pub fence_cmd : String
  -- `flip` and `hyperion`, each with its `revert_cmd`
  pub flip : Option (Option String)
  pub hyperion : Option (Option String)

-- The `[coordination]` that the fleet decisions read.
abbrev pub coordination_of : Config → Coordination
coordination_of c = record {
  network = c.network;
  fleet_quorum = c.fleet_quorum;
  event_id = c.event_id;
  roster = c.roster;
  report_max_age_secs = c.report_max_age_secs;
}

module _ ⦃J : Json⦄ where
  open J use {Value}

  -- The fields of a `json!` object.
  abbrev pub Record : Type 0
  Record = List (String × Value)

  -- `Journal::{evidence, error, transition}`.
  pub data Line : Type 0 where
    evidence_line : State → Record → Line
    error_line : State → String → Value → Line
    transition_line : State → Record → Line

  pub data Effect : Type 0 where
    wrote unwritten : Line → Effect
    saw_producer : Result Bool → Effect
    paused resumed : Result Unit → Effect
    ran : String → Result String → Effect
    -- `on_halt`, which only pages a human
    paged : String → Result String → Effect
    saw_whitelist : Result (Option (List String)) → Effect
    set_whitelist : List String → Result Unit → Effect
    moved_aside : String → Result Unit → Effect
    -- `push_pause_event`: an event in the memory
    remembered : PauseEvent → Effect

  pub record Host : Type 1 where
    pub World : Type 0
    pub cfg : Config
    pub now_ms : World → ℕ
    pub sleep_ms : ℕ → World → World
    pub producer_paused : World → Result Bool × World
    pub pause : World → Result Unit × World
    pub resume : World → Result Unit × World
    -- `source_info`'s head block
    pub source_head : World → Result ℕ × World
    pub actor_whitelist : World → Result (Option (List String)) × World
    pub set_actor_whitelist : List String → World → Result Unit × World
    pub unapplied_transactions : World → Result (Option Value) × World
    pub run_hook : String → World → Result String × World
    pub kill_orphan_hooks : World → Result (Option String) × World
    pub get_json : String → World → Result (Option Value) × World
    -- the journal's append, `Journal::write`
    pub append : Line → World → Result Unit × World
    -- `shadow::identity_problems`, `shadow::producer_binding_problems`
    pub identity_problems : World → List String × World
    pub producer_binding_problems : World → List String × World
    -- the `data` of each line of the journal that is JSON
    pub journal_data : World → List Value
    -- `coord::is_tombstoned` of the event, and `coord::aborted` of the coordinator's document
    pub is_tombstoned : World → Bool
    pub signed_abort : Value → Bool
    -- the text of an error of src/fleet.rs
    pub refusal_text : Refusal → String
    -- the relay's view of the members, as it is journaled with an override of the guard
    pub fleet_view : World → Value × World
    -- `check_shadow_binding` and `check_mainnet_binding`
    pub binding_problem : World → Option String
    -- the `early_abort` of the journal's ARMED record
    pub journaled_early_abort : World → Bool
    -- `stop::requested`
    pub stop_requested : World → Bool
    -- `serde_json::from_str`, and `str::trim`
    pub from_str : String → Option Value
    pub trim : String → String
    -- the staged snapshot: whether it exists, and `rename`
    pub staged_exists : World → Bool
    pub rename_staged : String → World → Result Unit × World
    -- `coord::record_exit_tombstone` of the event and the reason
    pub record_exit_tombstone : String → String → World → Result Unit × World
