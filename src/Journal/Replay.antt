-- ===== src/Journal/Replay.antt =====
-- src/journal.rs, `Journal::replay`: the facts that a journal's records leave to a restarted agent. A
-- line of the file is read by serde_json, which is not under src/: a line is blank, a record, or neither.
pub mod Transition
pub mod Effects
pub mod Rollback
pub mod Lines
pub mod Sticky
pub mod Kept
pub mod Readable
pub mod Pauses
use pulse_cutover.Prelude.{
  ℕ, ◌==◌, String, Bool, true, false, not, ◌&&◌, ◌||◌, Option, none, some, List, [], ◌∷◌, ◌++◌, map,
  if◌then◌else◌, is_some, is_none, and_then, map_option, or_else, unwrap_or, map_or, contains,
  filter, filter_map, is_some_and, is_empty,
}
use pulse_cutover.Json.{Json}
use pulse_cutover.Fleet.Reports.{is_true, is_false, is_text}
use pulse_cutover.State.{
  State, armed, frozen, ignited, flipped, live, aborted, halted, stranded, from_str, as_str,
}
use pulse_cutover.Journal.Episodes.{PauseEvent, pause, ack, resume, release, resume_intent}

pub data ReplayError : Type 0 where
  corrupt_line : ReplayError
  unknown_kind unknown_state : String → ReplayError

pub data Replayed (A : Type 0) : Type 0 where
  read : A → Replayed A
  refused : ReplayError → Replayed A

module _ ⦃J : Json⦄ where
  open J use {Value, null, index, get, as_str as str_of, as_u64, as_bool, as_array, is_object}

  pub record Entry : Type 0 where
    pub ts_ms : ℕ
    pub state : String
    pub kind : String
    pub data_of : Value

  pub data Line : Type 0 where
    blank torn : Line
    entry : Entry → Line

  pub record Recovered : Type 0 where
    pub state : Option State
    pub chain_id : Option String
    pub resolved_h : Option ℕ
    pub cut_height : Option ℕ
    pub cut_block_id : Option String
    pub snapshot_file : Option String
    pub sha256 : Option String
    pub frozen_ts_ms : Option ℕ
    pub last_source_block_time : Option String
    pub scheduled : Bool
    pub side_effects : List String
    pub reached_ignited : Bool
    pub staged_sha256 : Option String
    pub staged_cut_height : Option ℕ
    pub halted_from : Option State
    pub unhalted : Bool
    pub torn_tail : Bool
    pub aborted_rollback_complete : Bool
    pub rollback_steps_done : List String
    pub rollback_pending : Bool
    pub target_blockchain_id : Option String
    pub target_subnet_id : Option String
    pub accepted_target_chain_id : Option String
    pub boot_manifest_sha256 : Option String
    pub boot_genesis_sha256 : Option String
    pub boot_chain_config_sha256 : Option String
    pub head_at_pause : Option ℕ
    pub degraded_since_ms : Option ℕ
    pub armed_shadow : Option Value
    pub undo_tracking : Option Bool
    pub legacy_takeover : Option (Bool × Bool)
    pub pause_ack_tracking : Option Bool
    pub shadow_refused : Bool
    pub strand_intent : Bool
    pub mainnet_event_binding : Option Value
    pub pause_events : List PauseEvent
    pub writes_closed : Bool
    pub admission_lock : Option (List String)
    pub admission_lock_applied : Bool
    pub segment : ℕ

  -- `data.get(key)`, and as the kinds of value that the code reads there.
  abbrev pub at : Entry → String → Option Value
  at e key = get e.data_of key

  abbrev pub flag_at : Entry → String → Bool
  flag_at e key = is_true (and_then (at e key) as_bool)

  abbrev pub text_at : Entry → String → Option String
  text_at e key = and_then (at e key) str_of

  abbrev pub number_at : Entry → String → Option ℕ
  number_at e key = and_then (at e key) as_u64

  abbrev pub detail_flag : Entry → String → Bool
  detail_flag e key = is_true (and_then (and_then (at e "detail") (λ d. get d key)) as_bool)

  -- `Recovered::default()`.
  abbrev pub default_recovered : Recovered
  default_recovered = record {
    state = none;
    chain_id = none;
    resolved_h = none;
    cut_height = none;
    cut_block_id = none;
    snapshot_file = none;
    sha256 = none;
    frozen_ts_ms = none;
    last_source_block_time = none;
    scheduled = false;
    side_effects = [];
    reached_ignited = false;
    staged_sha256 = none;
    staged_cut_height = none;
    halted_from = none;
    unhalted = false;
    torn_tail = false;
    aborted_rollback_complete = false;
    rollback_steps_done = [];
    rollback_pending = false;
    target_blockchain_id = none;
    target_subnet_id = none;
    accepted_target_chain_id = none;
    boot_manifest_sha256 = none;
    boot_genesis_sha256 = none;
    boot_chain_config_sha256 = none;
    head_at_pause = none;
    degraded_since_ms = none;
    armed_shadow = none;
    undo_tracking = none;
    legacy_takeover = none;
    pause_ack_tracking = none;
    shadow_refused = false;
    strand_intent = false;
    mainnet_event_binding = none;
    pause_events = [];
    writes_closed = false;
    admission_lock = none;
    admission_lock_applied = false;
    segment = 0;
  }
