-- ===== src/Examples/Desk.antt =====
-- A concrete host for the machine: a clock, a producer, its whitelist, and the answers of the fleet.
use pulse_cutover.Prelude.{ℕ, ◌+◌, String, Bool, true, false, Option, none, some, List, [], ◌∷◌}
use pulse_cutover.State.{frozen}
use pulse_cutover.Journal.Episodes.{PauseEvent, pause, ack}
use pulse_cutover.Machine.Exec.{Result, ok, err}
use pulse_cutover.Machine.Host.{Config, Host, producer}
use pulse_cutover.Machine.Core.{Machine}
use pulse_cutover.Examples.Tree.{Tree, nil, tree_json}

pub record Desk : Type 0 where
  pub clock : ℕ
  pub held : Bool
  pub listed : List String
  pub answers : Bool
  pub relay : Option Tree

abbrev pub desk_config : Config
desk_config = record {
  mode = producer;
  poll_ms = 500;
  journal_path = "journal.jsonl";
  staged_path = "snapshot.bin";
  operator = "root";
  freeze_height = 0;
  rpc_retry_ms = 60_000;
  admission_lock = true;
  auto_rollback = true;
  is_shadow = false;
  coordinated = true;
  network = "xpr";
  relay_url = "https://relay";
  report_max_age_secs = 4;
  event_id = some "e1";
  roster = [];
  fleet_quorum = 0;
  early_abort = true;
  me = none;
  beacon_interval_secs = some 5;
  on_abort = some "reopen";
  on_halt = some "page";
  start_cmd = none;
  fence_cmd = "stop";
  flip = none;
  hyperion = none;
}

-- The producer's answer, or an error where it does not answer.
abbrev pub answered : {A : Type 0} → Bool → A → Result A
answered true a = ok a
answered false a = err "connection refused"

instance abbrev pub desk_host : Host
desk_host = record {
  World = Desk;
  cfg = desk_config;
  now_ms = λ w. w.clock;
  sleep_ms = λ ms w. record w { clock = w.clock + ms };
  producer_paused = λ w. (answered w.answers w.held, w);
  pause = λ w. (ok tt, record w { held = true });
  resume = λ w. (ok tt, record w { held = false });
  source_head = λ w. (ok 10, w);
  actor_whitelist = λ w. (ok (some w.listed), w);
  set_actor_whitelist = λ l w. (ok tt, record w { listed = l });
  unapplied_transactions = λ w. (ok none, w);
  run_hook = λ cmd w. (ok "done", w);
  kill_orphan_hooks = λ w. (ok none, w);
  get_json = λ url w. (ok w.relay, w);
  append = λ l w. (ok tt, w);
  identity_problems = λ w. ([], w);
  producer_binding_problems = λ w. ([], w);
  journal_data = λ w. [];
  is_tombstoned = λ w. false;
  signed_abort = λ v. false;
  refusal_text = λ r. "refused";
  fleet_view = λ w. (nil, w);
  binding_problem = λ w. none;
  journaled_early_abort = λ w. false;
  stop_requested = λ w. false;
  from_str = λ s. none;
  trim = λ s. s;
  staged_exists = λ w. false;
  rename_staged = λ to w. (ok tt, w);
  record_exit_tombstone = λ ev reason w. (ok tt, w);
}

abbrev pub paused_desk : Desk
paused_desk = record {
  clock = 1000;
  held = true;
  listed = "pulse.frozen1" ∷ [];
  answers = true;
  relay = none;
}

abbrev pub own_pause : List PauseEvent
own_pause = pause true ∷ ack ∷ []

-- A producer that froze writes, locked its admission and paused.
abbrev pub frozen_machine : ⦃H : Host⦄ → H.World → Machine ⦃H = H⦄
frozen_machine w = record {
  state = frozen;
  resumed = false;
  resolved_h = some 9;
  frozen_ts_ms = some 900;
  flip_ran = false;
  hyperion_flip_ran = false;
  source_stopped = false;
  early_abort_armed = some false;
  reached_ignited = false;
  staged_sha256 = none;
  unhalted = false;
  aborted_rollback_complete = false;
  rollback_steps_done = [];
  rollback_pending = false;
  create_chain_started = false;
  joining = false;
  head_at_pause = some 10;
  armed_shadow = none;
  paused_by_us = true;
  pause_adopted = false;
  strand_intent = false;
  adopted_released = false;
  writes_closed_by_us = true;
  admission_lock = some [];
  admission_lock_applied = true;
  admission_lock_losses = [];
  rpc_retry_streaks = 0;
  unpaused_seen = 0;
  tick_deadline = none;
  pause_events = own_pause;
  legacy_paused = false;
  legacy_froze = false;
  legacy_takeover_pending = false;
  ever_paused_by_us = true;
  acks_tracked = true;
  pause_unknown = false;
  observed_paused = none;
  shadow_refused = false;
  shadow_proven = false;
  exit_marks_seen = none;
  fleet_mem = none;
  fleet_mem_state_journaled_ms = 0;
  world = w;
  trace = [];
}
