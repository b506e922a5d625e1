-- ===== src/Lib.antt =====
-- The decisions of the pulse-cutover agent: a fleet of block producers freezes one chain at a cut
-- height H, imports its state into another chain and starts that one, without two chains ever being
-- live. Each agent decides on its own, from its journal and from the status document that a relay
-- (control/server.js) serves of every agent's reports. The modules below model the parts of the agent
-- that decide; each definition has the name of the Rust function or a name for the part of it that it
-- models.
--
-- How the parts interact: `members` reads the relay's document once for every decision about the
-- fleet. `drop_foreign_ceremonies` and `annotate_evidence` rewrite that document before. The resume
-- guard decides whether an agent that froze may resume the old chain, and counts it against the event's
-- quorum; the fleet gate decides whether enough members are VERIFIED for chain creation, and
-- `quorum_unreachable_with` whether a waiting agent may give up; `live_view` and
-- `join_view` decide which target chain the fleet is on. The producer gate decides, at the freeze,
-- whether every producer of the live schedule is run by a ready agent. `pause_episodes` decides from the
-- journal whose the current pause is, and `judge` whether the target still produces blocks. The ceremony
-- machine asks these when a ceremony ends early: `abort` halts past the point of no return, strands where
-- the resume guard refuses on the relay's view and the machine's memory of earlier views, and else rolls
-- back, which resumes an own pause and reopens writes.
--
--   Json                 serde_json's `Value`, a parameter: a record of the operations that the code calls
--   Config, Config/Roster    src/config.rs: the fields that the decisions read, `check_roster`
--   Version              src/producer_gate.rs `parse_version`, `cmp_version`, `version_at_least`;
--                        src/fleet.rs `agent_honours_exit_marks`
--   Fleet/Reports        src/fleet.rs `beacons`, `ExitMark`, `exit_mark`, `producers`, `past_create`
--   Fleet/Members        src/fleet.rs `members`, one definition for each part of its closure
--   Fleet/Marks          src/fleet.rs `FleetMemory`, `marks_state`, `marks_trusted`, `marks_not_lost`,
--                        `peers_seen_verified`
--   Fleet/Resume         src/fleet.rs `resume_guard`, `resume_guard_with`; its loop is `account_all`
--   Fleet/Quorum         src/fleet.rs `not_out`, `quorum_unreachable`, `quorum_unreachable_with`
--   Fleet/Gate           src/machine.rs `fleet_gate`: which reports count toward the quorum that chain creation
--                        waits for, and why one does not; src/beacon.rs `has_failing_health`
--   Fleet/Memory         src/machine.rs `journaled_fleet_memory`, `merged_fleet_memory`, `journaled_exit_marks`,
--                        and the exit marks that `note_fleet_view` remembers
--   Fleet/Groups         src/fleet.rs `unique_best`, and the BTreeMap in which members are grouped
--   Fleet/Live           src/fleet.rs `live_view`, `join_view`
--   Fleet/Foreign        src/fleet.rs `drop_foreign_ceremonies`, `annotate_evidence`
--   ProducerGate, ProducerGate/Schedule, ProducerGate/Relay, ProducerGate/Mainnet    src/producer_gate.rs
--   State                src/state.rs `State`, `as_str`, `from_str`
--   Journal/Replay       src/journal.rs `Recovered`, `Journal::replay`: a record is applied by one step for
--                        each block of the loop's body, in Transition, Effects and Rollback; Lines has the loop
--   Journal/Episodes     src/journal.rs `pause_episodes`
--   LiveWatch, LiveWatch/Observe    src/live_watch.rs `judge`, `observe`
--   Machine/Exec         an action: a machine to a `Result` and the machine after, with `?` as the bind
--   Machine/Host         the outside of the machine, a parameter: its configuration, the clock, the source's
--                        RPCs, hooks, files, the journal, the relay's documents and the coordinator's signed abort; src/config.rs `Mode`
--   Machine/Core         src/machine.rs `Machine`, `next_episode`, `current_episode`, `push_pause_event`;
--                        src/journal.rs `transition`, `evidence`, `error`
--   Machine/New          src/machine.rs `new`
--   Machine/Halt         `past_point_of_no_return`, `halt`, `shadow_refuse`, `finish_shadow_refusal`,
--                        `shadow_reprove_before_resume`, `shadow_mutation_gate`, `shadow_producer_gate`, `hook`
--   Machine/Reads        `transient_rpc_error`, `read_paused`, `read_paused_retrying`, `src_retry`, `with_tick`
--   Machine/Pause        `adopt_external_pause`, `src_pause`, `src_resume`, `writes_may_reopen`
--   Machine/Admission    `freeze_writes`, `lock_admission`; Recheck: `check_admission_lock`,
--                        `hold_source_sealed`; Release: `release_admission`
--   Machine/Strand       `ensure_source_paused`, `relock_stranded`, `source_sealed_problem`, `strand`
--   Machine/Steps, Machine/Rollback    `step_done`, `mark_step`, `unstage`, `rollback_steps`, one definition for
--                        each of its parts in Reverts and Reopen
--   Machine/View         `fleet_status`, `note_fleet_view`
--   Machine/Guard        `needs_resume_guard`, `operator_rollback_needs_guard`, `resume_guard`,
--                        `wait_own_report_withdrawn`
--   Machine/Abort        `early_abort_on`, `abort`
--   Machine/Operator     `ensure_legacy_takeover`, `operator_rollback_opts`, `operator_rollback`: the refusals; Undo:
--                        what is done once it is not refused; Texts: its messages
--   Machine/Reached      the machines that a run reaches by these operations
--   Machine/Ownership, Machine/Effects    what the statements say of a machine: whose the pause is in its
--                        memory, its journal and a replay of the lines it wrote, and the effects that count as undoing something
--   Examples             a concrete `Value`, status documents, and the theorems applied to them
--
-- State is explicit: the agent's memory of the fleet is the record `FleetMemory`, which the decisions
-- take and do not change, and the ceremony machine keeps. A `Result` of the code is `Fleet.Result.Result`, with one constructor of
-- `Refusal` for each text of an error; where `Ok` carries nothing an option of the error is used. A
-- verdict's text is a constructor with the values that the text names. A BTreeSet or BTreeMap is a list
-- in the order of its keys where the order shows, and a list read by membership where it does not.
--
-- The ceremony machine's code has a state monad, and what it does outside is a call of the host, whose own
-- state, `World`, is a field of the machine. Every call leaves its answer in the machine's `trace`, the
-- latest first, failed writes of the journal too, so that a statement can say in which order things
-- happened. The model's writes leave a line or fail; a write whose sync fails leaves its line in the file
-- and returns an error, so the statement on the replay of a run's lines lets a failed write leave its line
-- where the line says nothing of the pause. The texts that a record carries only for its reader (`note`, `clear_with`, the lines on
-- stderr) are left out of the model's records; every field that is read again is there.
--
-- Numbers are natural numbers; a product or sum that the code computes in u64 is reduced modulo 2 ^ 64,
-- as a release build computes it, and a saturating subtraction is the one that stops at 0. The ceremony
-- machine's deadlines and counters are the exception: their sums are not reduced, so the model speaks of
-- clocks and configured times whose sums stay below 2 ^ 64.
--
-- Loops are structural recursion, so none needs fuel but two kinds: the printing of a number in decimal,
-- for which twenty digits are enough for a u64, and the ceremony machine's loops that wait. There
-- `reads_within` and `tries_within` are the rounds that fit in a retry's window when a round sleeps at
-- least one wait, `withdrawal_rounds` has a round for each two seconds of the report's age limit, and
-- `cycle_rounds` one for each second of a beacon cycle; for each of them a theorem says that more fuel
-- changes nothing, where the clock does not go back and a sleep lasts as long as asked. A text is compared by its characters' codes,
-- which for the texts that the code reads byte by byte (names, event ids, versions) agree with its bytes
-- on ASCII.
--
-- Not modelled: HTTP, files, clocks, signatures and hashes (the digest of a gate is a parameter), the
-- forward run of the ceremony machine (src/machine.rs `run` and its steps, of which the fleet gate's
-- verdict on one view is modelled, its loop and its records not), `join`, `unhalt`, the writing of the
-- journal, the view of the fleet that an overridden resume guard journals (a call of the host: nothing
-- reads that record again), and the services in JavaScript. Fields of `Machine` that no modelled operation reads are
-- left out. A panic is modelled only in Fleet/Foreign, where it is `none`, which the ceremony machine
-- takes for an error.
pub mod Prelude
pub mod Json
pub mod Config
pub mod Version
pub mod Fleet
pub mod Journal
pub mod LiveWatch
pub mod ProducerGate
pub mod Machine
pub mod State
pub mod Examples
