-- ===== src/Examples/Abort.antt =====
-- Aborts and rollbacks at a concrete host.
use pulse_cutover.Prelude.{◌≡◌, refl, true, false, none, [], arith}
use pulse_cutover.State.{halted}
use pulse_cutover.Journal.Episodes.{pause_episodes, fold_event, change_latest}
use pulse_cutover.Machine.Exec.Fails.{failed}
use pulse_cutover.Machine.Core.{Machine, producer_paused}
use pulse_cutover.Machine.Ownership.{marks, memory, Lawful}
use pulse_cutover.Machine.Ownership.Law.{SoundAt}
use pulse_cutover.Machine.Abort.{abort}
use pulse_cutover.Machine.Abort.Ends.{abort_past}
use pulse_cutover.Machine.Effects.{touches, done}
use pulse_cutover.Machine.Halt.{past_point_of_no_return}
use pulse_cutover.Machine.Guard.{
  await_withdrawal, cycle_rounds, withdrawal_rounds, wait_own_report_withdrawn,
}
use pulse_cutover.Machine.Guard.Waits.{wait_own_report_withdrawn_enough}
use pulse_cutover.Machine.Reads.Retries.{retry_call_within}
use pulse_cutover.Machine.Reads.{
  retry_read, read_paused_retrying, reads_within, retry_call, tries_within,
}
use pulse_cutover.Machine.Reads.Enough.{ClockLaws, read-Later, read_paused_retrying_enough}
use pulse_cutover.Examples.Tree.{nil, tree_json}
use pulse_cutover.Examples.Desk.{desk_host, paused_desk, frozen_machine, own_pause}

abbrev frozen_producer : Machine
frozen_producer = frozen_machine paused_desk

frozen-Sound : SoundAt own_pause frozen_producer
unfolding marks memory Lawful pause_episodes fold_event change_latest
frozen-Sound = record { derived = refl; recalled = refl; lawful = tt }

abbrev pub ignited_producer : Machine
ignited_producer = record frozen_producer { reached_ignited = true }

abort_past_example :
    (done touches (abort "test" nil ignited_producer).1 ≡ [])
    × ((abort "test" nil ignited_producer).1.state ≡ halted)
    × (failed (abort "test" nil ignited_producer).0 ≡ true)
unfolding past_point_of_no_return
abort_past_example = abort_past "test" nil ignited_producer refl

abbrev unanswered : Machine
unanswered = frozen_machine (record paused_desk { answers = false })

desk-ClockLaws : ClockLaws
desk-ClockLaws = record {
  reads = λ w. omega arith;
  statuses = λ url w. omega arith;
  writes = λ l w. omega arith;
  sleeps = λ ms w. omega arith;
}

read_paused_retrying_enough_example :
    retry_read 100 1000 30_000 "test" 0 none unanswered
    ≡ read_paused_retrying 30_000 "test" unanswered
unfolding reads_within
read_paused_retrying_enough_example =
    read_paused_retrying_enough desk-ClockLaws 30_000 100 "test" unanswered (omega arith)

retry_call_within_example :
    retry_call 1000 "pause" producer_paused 1000 30_000 500 1 "connection refused" unanswered
    ≡ retry_call 302 "pause" producer_paused 1000 30_000 500 1 "connection refused" unanswered
unfolding tries_within
retry_call_within_example =
    retry_call_within desk-ClockLaws producer_paused (read-Later desk-ClockLaws) "pause" 30_000 500
      1 1000 "connection refused" unanswered (omega arith)

wait_own_report_withdrawn_enough_example :
    await_withdrawal 1000 1000 5_000 unanswered ≡ wait_own_report_withdrawn unanswered
unfolding cycle_rounds withdrawal_rounds
wait_own_report_withdrawn_enough_example =
    wait_own_report_withdrawn_enough desk-ClockLaws 1000 1000 unanswered (omega arith) (omega arith)
