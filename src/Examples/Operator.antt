-- ===== src/Examples/Operator.antt =====
-- The operator's rollback and the machines that a run reaches, at the concrete host.
use pulse_cutover.Prelude.{◌≡◌, refl, true, false, List, [], map}
use pulse_cutover.Journal.Replay.{Entry, Recovered, default_recovered, read, entry}
use pulse_cutover.Journal.Replay.Lines.{replay_lines}
use pulse_cutover.Machine.Core.{Machine}
use pulse_cutover.Machine.Pause.{src_pause}
use pulse_cutover.Machine.Abort.{abort}
use pulse_cutover.Machine.Operator.Undo.{operator_rollback_opts}
use pulse_cutover.Machine.New.{new}
use pulse_cutover.Machine.Reached.{Step, Reached, Reached-Sound}
use pulse_cutover.Machine.Ownership.{as_replayed}
use pulse_cutover.Machine.Ownership.Law.{SoundAt}
use pulse_cutover.Machine.Ownership.Replayed.{file_entries}
use pulse_cutover.Machine.Effects.{done}
use pulse_cutover.Machine.Effects.Operator.{restarts, operator_rollback_past}
use pulse_cutover.Examples.Tree.{nil, tree_json}
use pulse_cutover.Examples.Laws.{tree_builds}
use pulse_cutover.Examples.Desk.{Desk, desk_host, paused_desk}
use pulse_cutover.Examples.Abort.{ignited_producer}

operator_rollback_past_example :
    done restarts (operator_rollback_opts false true ignited_producer).1 ≡ []
operator_rollback_past_example = operator_rollback_past true ignited_producer refl

-- A producer that pauses, aborts, and is rolled back by its operator.
abbrev producing_desk : Desk
producing_desk = record paused_desk { held = false }

abbrev begun : Machine
begun = new producing_desk default_recovered

abbrev held : Machine
held = (src_pause begun).1

abbrev given_up : Machine
given_up = (abort "test" nil held).1

abbrev undone : Machine
undone = (operator_rollback_opts false true given_up).1

undone-Reached : Reached producing_desk default_recovered undone
undone-Reached =
    Reached.next given_up undone
      (Reached.next held given_up (Reached.next begun held Reached.started Step.pauses)
        (Step.aborts "test" nil))
      (Step.rolls_back false true)

abbrev written : List Entry
written = file_entries (λ l t. false) (λ t. 1000) undone.trace

Reached-Sound_example :
    SoundAt [] undone
    × (r' : Recovered) × (replay_lines true (map (λ e. entry e) written) default_recovered
        ≡ read r')
    × (r'.pause_events ≡ map as_replayed undone.pause_events)
Reached-Sound_example =
    Reached-Sound tree_builds producing_desk default_recovered undone true (λ l t. false)
      (λ t. 1000) refl (λ l t h. cc h) undone-Reached
