-- ===== src/Machine/Operator/Texts.antt =====
-- src/machine.rs, `operator_rollback_opts`: the texts of its refusals and notes.
use pulse_cutover.Prelude.{String, List}
use Prim.Native.String.{◌++◌}
use pulse_cutover.Prelude.Decimal.{join}
use pulse_cutover.Json.{Json}
use pulse_cutover.State.{State, as_str}
use pulse_cutover.Machine.Host.{Host}

abbrev pub refused_before : String
refused_before =
    "SHADOW identity was refused on this journal: nothing was resumed and no hook ran (the source may be a "
    ++ "real node). Resume it by hand only after checking which chain it belongs to "
    ++ "(docs/DESIGN-shadow.md)"

abbrev pub done_before : String
done_before =
    "already rolled back (the journal proves every rollback step completed): nothing done again"

abbrev pub past_refusal : State → String
past_refusal st =
    "refusing to roll back: journal state "
    ++ as_str st
    ++ " and ignition may have started (the target may be running). Nothing was changed. A fleet-wide "
    ++ "rollback confirmed by the coordinator uses --force-after-ignite."

abbrev pub not_reproven : List String → String
not_reproven problems =
    "SHADOW identity not re-proven ("
    ++ join "; " problems
    ++ "): the source was NOT resumed and no hook ran"

abbrev pub unproven_refusal : String → String
unproven_refusal message = "refusing to roll back: " ++ message ++ ". Nothing was changed"

abbrev pub released_note : String
released_note =
    "the external pause was released by the operator (journaled): the producer is resumed, and writes "
    ++ "reopen once it produces"

abbrev pub fenced_note : String
fenced_note =
    "this box's target was stopped first (local fence only: other producers' targets are unaffected)"

abbrev pub fence_failure : String → String
fence_failure e =
    "target fence failed (" ++ e ++ "): the source was NOT resumed and routing was NOT reverted"

abbrev pub unfinished : ⦃J : Json⦄ → ⦃H : Host⦄ → String
unfinished ⦃J⦄ ⦃H⦄ =
    "the rollback did NOT finish: the source was not producing when writes would have reopened, so writes "
    ++ "stay FROZEN and the journal is now STRANDED (on_halt paged). Check the producer by hand (who paused "
    ++ "it, is it producing?), then re-run `pulse-cutover rollback`. Journal: "
    ++ H.cfg.journal_path
