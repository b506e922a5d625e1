-- ===== src/Machine/Ownership/Gates.antt =====
-- src/machine.rs: halts, shadow refusals, gates and hooks leave the pause as it is.
use pulse_cutover.Prelude.{String, refl}
use pulse_cutover.Json.{Json, BuildLaws, entry}
use pulse_cutover.State.{State}
use pulse_cutover.Machine.Exec.Along.{Same-Preorder}
use pulse_cutover.Machine.Host.{Host, paged, ran}
use pulse_cutover.Machine.Core.{call}
use pulse_cutover.Machine.Halt.{
  page, halt, finish_shadow_refusal, shadow_refuse, prove_shadow, identity_problems,
  shadow_reprove_before_resume, shadow_mutation_gate, shadow_producer_gate, hook,
}
use pulse_cutover.Machine.Ownership.{marks}
use pulse_cutover.Machine.Ownership.Silence.{silent}
use pulse_cutover.Machine.Ownership.Quiet.{Quiet, quiet_rules, call-Quiet}

module _ ⦃J : Json⦄ ⦃H : Host⦄ where
  paged-Quiet : (cmd : String) → Quiet (call (H.run_hook cmd) (paged cmd))
  unfolding marks
  paged-Quiet cmd = call-Quiet (H.run_hook cmd) (paged cmd) λ r t. refl

  ran-Quiet : (cmd : String) → Quiet (call (H.run_hook cmd) (ran cmd))
  unfolding marks
  ran-Quiet cmd = call-Quiet (H.run_hook cmd) (ran cmd) λ r t. refl

  module _ (laws : BuildLaws J) where
    pub page-Quiet : (st : State) → Quiet (page st)
    unfolding page silent entry
    page-Quiet st = search (quiet_rules, paged-Quiet) depth 30 fits 4000

    pub halt-Quiet : (reason : String) (detail : Json.Value J) → Quiet (halt reason detail)
    unfolding halt silent entry
    halt-Quiet reason detail = search (quiet_rules, page-Quiet) depth 30 fits 4000

    pub finish_shadow_refusal-Quiet : (reason : String) → Quiet (finish_shadow_refusal reason)
    unfolding finish_shadow_refusal silent entry
    finish_shadow_refusal-Quiet reason = search quiet_rules depth 30 fits 4000

    pub shadow_refuse-Quiet :
        (reason : String) (detail : Json.Value J) → Quiet (shadow_refuse reason detail)
    unfolding shadow_refuse silent entry
    shadow_refuse-Quiet reason detail =
        search (quiet_rules, halt-Quiet, finish_shadow_refusal-Quiet) depth 30 fits 4000

    prove_shadow-Quiet : (note : String) → Quiet (prove_shadow note)
    unfolding prove_shadow silent entry
    prove_shadow-Quiet note = search quiet_rules depth 30 fits 4000

    identity_problems-Quiet : Quiet identity_problems
    unfolding identity_problems
    identity_problems-Quiet = search quiet_rules depth 30 fits 4000

    pub shadow_reprove_before_resume-Quiet :
        (why : String) (detail : Json.Value J) → Quiet (shadow_reprove_before_resume why detail)
    unfolding shadow_reprove_before_resume
    shadow_reprove_before_resume-Quiet why detail =
        search (quiet_rules, prove_shadow-Quiet, identity_problems-Quiet, shadow_refuse-Quiet) depth
          30 fits 4000

    pub shadow_mutation_gate-Quiet : (what : String) → Quiet (shadow_mutation_gate what)
    unfolding shadow_mutation_gate
    shadow_mutation_gate-Quiet what =
        search (quiet_rules, prove_shadow-Quiet, identity_problems-Quiet, shadow_refuse-Quiet) depth
          30 fits 4000

    pub shadow_producer_gate-Quiet : (what : String) → Quiet (shadow_producer_gate what)
    unfolding shadow_producer_gate
    shadow_producer_gate-Quiet what = search (quiet_rules, shadow_refuse-Quiet) depth 30 fits 4000

    pub hook-Quiet : (cmd : String) → Quiet (hook cmd)
    unfolding hook
    hook-Quiet cmd = search (quiet_rules, ran-Quiet, shadow_mutation_gate-Quiet) depth 30 fits 4000
