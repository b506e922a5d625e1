-- ===== src/Machine/Effects/Stopped.antt =====
-- src/machine.rs: a halt, and the refusal of a shadow, touch nothing.
use pulse_cutover.Prelude.{String, Bool, refl}
use pulse_cutover.Json.{Json}
use pulse_cutover.State.{State}
use pulse_cutover.Machine.Exec.Along.{Same-Preorder}
use pulse_cutover.Machine.Host.{Host, Effect, paged}
use pulse_cutover.Machine.Core.{call}
use pulse_cutover.Machine.Halt.{
  page, halt, finish_shadow_refusal, shadow_refuse, prove_shadow, identity_problems,
  shadow_mutation_gate, shadow_producer_gate,
}
use pulse_cutover.Machine.Effects.{touches}
use pulse_cutover.Machine.Effects.Rules.{Ignores, Spares, spare_rules, call-Spares}

module _ ⦃J : Json⦄ where
  pub touches-Ignores : Ignores touches
  touches-Ignores = record {
    wrote_line = λ l. refl;
    unwritten_line = λ l. refl;
    read_producer = λ r. refl;
    read_whitelist = λ r. refl;
    page_human = λ cmd r. refl;
    recall = λ e. refl;
  }

module _ ⦃J : Json⦄ ⦃H : Host⦄ where
  open J use {Value}

  module _ {kind : Effect → Bool} (ignores : Ignores kind) where
    paged-Spares : (cmd : String) → Spares kind (call (H.run_hook cmd) (paged cmd))
    paged-Spares cmd = call-Spares (H.run_hook cmd) (paged cmd) (ignores.page_human cmd)

    pub page-Spares : (st : State) → Spares kind (page st)
    unfolding page
    page-Spares st = search (spare_rules, paged-Spares) depth 30 fits 4000

    pub halt-Spares : (reason : String) (detail : Value) → Spares kind (halt reason detail)
    unfolding halt
    halt-Spares reason detail = search (spare_rules, page-Spares) depth 30 fits 4000

    pub finish-Spares : (reason : String) → Spares kind (finish_shadow_refusal reason)
    unfolding finish_shadow_refusal
    finish-Spares reason = search spare_rules depth 30 fits 4000

    pub shadow_refuse-Spares :
        (reason : String) (detail : Value) → Spares kind (shadow_refuse reason detail)
    unfolding shadow_refuse
    shadow_refuse-Spares reason detail =
        search (spare_rules, halt-Spares, finish-Spares) depth 30 fits 4000

    prove-Spares : (note : String) → Spares kind (prove_shadow note)
    unfolding prove_shadow
    prove-Spares note = search spare_rules depth 30 fits 4000

    identity-Spares : Spares kind identity_problems
    unfolding identity_problems
    identity-Spares = search spare_rules

    pub gate-Spares : (what : String) → Spares kind (shadow_mutation_gate what)
    unfolding shadow_mutation_gate
    gate-Spares what =
        search (spare_rules, prove-Spares, identity-Spares, shadow_refuse-Spares) depth 30 fits 4000

    pub producer_gate-Spares : (what : String) → Spares kind (shadow_producer_gate what)
    unfolding shadow_producer_gate
    producer_gate-Spares what = search (spare_rules, shadow_refuse-Spares) depth 30 fits 4000
