-- ===== src/Examples/Mainnet.antt =====
-- src/producer_gate.rs, `mainnet_cover_problem` on a concrete gate.
use pulse_cutover.Prelude.{◌≡◌, refl, true, false, none, some, [], ◌∷◌}
use pulse_cutover.ProducerGate.{Gate, member_of}
use pulse_cutover.ProducerGate.Mainnet.{is_xpr_mainnet, xpr_mainnet_chain_id, mainnet_cover_problem}
use pulse_cutover.ProducerGate.Mainnet.Own.{mainnet_own_agents}
use pulse_cutover.Examples.Gate.{gate}

abbrev own_gate : Gate
own_gate = record gate { cover = ("alpha", "alpha") ∷ [] }

on_mainnet : is_xpr_mainnet xpr_mainnet_chain_id ≡ true
unfolding is_xpr_mainnet
on_mainnet = refl

cover_refused :
    mainnet_cover_problem gate (some xpr_mainnet_chain_id) false ≡ some (("gamma", "alpha") ∷ [])
unfolding mainnet_cover_problem
cover_refused = refl

own_allowed : mainnet_cover_problem own_gate (some xpr_mainnet_chain_id) false ≡ none
unfolding mainnet_cover_problem
own_allowed = refl

mainnet_own_agents_example : member_of own_gate "alpha" ≡ "alpha"
mainnet_own_agents_example =
    mainnet_own_agents own_gate xpr_mainnet_chain_id "alpha" on_mainnet own_allowed
