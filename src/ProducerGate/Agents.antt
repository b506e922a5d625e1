-- ===== src/ProducerGate/Agents.antt =====
-- src/producer_gate.rs: the versions of the agents that `relay_problems` accepts.
use pulse_cutover.Prelude.{ℕ, ◌≡◌, String, true, none, List, [], contains}
use pulse_cutover.Json.{Json}
use pulse_cutover.Config.{RosterMember}
use pulse_cutover.Version.{version_at_least}
use pulse_cutover.Version.Order.{version_at_least_trans}
use pulse_cutover.ProducerGate.{Gate, check, min_agent_version, member_of}
use pulse_cutover.ProducerGate.Checked.{check-Checked}
use pulse_cutover.ProducerGate.Cover.{contains-All}
use pulse_cutover.ProducerGate.Relay.{gate_producers, relay_problems}
use pulse_cutover.ProducerGate.Ready.{MemberReady, relay_problems_iff}

module _ ⦃J : Json⦄ where
  open J use {Value}

  -- With an accepted gate and a green relay check, the member of every required name has a ready report
  -- of an agent that is at least the first version that runs the gate.
  pub gate_agents :
      (digest : String → String) (g : Gate) (roster : List RosterMember) (status : Value)
      (network event_id : String) (max_age_ms : ℕ) (states : List String) (n : String)
      → check digest g roster ≡ none
      → relay_problems g status network event_id max_age_ms states ≡ []
      → contains g.required n ≡ true
      → (m : MemberReady g event_id max_age_ms states
          (gate_producers status network)
          (member_of g n))
        × (version_at_least m.ready.agent min_agent_version ≡ true)
  gate_agents digest g roster status network event_id max_age_ms states n ok green required =
      let m =
        contains-All
          (λ x.
            MemberReady g event_id max_age_ms states (gate_producers status network)
              (member_of g x))
          g.required n ((relay_problems_iff g event_id max_age_ms states status network).0 green)
          required in
      (
        m,
        version_at_least_trans m.ready.agent g.min_version min_agent_version m.ready.new_enough
            (check-Checked digest g roster ok).new_enough,
      )
