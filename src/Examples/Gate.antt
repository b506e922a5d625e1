-- ===== src/Examples/Gate.antt =====
-- src/producer_gate.rs on a concrete gate, live schedule and status document.
use pulse_cutover.Prelude.Text.{eq_ignore_ascii_case}
use pulse_cutover.Version.{cmp_parsed_version, parse_version, version_at_least}
use pulse_cutover.Prelude.{◌≡◌, ◌↔◌, refl, String, true, none, List, [], ◌∷◌, All, contains}
use pulse_cutover.Config.{RosterMember}
use pulse_cutover.ProducerGate.{
  Gate, member_of, check, roster_names, bad_member, bad_required, check_names, repeats, stray_cover,
  subset, valid_event_id,
}
use pulse_cutover.ProducerGate.Schedule.{sched_of, schedule_problems, problems_for, same_texts}
use pulse_cutover.ProducerGate.Relay.{
  gate_producers, relay_problems, first_ready, gate_reports, lacks_of, member_problem,
}
use pulse_cutover.ProducerGate.Ready.{MemberReady, relay_problems_iff}
use pulse_cutover.Version.{version_at_least}
use pulse_cutover.ProducerGate.{min_agent_version}
use pulse_cutover.ProducerGate.Agents.{gate_agents}
use pulse_cutover.ProducerGate.Checked.{Checked, check-Checked}
use pulse_cutover.ProducerGate.Cover.{gate_covers}
use pulse_cutover.Examples.Tree.{Tree, flag, num, str, tree_json}
use pulse_cutover.Examples.Documents.{◌:=◌, object, list, entry, status_of, member}

abbrev pub gate : Gate
gate = record {
  v = 1;
  required = "alpha" ∷ "beta" ∷ "gamma" ∷ [];
  cover = ("gamma", "alpha") ∷ [];
  active = record { version = 3; producers = "alpha" ∷ "beta" ∷ [] };
  pending = none;
  proposed = none;
  standby = "gamma" ∷ [];
  min_version = "0.5.0-rc.33";
  event_id = "ev1";
  h = 1000;
  sha256 = "ab12";
}

abbrev roster : List RosterMember
roster = member "alpha" ∷ member "beta" ∷ []

-- A digest in place of SHA-256.
abbrev digest : String → String
digest t = "AB12"

abbrev schedule_doc : List Tree → Tree
schedule_doc producers = object (("version" := num 3) ∷ ("producers" := list producers) ∷ [])

abbrev live_schedule : Tree
live_schedule = object (
    ("active"
      := schedule_doc (
          object (("producer_name" := str "alpha") ∷ [])
          ∷ object (("producer_name" := str "beta") ∷ [])
          ∷ []))
    ∷ [])

abbrev green : String → Tree
green name = object (("name" := str name) ∷ ("ok" := flag true) ∷ [])

abbrev armed : Tree
armed = object (
    ("role" := str "producer")
    ∷ ("coord" := object (("event_id" := str "ev1") ∷ []))
    ∷ ("ceremony"
        := object (
            ("state" := str "ARMED")
            ∷ ("evidence"
                := object (
                    ("h" := num 1000)
                    ∷ ("producer_gate_sha256" := str "AB12")
                    ∷ ("agent_version" := str "0.5.0-rc.34")
                    ∷ []))
            ∷ []))
    ∷ ("checks" := list (green "admission_lock" ∷ green "admission_lock_probe" ∷ []))
    ∷ [])

abbrev ready_fleet : Tree
ready_fleet = status_of (entry "alpha" armed [] ∷ entry "beta" armed [] ∷ [])

gate_accepted : check digest gate roster ≡ none
unfolding check eq_ignore_ascii_case valid_event_id parse_version version_at_least
    cmp_parsed_version repeats subset check_names bad_required bad_member stray_cover member_of
gate_accepted = refl

schedule_unchanged : schedule_problems gate live_schedule ≡ []
unfolding schedule_problems sched_of problems_for same_texts
schedule_unchanged = refl

relay_green : relay_problems gate ready_fleet "testnet" "ev1" 45000 ("ARMED" ∷ "FROZEN" ∷ []) ≡ []
unfolding relay_problems member_problem gate_producers member_of gate_reports first_ready lacks_of
    eq_ignore_ascii_case version_at_least parse_version cmp_parsed_version
relay_green = refl

check-Checked_example : Checked digest gate roster
check-Checked_example = check-Checked digest gate roster gate_accepted

relay_problems_iff_example :
    (relay_problems gate ready_fleet "testnet" "ev1" 45000 ("ARMED" ∷ []) ≡ [])
    ↔ All
        (λ name.
          MemberReady gate "ev1" 45000
            ("ARMED" ∷ [])
            (gate_producers ready_fleet "testnet")
            (member_of gate name))
        gate.required
relay_problems_iff_example =
    relay_problems_iff gate "ev1" 45000 ("ARMED" ∷ []) ready_fleet "testnet"

gate_covers_example :
    (contains (roster_names roster) (member_of gate "beta") ≡ true)
    × MemberReady gate "ev1" 45000
        ("ARMED" ∷ "FROZEN" ∷ [])
        (gate_producers ready_fleet "testnet")
        (member_of gate "beta")
unfolding sched_of
gate_covers_example =
    gate_covers digest gate roster live_schedule ready_fleet "testnet" "ev1" 45000
      ("ARMED" ∷ "FROZEN" ∷ []) gate.active "beta" gate_accepted schedule_unchanged relay_green refl
      refl

gate_agents_example :
    (m : MemberReady gate "ev1" 45000
      ("ARMED" ∷ "FROZEN" ∷ [])
      (gate_producers ready_fleet "testnet")
      (member_of gate "beta"))
    × (version_at_least m.ready.agent min_agent_version ≡ true)
gate_agents_example =
    gate_agents digest gate roster ready_fleet "testnet" "ev1" 45000 ("ARMED" ∷ "FROZEN" ∷ [])
      "beta" gate_accepted relay_green refl
