-- ===== src/Examples/Versions.antt =====
-- Versions and rosters: src/producer_gate.rs `version_at_least`, src/config.rs `check_roster`.
use pulse_cutover.Prelude.{◌≤◌, ◌≡◌, refl, true, none, some, List, [], ◌∷◌, length, filter}
use pulse_cutover.Config.{RosterMember}
use pulse_cutover.Config.Roster.{check_roster}
use pulse_cutover.Config.Counted.{stands_for, check_roster_once}
use pulse_cutover.Version.{version_at_least, cmp_parsed_version, parse_version}
use pulse_cutover.Version.Order.{version_at_least_trans}

release_after_candidate : version_at_least "0.5.0" "0.5.0-rc.40" ≡ true
unfolding version_at_least parse_version cmp_parsed_version
release_after_candidate = refl

candidates_in_order : version_at_least "v0.5.0-rc.40" "0.5.0-rc.9" ≡ true
unfolding version_at_least parse_version cmp_parsed_version
candidates_in_order = refl

version_at_least_trans_example : version_at_least "0.5.0" "0.5.0-rc.9" ≡ true
unfolding version_at_least parse_version cmp_parsed_version
version_at_least_trans_example =
    version_at_least_trans "0.5.0" "0.5.0-rc.40" "0.5.0-rc.9" release_after_candidate refl

abbrev two_instances : List RosterMember
two_instances =
    record { producer = "alpha"; instance_id = some "i1" }
    ∷ record { producer = "alpha"; instance_id = some "i2" }
    ∷ []

check_roster_once_example : length (filter two_instances (stands_for "alpha" "i1")) ≤ 1
unfolding check_roster
check_roster_once_example = check_roster_once two_instances "alpha" "i1" refl

-- Ids that differ only in their case are taken for two instances.
abbrev one_instance_twice : List RosterMember
one_instance_twice =
    record { producer = "alpha"; instance_id = some "AB" }
    ∷ record { producer = "alpha"; instance_id = some "ab" }
    ∷ []

one_instance_twice_passes : check_roster one_instance_twice ≡ none
unfolding check_roster
one_instance_twice_passes = refl
