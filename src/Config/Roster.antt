-- ===== src/Config/Roster.antt =====
-- src/config.rs, `check_roster`.
use pulse_cutover.Prelude.{String, Bool, true, ◌&&◌, Option, none, some, List, [], ◌∷◌, ◌==◌, find}
use pulse_cutover.Config.{RosterMember}

unfoldable pub same_instance : Option String → Option String → Bool
same_instance (some a) (some b) = a == b
same_instance (some a) none = true
same_instance none b = true

unfoldable pub is_duplicate : RosterMember → RosterMember → Bool
unfolding same_instance
is_duplicate m other =
    (m.producer == other.producer) && same_instance m.instance_id other.instance_id

-- `none` is `Ok`; the error names the producer that is listed twice.
unfoldable pub check_roster : List RosterMember → Option String
unfolding is_duplicate
check_roster [] = none
check_roster (m ∷ rest) = elim (find rest (is_duplicate m)) [
  | none ↦ check_roster rest
  | some other ↦ some m.producer
]
