-- ===== src/Config.antt =====
-- src/config.rs: the fields of `[coordination]` that the fleet decisions read, and the roster check.
pub mod Roster
pub mod Counted
use pulse_cutover.Prelude.{ℕ, String, Option, List}

pub record RosterMember : Type 0 where
  pub producer : String
  pub instance_id : Option String

pub record Coordination : Type 0 where
  pub network : String
  pub fleet_quorum : ℕ
  pub event_id : Option String
  pub roster : List RosterMember
  pub report_max_age_secs : ℕ
