-- ===== src/Machine/Effects.antt =====
-- src/machine.rs: what a stop does to the source, the hooks and the staged files.
pub mod Operator
pub mod Rules
pub mod Sealed
pub mod Stopped
pub mod Views
pub mod Withheld
use pulse_cutover.Prelude.{String, Bool, true, false, List, filter}
use pulse_cutover.Json.{Json}
use pulse_cutover.Machine.Host.{
  Host, Line, Effect, wrote, unwritten, saw_producer, paused, resumed, ran, paged, saw_whitelist,
  set_whitelist, moved_aside, remembered,
}
use pulse_cutover.Machine.Core.{Machine}

module _ ⦃J : Json⦄ where
  -- A resume of the source, a hook but the paging one, a move of the staged snapshot.
  abbrev pub undoes : Effect → Bool
  undoes (resumed r) = true
  undoes (ran cmd r) = true
  undoes (moved_aside to r) = true
  undoes (wrote l) = false
  undoes (unwritten l) = false
  undoes (saw_producer r) = false
  undoes (paused r) = false
  undoes (paged cmd r) = false
  undoes (saw_whitelist r) = false
  undoes (set_whitelist l r) = false
  undoes (remembered e) = false

  -- Those, a pause, and a change of the producer's whitelist.
  abbrev pub touches : Effect → Bool
  touches (paused r) = true
  touches (set_whitelist l r) = true
  touches (resumed r) = true
  touches (ran cmd r) = true
  touches (moved_aside to r) = true
  touches (wrote l) = false
  touches (unwritten l) = false
  touches (saw_producer r) = false
  touches (paged cmd r) = false
  touches (saw_whitelist r) = false
  touches (remembered e) = false

module _ ⦃J : Json⦄ ⦃H : Host⦄ where
  -- The effects of a kind, in the machine's trace.
  abbrev pub done : (Effect → Bool) → Machine → List Effect
  done kind m = filter m.trace kind
