-- ===== src/Examples/Documents.antt =====
-- Status documents of a relay, as the control plane serves them.
use pulse_cutover.Prelude.{ℕ, String, true, false, none, some, List, [], ◌∷◌}
use pulse_cutover.Config.{RosterMember, Coordination}
use pulse_cutover.Fleet.Marks.{FleetMemory}
use pulse_cutover.Examples.Tree.{Tree, flag, num, str, arr, obj, Fields, stop, field, to_items}

infixr 30 ◌:=◌
abbrev pub ◌:=◌ : String → Tree → String × Tree
k := v = (k, v)

abbrev pub fields_of : List (String × Tree) → Fields
fields_of [] = stop
fields_of (e ∷ es) = field e.0 e.1 (fields_of es)

abbrev pub object : List (String × Tree) → Tree
object es = obj (fields_of es)

abbrev pub list : List Tree → Tree
list vs = arr (to_items vs)

abbrev pub member : String → RosterMember
member name = record { producer = name; instance_id = none }

abbrev pub fleet : Coordination
fleet = record {
  network = "testnet";
  fleet_quorum = 2;
  event_id = some "ev1";
  roster = member "alpha" ∷ member "beta" ∷ member "gamma" ∷ [];
  report_max_age_secs = 45;
}

abbrev pub me : String × String
me = ("alpha", "i-alpha")

-- A report of an agent in a state of the ceremony, with more entries for its ceremony.
abbrev pub report_with : String → String → List (String × Tree) → List (String × Tree) → Tree
report_with instance_id state ceremony evidence = object (
    ("instance_id" := str instance_id)
    ∷ ("coord" := object (("event_id" := str "ev1") ∷ []))
    ∷ ("ceremony"
        := object (
            ("state" := str state)
            ∷ ("evidence"
                := object (
                    ("h" := num 1000)
                    ∷ ("agent_version" := str "0.5.0-rc.33")
                    ∷ ("early_abort" := flag true)
                    ∷ evidence))
            ∷ ceremony))
    ∷ [])

abbrev pub report : String → String → Tree
report instance_id state =
    report_with instance_id state
      (("transitions" := list (object (("state" := str state) ∷ []) ∷ [])) ∷ []) []

abbrev pub beacon : ℕ → Tree → Tree
beacon age r = object (("report" := r) ∷ ("age_ms" := num age) ∷ ("conflict" := flag false) ∷ [])

abbrev pub entry : String → Tree → List (String × Tree) → Tree
entry name r more = object (("name" := str name) ∷ ("beacons" := list (beacon 1000 r ∷ [])) ∷ more)

-- The marks state of the network, by which the relay's exit marks can be trusted.
abbrev pub marks : Tree
marks = object (
    ("event_id" := str "ev1")
    ∷ ("complete" := flag true)
    ∷ ("state_id" := str "m1")
    ∷ ("generation" := num 7)
    ∷ [])

abbrev pub status_of : List Tree → Tree
status_of producers = object (
    ("networks"
      := list (
          object (
            ("id" := str "testnet")
            ∷ ("marks_state" := marks)
            ∷ ("producers" := list producers)
            ∷ [])
          ∷ []))
    ∷ [])

abbrev pub memory : FleetMemory
memory = record { verified_peers = []; relay_state = some ("m1", 5); relay_regressed = false }

-- All three agents froze, and two of them aborted.
abbrev pub aborted : Tree
aborted = status_of (
    entry "alpha" (report "i-alpha" "FROZEN") []
    ∷ entry "beta" (report "i-beta" "ABORTED") []
    ∷ entry "gamma" (report "i-gamma" "ABORTED") []
    ∷ [])

-- The high-water mark of one producer for the event.
abbrev pub mark : List (String × Tree) → List (String × Tree)
mark facts = ("event_max" := object (("event_id" := str "ev1") ∷ facts)) ∷ []

abbrev pub live_mark : Tree
live_mark =
    object (("event_id" := str "ev1") ∷ ("past_create" := flag true) ∷ ("state" := str "LIVE") ∷ [])

abbrev pub beta_marked : Tree
beta_marked = entry "beta" (report "i-beta" "ABORTED") (("event_max" := live_mark) ∷ [])

-- One member aborted, but its mark says that it was LIVE.
abbrev pub was_live : Tree
was_live = status_of (
    entry "alpha" (report "i-alpha" "FROZEN") []
    ∷ beta_marked
    ∷ entry "gamma" (report "i-gamma" "ABORTED") []
    ∷ [])

abbrev exit_facts : List (String × Tree)
exit_facts = mark (
    ("exited" := object (("state" := str "ABORTED") ∷ []))
    ∷ ("reentered" := flag false)
    ∷ ("verified_seen" := flag false)
    ∷ ("rank" := num 3)
    ∷ [])

-- Two of three members left the event for good, by the relay's exit marks.
abbrev pub two_out : Tree
two_out = status_of (
    entry "alpha" (report "i-alpha" "ARMED") []
    ∷ entry "beta" (report "i-beta" "ABORTED") exit_facts
    ∷ entry "gamma" (report "i-gamma" "ABORTED") exit_facts
    ∷ [])

abbrev target : String → List (String × Tree)
target first_block =
    ("target"
      := object (
          ("after_cut_id" := str first_block)
          ∷ ("blockchain_id" := str "B1")
          ∷ ("subnet_id" := str "S1")
          ∷ ("head" := num 1010)
          ∷ []))
    ∷ []

-- Two agents are LIVE on one target chain, one on another.
abbrev pub live : Tree
live = status_of (
    entry "alpha" (report_with "i-alpha" "LIVE" (target "0a") []) []
    ∷ entry "beta" (report_with "i-beta" "LIVE" (target "0A") []) []
    ∷ entry "gamma" (report_with "i-gamma" "LIVE" (target "0b") []) []
    ∷ [])

abbrev pub own_evidence : Tree
own_evidence = object (("snapshot_sha256" := str "5a") ∷ ("fingerprints_digest" := str "f1") ∷ [])

abbrev live_with_evidence : String → String → Tree
live_with_evidence instance_id first_block =
    report_with instance_id "LIVE" (target first_block)
      (("snapshot_sha256" := str "5a") ∷ ("fingerprints_digest" := str "f1") ∷ [])

-- Two agents are LIVE on one target chain, with equal evidence.
abbrev pub joinable : Tree
joinable = status_of (
    entry "beta" (live_with_evidence "i-beta" "0a") []
    ∷ entry "gamma" (live_with_evidence "i-gamma" "0A") []
    ∷ [])
