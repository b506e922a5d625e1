-- ===== src/Examples/Foreign.antt =====
-- src/fleet.rs, `drop_foreign_ceremonies` and `annotate_evidence` on concrete documents.
use pulse_cutover.Prelude.{◌≡◌, refl, inl, some, [], ◌∷◌, In, map}
use pulse_cutover.Fleet.Reports.{past_create, producers}
use pulse_cutover.Fleet.Members.{log_evidence}
use pulse_cutover.Fleet.Foreign.{fix, drop_foreign_ceremonies, annotate_log}
use pulse_cutover.Fleet.Foreign.Safety.{past_create-fix, log_evidence-annotate_log}
use pulse_cutover.Fleet.Foreign.Document.{past_facts, producers-drop_foreign_ceremonies}
use pulse_cutover.Examples.Tree.{Tree, num, str, tree_json}
use pulse_cutover.Examples.Laws.{tree_laws}
use pulse_cutover.Examples.Documents.{◌:=◌, object, list, report, entry, status_of}

-- The reports are armed for H 1000; this node's event cuts at 2000.
abbrev foreign_live : Tree
foreign_live = report "i-beta" "LIVE"

past_create-fix_example : past_create (fix 2000 foreign_live).0 ≡ past_create foreign_live
past_create-fix_example = past_create-fix tree_laws 2000 foreign_live

abbrev observation : Tree
observation =
    object (("event_id" := str "ev1") ∷ ("h" := num 1000) ∷ ("state" := str "IGNITED") ∷ [])

abbrev evidence : Tree
evidence = object (("obs" := list (observation ∷ [])) ∷ [])

log_evidence-annotate_log_example :
    In observation (log_evidence (annotate_log (some "ev1") 2000 evidence) (some "ev1"))
unfolding log_evidence
log_evidence-annotate_log_example =
    log_evidence-annotate_log tree_laws "ev1" 2000 evidence observation refl (inl refl)

abbrev foreign_fleet : Tree
foreign_fleet = status_of (entry "beta" foreign_live [] ∷ [])

abbrev without_foreign : Tree
without_foreign = status_of (entry "beta" (fix 2000 foreign_live).0 [] ∷ [])

foreign_dropped : drop_foreign_ceremonies foreign_fleet "testnet" 2000 ≡ some (without_foreign, 1)
unfolding drop_foreign_ceremonies
foreign_dropped = refl

producers-drop_foreign_ceremonies_example :
    map past_facts (producers without_foreign "testnet")
    ≡ map past_facts (producers foreign_fleet "testnet")
producers-drop_foreign_ceremonies_example =
    producers-drop_foreign_ceremonies tree_laws 2000 foreign_fleet without_foreign "testnet" 1
      foreign_dropped
