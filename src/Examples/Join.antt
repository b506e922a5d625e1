-- ===== src/Examples/Join.antt =====
-- src/fleet.rs, `join_view` on a concrete fleet.
use pulse_cutover.Fleet.Resume.{quorum_of}
use pulse_cutover.Fleet.Groups.{
  entry_update, gather, gather_one, insert_sorted, unique_best, update,
}
use pulse_cutover.Fleet.Members.{members}
use pulse_cutover.Fleet.Reports.{producers}
use pulse_cutover.Prelude.Text.{to_ascii_lowercase}
use pulse_cutover.Prelude.{◌≡◌, refl, String, some, [], ◌∷◌}
use pulse_cutover.Fleet.Result.{ok}
use pulse_cutover.Fleet.Live.{join_view, join_groups, join_member, judge_join, mismatches_of}
use pulse_cutover.Fleet.Live.Join.{Tracked, join_view-Tracked}
use pulse_cutover.Examples.Tree.{tree_json, same_tree}
use pulse_cutover.Examples.Documents.{fleet, joinable, own_evidence}

may_join :
    join_view (some joinable) fleet own_evidence ≡ ok ("B1", some "S1", "beta" ∷ "gamma" ∷ [])
unfolding join_view quorum_of judge_join unique_best join_groups gather members gather_one
    join_member producers entry_update insert_sorted to_ascii_lowercase update mismatches_of
    same_tree
may_join = refl

join_view-Tracked_example :
    (first : String) × Tracked joinable fleet own_evidence ("beta" ∷ "gamma" ∷ []) ("B1", first)
join_view-Tracked_example =
    join_view-Tracked joinable fleet own_evidence "B1" (some "S1") ("beta" ∷ "gamma" ∷ []) may_join
