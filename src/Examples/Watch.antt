-- ===== src/Examples/Watch.antt =====
-- src/journal.rs, `pause_episodes`, and src/live_watch.rs, `judge`, on concrete inputs.
use pulse_cutover.Prelude.{
  ◌-◌, ◌≡◌, ◌≤◌, refl, true, false, none, some, [], ◌∷◌, leb, mul_u64, first,
}
use pulse_cutover.Journal.Episodes.{
  verdict, pause, ack, resume, release, resume_intent, pause_episodes, change_latest, fold_event,
}
use pulse_cutover.Journal.Episodes.Stack.{stack_events, start_owners, pause_episodes-stack}
use pulse_cutover.Journal.Episodes.Ownership.{pause_episodes_ungranted, pause_episodes_after_intent}
use pulse_cutover.Prelude.Text.{to_ascii_lowercase}
use pulse_cutover.LiveWatch.{TargetHead, judge}
use pulse_cutover.LiveWatch.Observe.{Seen, seen, observe}
use pulse_cutover.LiveWatch.Observe.Progress.{ServesExpected, observe-seen}
use pulse_cutover.LiveWatch.Idle.{progress_ms, judge-idle}

pause_episodes-stack_example :
    pause_episodes (pause true ∷ ack ∷ pause false ∷ resume ∷ []) false true
    ≡ verdict
        (first
          (stack_events true (pause true ∷ ack ∷ pause false ∷ resume ∷ []) (start_owners false)))
        true
pause_episodes-stack_example =
    pause_episodes-stack (pause true ∷ ack ∷ pause false ∷ resume ∷ []) false true

pause_episodes_ungranted_example :
    (pause_episodes (pause true ∷ resume_intent ∷ release false ∷ []) false true).is_ours ≡ false
pause_episodes_ungranted_example =
    pause_episodes_ungranted (pause true ∷ resume_intent ∷ release false ∷ []) refl

ours_after_ack : (pause_episodes (pause true ∷ ack ∷ []) false true).is_ours ≡ true
unfolding pause_episodes fold_event change_latest
ours_after_ack = refl

pause_episodes_after_intent_example :
    (pause_episodes (pause true ∷ ack ∷ resume_intent ∷ ack ∷ []) false true).is_ours ≡ false
pause_episodes_after_intent_example =
    pause_episodes_after_intent (pause true ∷ ack ∷ []) (ack ∷ []) false true ours_after_ack refl

abbrev head : TargetHead
head = record { head = 1010; head_block_ms = some 70000; chain_id = some "ab" }

judge-idle_example :
    (judge 100000 60000 (some head) (some 80000) 30).0
    ≡ leb (100000 - progress_ms 100000 60000 head (some 80000)) (mul_u64 30 1000)
judge-idle_example = judge-idle 100000 60000 head (some 80000) 30

abbrev before : Seen
before = record { url = "http://t"; max_head = 1000; moved_ms = 5; chain_id = none }

abbrev after : Seen
after = record { url = "http://t"; max_head = 1010; moved_ms = 100000; chain_id = some "ab" }

head_rose : observe (some before) "http://t" head 100000 60000 (some "AB") ≡ seen after
unfolding observe to_ascii_lowercase
head_rose = refl

observe-seen_example :
    ServesExpected (some "AB") before.chain_id head.chain_id
    × (after.max_head ≡ head.head)
    × (before.max_head ≤ after.max_head)
    × (before.max_head ≡ head.head → after ≡ before)
observe-seen_example =
    observe-seen before "http://t" head 100000 60000 (some "AB") after refl head_rose
