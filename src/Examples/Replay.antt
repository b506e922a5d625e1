-- ===== src/Examples/Replay.antt =====
-- src/state.rs, and src/journal.rs, `Journal::replay`, on a concrete journal.
use pulse_cutover.Journal.Replay.Effects.{refuses_shadow, sealed_error}
use pulse_cutover.Prelude.{◌≡◌, ◌↔◌, refl, inl, inr, String, true, false, some, List, [], ◌∷◌}
use pulse_cutover.State.{frozen, as_str, from_str, from_str-as_str}
use pulse_cutover.Journal.Replay.{
  Replayed, read, refused, default_recovered, Entry, Line, blank, torn, entry, Recovered,
}
use pulse_cutover.Journal.Replay.Lines.{replay, apply}
use pulse_cutover.Journal.Replay.Kept.{replay-reached_ignited, replay-shadow_refused}
use pulse_cutover.Journal.Replay.Readable.{is_read, Readable, replay-Readable}
use pulse_cutover.Examples.Tree.{Tree, flag, num, str, tree_json}
use pulse_cutover.Examples.Documents.{◌:=◌, object}

abbrev recorded : String → String → Tree → Entry
recorded kind state facts = record { ts_ms = 1; state = state; kind = kind; data_of = facts }

abbrev ignition : Entry
ignition = recorded "evidence" "VERIFIED" (object (("side_effect" := str "ignite_started") ∷ []))

abbrev shadow_refusal : Entry
shadow_refusal = recorded "error" "ARMED" (object (("shadow_refused" := flag true) ∷ []))

-- A ceremony that armed, froze and started ignition, and died in a write.
abbrev journal : List Line
journal =
    entry (
      recorded "transition" "ARMED"
        (object (("mode" := str "producer") ∷ ("resolved_h" := num 1000) ∷ [])))
    ∷ entry shadow_refusal
    ∷ blank
    ∷ entry ignition
    ∷ entry (recorded "transition" "ABORTED" (object []))
    ∷ torn
    ∷ []

abbrev replayed_of : Replayed Recovered → Recovered
replayed_of (read r) = r
replayed_of (refused e) = default_recovered

abbrev recovered : Recovered
recovered = replayed_of (replay false journal)

journal_read : replay false journal ≡ read recovered
unfolding replay apply from_str
journal_read = refl

from_str-as_str_example : (from_str "FROZEN" ≡ some frozen) ↔ ("FROZEN" ≡ as_str frozen)
from_str-as_str_example = from_str-as_str "FROZEN" frozen

replay-reached_ignited_example : recovered.reached_ignited ≡ true
unfolding sealed_error
replay-reached_ignited_example =
    replay-reached_ignited false journal recovered ignition journal_read
      (inr (inr (inr (inl refl)))) refl

replay-shadow_refused_example : recovered.shadow_refused ≡ true
unfolding refuses_shadow
replay-shadow_refused_example =
    replay-shadow_refused false journal recovered shadow_refusal journal_read (inr (inl refl)) refl

replay-Readable_example : (is_read (replay false journal) ≡ true) ↔ Readable false journal
replay-Readable_example = replay-Readable false journal
