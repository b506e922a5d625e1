-- ===== src/LiveWatch/Observe.antt =====
-- src/live_watch.rs, `observe`: the target's identity and head against what was seen before.
pub mod Progress
use pulse_cutover.Prelude.{
  ℕ, ◌==◌, String, Bool, true, false, not, Option, none, some, and_then, map_option, or_else, ltb,
  if◌then◌else◌, is_some_and, to_ascii_lowercase,
}
use pulse_cutover.LiveWatch.{TargetHead}

pub record Seen : Type 0 where
  pub url : String
  pub max_head : ℕ
  pub moved_ms : ℕ
  pub chain_id : Option String

pub data Observed : Type 0 where
  seen : Seen → Observed
  -- The chain now served, and the one expected.
  other_chain : Option String → Option String → Observed
  backwards : ℕ → ℕ → Observed

-- `prev.filter(|p| p.url == url)`.
abbrev pub same_target : Option Seen → String → Option Seen
same_target prev url = and_then prev (λ p. if p.url == url then some p else none)

abbrev pub wanted_chain : Option Seen → Option String → Option String
wanted_chain prev journaled_chain =
    or_else (map_option to_ascii_lowercase journaled_chain) (and_then prev (λ p. p.chain_id))

abbrev pub differs : Option String → Option String → Bool
differs want got = is_some_and want (λ w. is_some_and got (λ g. not (w == g)))

-- The record of a target that serves the expected chain.
unfoldable pub advance : Option Seen → String → TargetHead → ℕ → ℕ → Option String → Observed
advance none url h now_ms live_ts_ms want = seen (record {
  url = url;
  max_head = h.head;
  moved_ms = live_ts_ms;
  chain_id = or_else want h.chain_id;
})
advance (some p) url h now_ms live_ts_ms want =
    if ltb h.head p.max_head
    then backwards h.head p.max_head
    else if ltb p.max_head h.head
    then seen (record {
      url = url;
      max_head = h.head;
      moved_ms = now_ms;
      chain_id = or_else p.chain_id h.chain_id;
    })
    else seen p

unfoldable pub observe : Option Seen → String → TargetHead → ℕ → ℕ → Option String → Observed
unfolding advance
observe prev url h now_ms live_ts_ms journaled_chain =
    let before = same_target prev url in
    let want = wanted_chain before journaled_chain in
    if differs want h.chain_id
    then other_chain h.chain_id want
    else advance before url h now_ms live_ts_ms want
