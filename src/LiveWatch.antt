-- ===== src/LiveWatch.antt =====
-- src/live_watch.rs, `judge`: has the target produced a block within the idle limit? The text of the
-- verdict is not modelled but for which text it is.
pub mod Idle
pub mod Observe
use pulse_cutover.Prelude.{
  ℕ, ◌+◌, ◌-◌, ◌*◌, ◌/◌, ◌%◌, String, Bool, true, false, not, Option, none, some, if◌then◌else◌,
  ltb, leb, is_some_and, is_none_or, unwrap_or, max, u64_mod, mul_u64,
}

pub record TargetHead : Type 0 where
  pub head : ℕ
  pub head_block_ms : Option ℕ
  pub chain_id : Option String

abbrev pub future_skew_ms : ℕ
future_skew_ms = 5000

-- The texts of the verdict, with the seconds that they name.
pub data Detail : Type 0 where
  not_answering : ℕ → Detail
  idle_since_live : ℕ → ℕ → Detail
  idle_since_block : ℕ → ℕ → ℕ → Detail
  no_block_yet : ℕ → ℕ → Bool → Detail
  producing : ℕ → ℕ → Bool → Detail

-- `Option::filter` and the `Ord` of options, in which `None` is least.
abbrev pub keep_if : Bool → Option ℕ → Option ℕ
keep_if true o = o
keep_if false o = none

abbrev pub max_option : Option ℕ → Option ℕ → Option ℕ
max_option none o = o
max_option (some a) none = some a
max_option (some a) (some b) = some (max a b)

-- A head block time in the future cannot vouch for recent production.
abbrev pub in_future : ℕ → TargetHead → Bool
in_future now_ms t = is_some_and t.head_block_ms (λ b. ltb ((now_ms + future_skew_ms) % u64_mod) b)

abbrev pub last_block : ℕ → TargetHead → Option ℕ → Option ℕ
last_block now_ms t last_progress_ms =
    max_option (keep_if (not (in_future now_ms t)) t.head_block_ms) last_progress_ms

unfoldable pub judge : ℕ → ℕ → Option TargetHead → Option ℕ → ℕ → Bool × Detail
judge now_ms live_ts_ms none last_progress_ms max_idle_secs =
    (false, not_answering ((now_ms - live_ts_ms) / 1000))
judge now_ms live_ts_ms (some t) last_progress_ms max_idle_secs =
    let future = in_future now_ms t in
    let last = last_block now_ms t last_progress_ms in
    let quiet_since_live = is_none_or last (λ b. leb b live_ts_ms) in
    let idle = now_ms - unwrap_or (keep_if (not quiet_since_live) last) live_ts_ms in
    if ltb (mul_u64 max_idle_secs 1000) idle
    then (
      false,
      (if quiet_since_live
          then idle_since_live (idle / 1000) t.head
          else idle_since_block (idle / 1000) t.head ((now_ms - live_ts_ms) / 1000)),
    )
    else if quiet_since_live
    then (true, no_block_yet t.head (idle / 1000) future)
    else (true, producing t.head (idle / 1000) future)
