-- ===== src/LiveWatch/Idle.antt =====
-- src/live_watch.rs, `judge`, against the latest sign of progress.
use pulse_cutover.Prelude.{
  ℕ, ◌-◌, ◌≡◌, ◌∙◌, ap, Bool, true, false, not, Option, none, some, leb, ltb, if◌then◌else◌,
  is_none_or, max, mul_u64, unwrap_or, arith,
}
use pulse_cutover.LiveWatch.{TargetHead, Detail, max_option, keep_if, in_future, last_block, judge}

-- The latest sign of progress: LIVE itself, the head block's own time unless it lies in the future,
-- and the last time that the observer saw the head move.
abbrev pub progress_ms : ℕ → ℕ → TargetHead → Option ℕ → ℕ
progress_ms now_ms live_ts_ms t last_progress_ms = max live_ts_ms (
    max (unwrap_or (keep_if (not (in_future now_ms t)) t.head_block_ms) 0)
      (unwrap_or last_progress_ms 0))

test_order :
    (limit idle : ℕ) (x y z : Detail) (quiet : Bool)
    → (if◌then◌else◌ {A = Bool × Detail}
        (ltb limit idle)
        (false, x)
        (if quiet then (true, y) else (true, z))).0
      ≡ leb idle limit
test_order limit idle x y z quiet = ground arith

-- The block from which `judge` counts the idle time.
abbrev counted_from : ℕ → Option ℕ → ℕ
counted_from live_ts_ms last =
    unwrap_or (keep_if (not (is_none_or last (λ b. leb b live_ts_ms))) last) live_ts_ms

judge-last :
    (now_ms live_ts_ms : ℕ) (t : TargetHead) (last_progress_ms : Option ℕ) (max_idle_secs : ℕ)
    → (judge now_ms live_ts_ms (some t) last_progress_ms max_idle_secs).0
      ≡ leb
          (now_ms - counted_from live_ts_ms (last_block now_ms t last_progress_ms))
          (mul_u64 max_idle_secs 1000)
unfolding judge
judge-last now_ms live_ts_ms t last_progress_ms max_idle_secs =
    test_order (mul_u64 max_idle_secs 1000)
      (now_ms - counted_from live_ts_ms (last_block now_ms t last_progress_ms)) _ _ _
      (is_none_or (last_block now_ms t last_progress_ms) (λ b. leb b live_ts_ms))

last-progress :
    (live_ts_ms : ℕ) (a b : Option ℕ)
    → counted_from live_ts_ms (max_option a b)
      ≡ max live_ts_ms (max (unwrap_or a 0) (unwrap_or b 0))
last-progress live_ts_ms none none = omega arith
last-progress live_ts_ms none (some b) = ground arith
last-progress live_ts_ms (some a) none = ground arith
last-progress live_ts_ms (some a) (some b) = ground arith

-- An answering target is healthy exactly when the latest sign of progress is within the idle limit.
pub judge-idle :
    (now_ms live_ts_ms : ℕ) (t : TargetHead) (last_progress_ms : Option ℕ) (max_idle_secs : ℕ)
    → (judge now_ms live_ts_ms (some t) last_progress_ms max_idle_secs).0
      ≡ leb (now_ms - progress_ms now_ms live_ts_ms t last_progress_ms) (mul_u64 max_idle_secs 1000)
judge-idle now_ms live_ts_ms t last_progress_ms max_idle_secs =
    judge-last now_ms live_ts_ms t last_progress_ms max_idle_secs
    ∙ ap (λ p. leb (now_ms - p) (mul_u64 max_idle_secs 1000))
        (last-progress live_ts_ms (keep_if (not (in_future now_ms t)) t.head_block_ms)
          last_progress_ms)
