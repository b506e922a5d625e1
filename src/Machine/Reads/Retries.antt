-- ===== src/Machine/Reads/Retries.antt =====
-- src/machine.rs: a retried source RPC ends within its bound, so its fuel is enough.
use pulse_cutover.Prelude.{
  ℕ, zero, suc, ◌+◌, ◌-◌, ◌*◌, ◌/◌, ◌≤◌, min, max, String, true, ◌≡◌, refl, arith, leb, Bool-cases,
  inl, inr, if◌then◌else◌,
}
use pulse_cutover.Json.{Json}
use pulse_cutover.Machine.Exec.{Result, ok, err, pure, raise, lift, attempt, ◌>>=◌, ◌>>◌, on_result}
use pulse_cutover.Machine.Exec.Along.{Along, along_rules}
use pulse_cutover.Machine.Host.{Host}
use pulse_cutover.Machine.Core.{Machine, Action, now_ms, sleep_ms, evidence}
use pulse_cutover.Machine.Reads.{
  retry_call, tries_within, stop_point, recovered_record, transient_rpc_error,
}
use pulse_cutover.Machine.Reads.Enough.{ClockLaws, Later, Later-Preorder, evidence-Later, filled}

module _ ⦃J : Json⦄ ⦃H : Host⦄ where
  module _ (laws : ClockLaws) {A : Type 0} (f : Action A) (f-Later : Along Later f) (what : String)
      (start bound : ℕ) where
    -- The two amounts of fuel agree wherever the bound is reached in time.
    abbrev Agree : ℕ → ℕ → Type 0
    Agree g n =
        (backoff attempts : ℕ) (last : String) (m : Machine)
        → 100 ≤ backoff
        → start + bound ≤ H.now_ms m.world + n * 100
        → retry_call (suc g) what f start bound backoff attempts last m
          ≡ retry_call (suc n) what f start bound backoff attempts last m

    stop_point-Later : Along Later stop_point
    unfolding stop_point
    stop_point-Later = search (along_rules, evidence-Later, laws) depth 30

    abbrev answered : ℕ → ℕ → ℕ → Result A → Action A
    answered fuel backoff attempts r =
        on_result r
          (λ v. do
            later ← now_ms
            evidence (recovered_record what (attempts + 1) (later - start))
            pure v)
          (λ e.
            if transient_rpc_error e
            then retry_call fuel what f start bound (min (backoff * 2) 5000) (attempts + 1) e
            else raise e)

    answered_same :
        (g n backoff attempts : ℕ) (r : Result A) (s : Machine)
        → Agree g n
        → 100 ≤ backoff
        → start + bound ≤ H.now_ms s.world + n * 100
        → answered (suc g) backoff attempts r s ≡ answered (suc n) backoff attempts r s
    unfolding on_result
    answered_same g n backoff attempts (ok v) s same b h = refl
    answered_same g n backoff attempts (err e) s same b h =
        elim (Bool-cases (transient_rpc_error e)) [
          | inl again ↦
              rw again (same (min (backoff * 2) 5000) (attempts + 1) e s (ground (arith, b)) h)
          | inr final ↦ rw final refl
        ]

    slept :
        (g n backoff attempts : ℕ) (r : Result Unit) (s : Machine)
        → Agree g n
        → 100 ≤ backoff
        → start + bound ≤ H.now_ms s.world + suc n * 100
        → (lift r >> (sleep_ms backoff >> (attempt f >>= answered (suc g) backoff attempts))) s
          ≡ (lift r >> (sleep_ms backoff >> (attempt f >>= answered (suc n) backoff attempts))) s
    unfolding ◌>>=◌ sleep_ms
    slept g n backoff attempts (err e) s same b h = refl
    slept g n backoff attempts (ok done) s same b h =
        let s' = record s { world = H.sleep_ms backoff s.world } in
        let (r, t) = f s' in
        answered_same g n backoff attempts r t same b
          (omega (arith, b, h, laws.sleeps backoff s.world, f-Later.at s'))

    -- With rounds left that fill the bound, more fuel changes nothing.
    retry_call_enough : (n g : ℕ) → n ≤ g → Agree g n
    unfolding retry_call ◌>>=◌ now_ms
    retry_call_enough zero g l backoff attempts last m b h =
        let over : leb bound (H.now_ms m.world - start) ≡ true = ground (arith, h) in rw over refl
    retry_call_enough (suc n) zero l backoff attempts last m b h = absurd (omega (arith, l))
    retry_call_enough (suc n) (suc g) l backoff attempts last m b h =
        elim (Bool-cases (leb bound (H.now_ms m.world - start))) [
          | inl over ↦ rw over refl
          | inr left ↦
              let (r, s) = stop_point m in
              rw left (
                slept g n backoff attempts r s (retry_call_enough n g (omega (arith, l))) b
                  (omega (arith, h, stop_point-Later.at m)))
        ]

  pub retry_call_within :
      (laws : ClockLaws) {A : Type 0} (f : Action A) (f-Later : Along Later f) (what : String)
      (bound poll attempts fuel : ℕ) (last : String) (m : Machine)
      → tries_within bound ≤ fuel
      → retry_call fuel what f (H.now_ms m.world) bound (max poll 100) attempts last m
        ≡ retry_call
            (tries_within bound)
            what
            f
            (H.now_ms m.world)
            bound
            (max poll 100)
            attempts
            last
            m
  unfolding tries_within
  retry_call_within laws f later what bound poll attempts zero last m h = absurd (omega (arith, h))
  retry_call_within laws f later what bound poll attempts (suc g) last m h =
      retry_call_enough laws f later what (H.now_ms m.world) bound (bound / 100 + 1) g
        (omega (arith, h)) (max poll 100) attempts last m (ground arith)
        (omega (arith, filled laws bound 100 (omega arith)))
