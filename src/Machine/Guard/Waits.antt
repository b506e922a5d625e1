-- ===== src/Machine/Guard/Waits.antt =====
-- src/machine.rs `wait_own_report_withdrawn`: both of its waits end, so their fuel is enough.
use pulse_cutover.Prelude.{
  ℕ, zero, String, [], ◌∷◌, suc, ◌+◌, ◌*◌, ◌/◌, ◌≤◌, ◌<◌, true, false, ◌≡◌, refl, ap, Option, arith,
  ltb, Bool-cases, inl, inr, if◌then◌else◌,
}
use Prim.Native.String.{◌++◌}
use pulse_cutover.Json.{Json}
use pulse_cutover.Machine.Exec.{Result, ok, err, lift, ◌>>=◌, ◌>>◌}
use pulse_cutover.Machine.Exec.Along.{Along}
use pulse_cutover.Machine.Host.{Host, Record}
use pulse_cutover.Machine.Core.{Machine, Action, ask, now_ms, sleep_ms, evidence}
use pulse_cutover.Machine.Guard.{
  settle, settle_ms, settle_peers, not_seen, shows_withdrawn, await_withdrawal, cycle_rounds,
  withdrawal_rounds, wait_own_report_withdrawn,
}
use pulse_cutover.Machine.Reads.Enough.{ClockLaws, Later, Later-Preorder}

module _ ⦃J : Json⦄ ⦃H : Host⦄ where
  open J use {Value, text}

  abbrev status_url : String
  status_url = H.cfg.relay_url ++ "/api/status"

  module _ (laws : ClockLaws) where
    settle_enough :
        (n g : ℕ)
        → n ≤ g
        → (until : ℕ) (m : Machine) → until ≤ H.now_ms m.world + n * 1000
        → settle (suc g) until m ≡ settle (suc n) until m
    unfolding settle ◌>>=◌ now_ms sleep_ms
    settle_enough zero g l until m h =
        let over : ltb (H.now_ms m.world) until ≡ false = ground (arith, h) in rw over refl
    settle_enough (suc n) zero l until m h = absurd (omega (arith, l))
    settle_enough (suc n) (suc g) l until m h = elim (Bool-cases (ltb (H.now_ms m.world) until)) [
      | inl early ↦
          let s = record m { world = H.sleep_ms 1000 m.world } in
          rw early (
            settle_enough n g (omega (arith, l)) until s
              (omega (arith, h, laws.sleeps 1000 m.world)))
      | inr late ↦ rw late refl
    ]

    -- The wait of a beacon cycle before the second pass of the guard.
    settle_within :
        (fuel : ℕ) (m : Machine)
        → cycle_rounds ≤ fuel
        → settle fuel (H.now_ms m.world + settle_ms) m
          ≡ settle cycle_rounds (H.now_ms m.world + settle_ms) m
    unfolding cycle_rounds
    settle_within zero m h = absurd (omega (arith, h))
    settle_within (suc g) m h =
        settle_enough (settle_ms / 1000) g (omega (arith, h)) (H.now_ms m.world + settle_ms) m
          (omega arith)

    abbrev settled : Record
    settled = ("settle_before_second_guard_ms", J.number settle_ms) ∷ []

    abbrev settle_now : ℕ → Action Unit
    settle_now cycle = do now ← now_ms; settle cycle (now + settle_ms); evidence settled

    settled_same :
        (r : Result Unit) (cycle : ℕ) (s : Machine)
        → cycle_rounds ≤ cycle
        → (lift r >> settle_now cycle) s ≡ (lift r >> settle_now cycle_rounds) s
    unfolding ◌>>=◌ now_ms
    settled_same (err e) cycle s h = refl
    settled_same (ok done) cycle s h =
        ap (λ ended. (lift ended.0 >> evidence settled) ended.1) (settle_within cycle s h)

    settle_peers_same :
        (cycle : ℕ) (m : Machine)
        → cycle_rounds ≤ cycle
        → settle_peers cycle m ≡ settle_peers cycle_rounds m
    unfolding settle_peers ◌>>=◌
    settle_peers_same cycle m h =
        let (r, s) =
          evidence (("own_report_withdrawn", J.text "the relay shows this node aborting") ∷ []) m in
        settled_same r cycle s h

    status-Later : (url : String) → Along Later (ask (H.get_json url))
    unfolding ask
    status-Later url = record { at = λ m. laws.statuses url m.world }

    abbrev Agree : ℕ → ℕ → ℕ → ℕ → Type 0
    Agree cycle deadline g n =
        (m : Machine)
        → deadline < H.now_ms m.world + n * 2000
        → await_withdrawal cycle (suc g) deadline m
          ≡ await_withdrawal cycle_rounds (suc n) deadline m

    abbrev poll_again : ℕ → ℕ → ℕ → Action Unit
    poll_again cycle fuel deadline = do
      now ← now_ms
      if ltb deadline now
          then evidence (("own_report_withdrawn", text not_seen) ∷ [])
          else sleep_ms 2000 >> await_withdrawal cycle fuel deadline

    poll_same :
        (cycle deadline g n : ℕ) (s : Machine)
        → Agree cycle deadline g n
        → deadline < H.now_ms s.world + suc n * 2000
        → poll_again cycle (suc g) deadline s ≡ poll_again cycle_rounds (suc n) deadline s
    unfolding ◌>>=◌ now_ms sleep_ms
    poll_same cycle deadline g n s same h = elim (Bool-cases (ltb deadline (H.now_ms s.world))) [
      | inl over ↦ rw over refl
      | inr left ↦ rw left (
          same (record s { world = H.sleep_ms 2000 s.world })
            (omega (arith, h, laws.sleeps 2000 s.world)))
    ]

    poll_last :
        (cycle deadline g : ℕ) (s : Machine)
        → deadline < H.now_ms s.world
        → poll_again cycle g deadline s ≡ poll_again cycle_rounds zero deadline s
    unfolding ◌>>=◌ now_ms
    poll_last cycle deadline g s h =
        let over : ltb deadline (H.now_ms s.world) ≡ true = ground (arith, h) in rw over refl

    polled_same :
        (cycle deadline g n : ℕ) (r : Result (Option Value)) (s : Machine)
        → cycle_rounds ≤ cycle
        → poll_again cycle g deadline s ≡ poll_again cycle_rounds n deadline s
        → (if shows_withdrawn r then settle_peers cycle else poll_again cycle g deadline) s
          ≡ (if shows_withdrawn r
                then settle_peers cycle_rounds
                else poll_again cycle_rounds n deadline)
              s
    polled_same cycle deadline g n r s c same = elim (Bool-cases (shows_withdrawn r)) [
      | inl shown ↦ rw shown (settle_peers_same cycle s c)
      | inr hidden ↦ rw hidden same
    ]

    await_withdrawal_enough :
        (n g cycle : ℕ) → n ≤ g → cycle_rounds ≤ cycle → (deadline : ℕ) → Agree cycle deadline g n
    unfolding await_withdrawal ◌>>=◌
    await_withdrawal_enough zero g cycle l c deadline m h =
        let (r, s) = ask (H.get_json status_url) m in
        polled_same cycle deadline g zero r s c
          (poll_last cycle deadline g s (omega (arith, h, (status-Later status_url).at m)))
    await_withdrawal_enough (suc n) zero cycle l c deadline m h = absurd (omega (arith, l))
    await_withdrawal_enough (suc n) (suc g) cycle l c deadline m h =
        let (r, s) = ask (H.get_json status_url) m in
        polled_same cycle deadline (suc g) (suc n) r s c (
          poll_same cycle deadline g n s
            (await_withdrawal_enough n g cycle (omega (arith, l)) c deadline)
            (omega (arith, h, (status-Later status_url).at m)))

    -- The wait for the withdrawal of this node's report ends once its last report is too old, and the wait
    -- of a beacon cycle after it once the cycle is over: where the clock does not go back and a sleep lasts
    -- as long as asked, more fuel than the model's, for either wait, gives the same result and state.
    pub wait_own_report_withdrawn_enough :
        (cycle fuel : ℕ) (m : Machine)
        → cycle_rounds ≤ cycle
        → withdrawal_rounds ≤ fuel
        → await_withdrawal cycle fuel (H.now_ms m.world + H.cfg.report_max_age_secs * 1000) m
          ≡ wait_own_report_withdrawn m
    unfolding wait_own_report_withdrawn withdrawal_rounds now_ms ◌>>=◌
    wait_own_report_withdrawn_enough cycle zero m c h = absurd (omega (arith, h))
    wait_own_report_withdrawn_enough cycle (suc g) m c h =
        await_withdrawal_enough (H.cfg.report_max_age_secs * 1000 / 2000 + 1) g cycle
          (omega (arith, h)) c (H.now_ms m.world + H.cfg.report_max_age_secs * 1000) m (omega arith)
