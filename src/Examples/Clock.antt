-- ===== src/Examples/Clock.antt =====
-- src/machine.rs, the retried read of a producer that answers late.
use pulse_cutover.Prelude.{
  ℕ, ◌+◌, ◌*◌, ◌≤◌, ◌≡◌, refl, Bool, false, none, some, leb, arith, Bool-cases, inl, inr,
}
use pulse_cutover.Machine.Exec.{ok}
use pulse_cutover.Machine.Exec.Fails.{failed}
use pulse_cutover.Machine.Host.{Host}
use pulse_cutover.Machine.Core.{Machine}
use pulse_cutover.Machine.Reads.{retry_read, read_paused_retrying, reads_within}
use pulse_cutover.Machine.Reads.Shown.{last_answer}
use pulse_cutover.Machine.Reads.Answers.{AnswersFrom, read_paused_retrying_returns}
use pulse_cutover.Machine.Reads.Bounds.{LastsAtMost, read_paused_retrying_ends}
use pulse_cutover.Machine.Reads.Enough.{ClockLaws}
use pulse_cutover.Examples.Desk.{Desk, desk_host, paused_desk, frozen_machine, answered}
use pulse_cutover.Examples.Tree.{tree_json}

-- A producer that answers from the fifth second on, each read within 20 ms.
instance abbrev late_host : Host
late_host = record desk_host {
  producer_paused = λ w. (answered (leb 5000 w.clock) w.held, record w { clock = w.clock + 20 });
}

late-ClockLaws : ClockLaws ⦃H = late_host⦄
late-ClockLaws = record {
  reads = λ w. omega arith;
  statuses = λ url w. omega arith;
  writes = λ l w. omega arith;
  sleeps = λ ms w. omega arith;
}

answers_late : (n : ℕ) (b : Bool) → 5000 ≤ n → failed (answered (leb 5000 n) b) ≡ false
answers_late n b h = elim (Bool-cases (leb 5000 n)) [
  | inl k ↦ rw k refl
  | inr k ↦ absurd (ground (arith, h, k))
]

late-AnswersFrom : AnswersFrom ⦃H = late_host⦄ 5000 20
late-AnswersFrom = record {
  answers = λ w h. answers_late w.clock w.held h;
  lasts = λ w. omega arith;
  journals = λ l w. refl;
}

abbrev late_machine : Machine ⦃H = late_host⦄
late_machine = frozen_machine ⦃H = late_host⦄ paused_desk

read_paused_retrying_returns_example :
    (b : Bool) × ((read_paused_retrying ⦃H = late_host⦄ 30_000 "test" late_machine).0 ≡ ok b)
    × (last_answer (read_paused_retrying ⦃H = late_host⦄ 30_000 "test" late_machine).1.trace
        ≡ some (ok b))
read_paused_retrying_returns_example =
    read_paused_retrying_returns ⦃H = late_host⦄ late-ClockLaws late-AnswersFrom 30_000 "test"
      late_machine (omega arith)

late-LastsAtMost : LastsAtMost ⦃H = late_host⦄ 20
late-LastsAtMost = record {
  reads = λ w. omega arith;
  writes = λ l w. omega arith;
  sleeps = λ ms w. omega arith;
}

read_paused_retrying_ends_example :
    (retry_read ⦃H = late_host⦄ 100_000 1000 30_000 "test" 0 none late_machine
      ≡ read_paused_retrying ⦃H = late_host⦄ 30_000 "test" late_machine)
    × (Desk.clock (read_paused_retrying ⦃H = late_host⦄ 30_000 "test" late_machine).1.world
        ≤ 1000 + 30_000 + 500 + 5 * 20)
unfolding reads_within
read_paused_retrying_ends_example =
    read_paused_retrying_ends ⦃H = late_host⦄ late-ClockLaws late-LastsAtMost 30_000 100_000 "test"
      late_machine (omega arith)
