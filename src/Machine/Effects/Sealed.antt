-- ===== src/Machine/Effects/Sealed.antt =====
-- src/machine.rs: a strand pauses and locks, and undoes nothing.
use pulse_cutover.Prelude.{ℕ, zero, suc, String, Bool, refl, List, Option, none, some}
use pulse_cutover.Json.{Json}
use pulse_cutover.Machine.Exec.Along.{Same-Preorder}
use pulse_cutover.Machine.Host.{Host, Effect, Record, paused, saw_whitelist, set_whitelist}
use pulse_cutover.Machine.Core.{Action, call}
use pulse_cutover.Machine.Reads.{
  read_paused, retry_read, read_paused_retrying, stop_point, retry_call, src_retry, with_tick,
}
use pulse_cutover.Machine.Pause.{adopt_external_pause, acknowledge_pause, call_pause, src_pause}
use pulse_cutover.Machine.Admission.{actor_whitelist, set_actor_whitelist}
use pulse_cutover.Machine.Admission.Recheck.{
  reapply_lock, note_loss, head_or, lose_lock, check_admission_lock_tick, check_admission_lock,
}
use pulse_cutover.Machine.Strand.{relock_stranded, ensure_source_paused, observe_paused, strand}
use pulse_cutover.Machine.Guard.{
  resume_guard, settle, settle_peers, await_withdrawal, wait_own_report_withdrawn,
}
use pulse_cutover.Machine.Abort.{request_rollback, withdraw_report, ask_again, guard_twice}
use pulse_cutover.Machine.Effects.{undoes}
use pulse_cutover.Machine.Effects.Rules.{Ignores, Spares, spare_rules, call-Spares}
use pulse_cutover.Machine.Effects.Views.{
  fleet_status-Spares, is_abort_signed-Spares, view_memory-Spares,
}
use pulse_cutover.Machine.Effects.Stopped.{gate-Spares, producer_gate-Spares, page-Spares}

module _ ⦃J : Json⦄ where
  pub undoes-Ignores : Ignores undoes
  undoes-Ignores = record {
    wrote_line = λ l. refl;
    unwritten_line = λ l. refl;
    read_producer = λ r. refl;
    read_whitelist = λ r. refl;
    page_human = λ cmd r. refl;
    recall = λ e. refl;
  }

module _ ⦃J : Json⦄ ⦃H : Host⦄ where
  open J use {Value}

  module _ {kind : Effect → Bool} (ignores : Ignores kind) where
    pub read_paused-Spares : Spares kind read_paused
    unfolding read_paused
    read_paused-Spares = search spare_rules depth 30 fits 4000

    retry_read-Spares :
        (fuel start window : ℕ) (what : String) (failures : ℕ) (last : Option ℕ)
        → Spares kind (retry_read fuel start window what failures last)
    unfolding retry_read
    retry_read-Spares zero start window what failures last = search spare_rules
    retry_read-Spares (suc fuel) start window what failures last =
        search (spare_rules, read_paused-Spares, retry_read-Spares fuel) depth 30 fits 4000

    pub read_paused_retrying-Spares :
        (window : ℕ) (what : String) → Spares kind (read_paused_retrying window what)
    unfolding read_paused_retrying
    read_paused_retrying-Spares window what =
        search (spare_rules, retry_read-Spares) depth 30 fits 4000

    stop_point-Spares : Spares kind stop_point
    unfolding stop_point
    stop_point-Spares = search spare_rules depth 30 fits 4000

    module _ {A : Type 0} (f : Action A) (spares : Spares kind f) where
      retry_call-Spares :
          (fuel : ℕ) (what : String) (start bound backoff attempts : ℕ) (last : String)
          → Spares kind (retry_call fuel what f start bound backoff attempts last)
      unfolding retry_call
      retry_call-Spares zero what start bound backoff attempts last = search spare_rules
      retry_call-Spares (suc fuel) what start bound backoff attempts last =
          search (spare_rules, stop_point-Spares, retry_call-Spares fuel) depth 30 fits 4000

      pub src_retry-Spares : (what : String) → Spares kind (src_retry what f)
      unfolding src_retry
      src_retry-Spares what = search (spare_rules, retry_call-Spares) depth 30 fits 4000

      with_tick-Spares : Spares kind (with_tick f)
      unfolding with_tick
      with_tick-Spares = search spare_rules depth 30 fits 4000

    adopt-Spares : Spares kind adopt_external_pause
    unfolding adopt_external_pause
    adopt-Spares = search (spare_rules, read_paused_retrying-Spares) depth 30 fits 4000

    acknowledge-Spares : Spares kind acknowledge_pause
    unfolding acknowledge_pause
    acknowledge-Spares = search (spare_rules, read_paused_retrying-Spares) depth 30 fits 4000

    pub actor_whitelist-Spares : Spares kind actor_whitelist
    unfolding actor_whitelist
    actor_whitelist-Spares = call-Spares H.actor_whitelist saw_whitelist ignores.read_whitelist

  pause-Spares : Spares undoes (call H.pause paused)
  pause-Spares = call-Spares H.pause paused λ r. refl

  call_pause-Spares : Spares undoes call_pause
  unfolding call_pause
  call_pause-Spares =
      search (spare_rules, undoes-Ignores, src_retry-Spares, pause-Spares, acknowledge-Spares) depth
        30 fits 4000

  pub src_pause-Spares : Spares undoes src_pause
  unfolding src_pause
  src_pause-Spares =
      search
        (
          spare_rules, undoes-Ignores, gate-Spares, producer_gate-Spares, adopt-Spares,
          call_pause-Spares,
        )
        depth 30 fits 4000

  set-Spares : (l : List String) → Spares undoes (set_actor_whitelist l)
  unfolding set_actor_whitelist
  set-Spares l = call-Spares (H.set_actor_whitelist l) (set_whitelist l) λ r. refl

  reapply-Spares : Spares undoes reapply_lock
  unfolding reapply_lock
  reapply-Spares =
      search
        (
          spare_rules, undoes-Ignores, gate-Spares, producer_gate-Spares, src_retry-Spares,
          set-Spares, actor_whitelist-Spares,
        )
        depth 40 fits 4000

  note_loss-Spares : (rec : Record) (b : Bool) → Spares undoes (note_loss rec b)
  unfolding note_loss
  note_loss-Spares rec b = search (spare_rules, undoes-Ignores) depth 30 fits 4000

  head_or-Spares : (o : Option ℕ) → Spares undoes (head_or o)
  unfolding head_or
  head_or-Spares none = search spare_rules depth 30 fits 4000
  head_or-Spares (some h) = search spare_rules

  lose_lock-Spares :
      (at : String) (o : Option ℕ) (b : Bool) (v : Value) → Spares undoes (lose_lock at o b v)
  unfolding lose_lock
  lose_lock-Spares at o b v =
      search (spare_rules, head_or-Spares, note_loss-Spares, reapply-Spares) depth 40 fits 4000

  check_tick-Spares :
      (at : String) (o : Option ℕ) (b : Bool) → Spares undoes (check_admission_lock_tick at o b)
  unfolding check_admission_lock_tick
  check_tick-Spares at o b =
      search
        (spare_rules, undoes-Ignores, src_retry-Spares, actor_whitelist-Spares, lose_lock-Spares)
        depth 40 fits 4000

  check-Spares :
      (at : String) (o : Option ℕ) (b : Bool) → Spares undoes (check_admission_lock at o b)
  unfolding check_admission_lock
  check-Spares at o b = with_tick-Spares undoes-Ignores _ (check_tick-Spares at o b)

  relock-Spares : Spares undoes relock_stranded
  unfolding relock_stranded
  relock-Spares = search (spare_rules, undoes-Ignores, check-Spares) depth 30 fits 4000

  pub ensure_source_paused-Spares : Spares undoes ensure_source_paused
  unfolding ensure_source_paused
  ensure_source_paused-Spares =
      search (spare_rules, undoes-Ignores, read_paused-Spares, src_pause-Spares, relock-Spares)
        depth 40 fits 4000

  observe-Spares : Spares undoes observe_paused
  unfolding observe_paused
  observe-Spares = search (spare_rules, undoes-Ignores, read_paused-Spares) depth 30 fits 4000

  pub strand-Spares :
      (reason : String) (detail : Value) (why : String) → Spares undoes (strand reason detail why)
  unfolding strand
  strand-Spares reason detail why =
      search (spare_rules, undoes-Ignores, observe-Spares, ensure_source_paused-Spares, page-Spares)
        depth 40 fits 4000

  module _ {kind : Effect → Bool} (ignores : Ignores kind) where
    pub resume_guard-Spares : Spares kind resume_guard
    unfolding resume_guard
    resume_guard-Spares =
        search (spare_rules, fleet_status-Spares, is_abort_signed-Spares, view_memory-Spares) depth
          40 fits 4000

    settle-Spares : (fuel until : ℕ) → Spares kind (settle fuel until)
    unfolding settle
    settle-Spares zero until = search spare_rules
    settle-Spares (suc fuel) until = search (spare_rules, settle-Spares fuel) depth 30 fits 4000

    settle_peers-Spares : (cycle : ℕ) → Spares kind (settle_peers cycle)
    unfolding settle_peers
    settle_peers-Spares cycle = search (spare_rules, settle-Spares) depth 30 fits 4000

    await-Spares : (cycle fuel deadline : ℕ) → Spares kind (await_withdrawal cycle fuel deadline)
    unfolding await_withdrawal
    await-Spares cycle zero deadline = search spare_rules
    await-Spares cycle (suc fuel) deadline =
        search (spare_rules, settle_peers-Spares, await-Spares cycle fuel) depth 30 fits 4000

    wait-Spares : Spares kind wait_own_report_withdrawn
    unfolding wait_own_report_withdrawn
    wait-Spares = search (spare_rules, await-Spares) depth 30 fits 4000

    request-Spares : (r : Record) → Spares kind (request_rollback r)
    unfolding request_rollback
    request-Spares r = search spare_rules depth 30 fits 4000

    pub guard_twice-Spares : (r : Record) (reason : String) → Spares kind (guard_twice r reason)
    unfolding guard_twice ask_again withdraw_report
    guard_twice-Spares r reason =
        search (spare_rules, resume_guard-Spares, request-Spares, wait-Spares) depth 40 fits 4000
