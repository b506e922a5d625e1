-- ===== src/Machine/Core.antt =====
-- src/machine.rs: the fields of `Machine` that the freeze, the pause and the rollback read and write, and
-- its calls of the host. `trace` is not in the source: what this run did, the latest first.
use pulse_cutover.Prelude.{
  ℕ, ◌+◌, ◌-◌, String, Bool, true, false, Option, List, [], ◌∷◌, ◌++◌, filter, length,
}
use pulse_cutover.Json.{Json}
use pulse_cutover.State.{State}
use pulse_cutover.Fleet.Marks.{FleetMemory}
use pulse_cutover.Journal.Episodes.{PauseEvent, Episodes, pause, pause_episodes}
use pulse_cutover.Machine.Exec.{Exec, Result, ok, err, gets, modify, ◌>>=◌, ◌>>◌}
use pulse_cutover.Machine.Host.{
  Host, Mode, producer, api, Record, Line, evidence_line, error_line, transition_line, Effect,
  wrote, unwritten, saw_producer, remembered,
}

-- `Vec::push`.
abbrev pub push : {A : Type 0} → A → List A → List A
push a xs = xs ++ (a ∷ [])

-- `flat_map` into vectors.
unfoldable pub concat_map : {A B : Type 0} → (A → List B) → List A → List B
concat_map f [] = []
concat_map f (x ∷ xs) = f x ++ concat_map f xs

module _ ⦃J : Json⦄ ⦃H : Host⦄ where
  open J use {Value, text, flag, number, object}
  open H use {World, cfg}

  pub record Machine : Type 0 where
    pub state : State
    pub resumed : Bool
    pub resolved_h : Option ℕ
    pub frozen_ts_ms : Option ℕ
    pub flip_ran : Bool
    pub hyperion_flip_ran : Bool
    pub source_stopped : Bool
    pub early_abort_armed : Option Bool
    pub reached_ignited : Bool
    pub staged_sha256 : Option String
    pub unhalted : Bool
    pub aborted_rollback_complete : Bool
    pub rollback_steps_done : List String
    pub rollback_pending : Bool
    pub create_chain_started : Bool
    pub joining : Bool
    pub head_at_pause : Option ℕ
    pub armed_shadow : Option Value
    pub paused_by_us : Bool
    pub pause_adopted : Bool
    pub strand_intent : Bool
    pub adopted_released : Bool
    pub writes_closed_by_us : Bool
    pub admission_lock : Option (List String)
    pub admission_lock_applied : Bool
    pub admission_lock_losses : List Record
    pub rpc_retry_streaks : ℕ
    pub unpaused_seen : ℕ
    pub tick_deadline : Option ℕ
    pub pause_events : List PauseEvent
    pub legacy_paused : Bool
    pub legacy_froze : Bool
    pub legacy_takeover_pending : Bool
    pub ever_paused_by_us : Bool
    pub acks_tracked : Bool
    pub pause_unknown : Bool
    pub observed_paused : Option Bool
    pub shadow_refused : Bool
    pub shadow_proven : Bool
    pub exit_marks_seen : Option (List String)
    pub fleet_mem : Option FleetMemory
    pub fleet_mem_state_journaled_ms : ℕ
    pub world : World
    pub trace : List Effect

  abbrev pub Action : Type 0 → Type 0
  Action A = Exec Machine A

  -- A call whose answer the trace keeps, and one whose answer it does not.
  unfoldable pub call : {A : Type 0} → (World → Result A × World) → (Result A → Effect) → Action A
  call f mark m = let (r, w) = f m.world in (r, record m { world = w; trace = mark r ∷ m.trace })

  unfoldable pub ask : {A : Type 0} → (World → Result A × World) → Action A
  ask f m = let (r, w) = f m.world in (r, record m { world = w })

  unfoldable pub now_ms : Action ℕ
  now_ms m = (ok (H.now_ms m.world), m)

  unfoldable pub sleep_ms : ℕ → Action Unit
  sleep_ms ms m = (ok tt, record m { world = H.sleep_ms ms m.world })

  abbrev pub mark_line : Line → Result Unit → Effect
  mark_line l (ok done) = wrote l
  mark_line l (err e) = unwritten l

  unfoldable pub append : Line → Action Unit
  append l = call (H.append l) (mark_line l)

  -- `self.journal.evidence(self.state, ..)?` and its like.
  unfoldable pub evidence : Record → Action Unit
  evidence r = do st ← gets (λ m. m.state); append (evidence_line st r)

  unfoldable pub evidence_in : State → Record → Action Unit
  evidence_in st r = append (evidence_line st r)

  unfoldable pub error : String → Value → Action Unit
  error reason detail = do st ← gets (λ m. m.state); append (error_line st reason detail)

  -- `self.state = st; self.journal.transition(st, ..)?`.
  unfoldable pub enter : State → Record → Action Unit
  enter st r = do modify (λ m. record m { state = st }); append (transition_line st r)

  unfoldable pub producer_paused : Action Bool
  producer_paused = call H.producer_paused saw_producer

  abbrev is_pause : PauseEvent → Bool
  is_pause (pause ours) = true
  is_pause _ = false

  abbrev pub is_producer : Mode → Bool
  is_producer producer = true
  is_producer api = false

  abbrev pub one_if : Bool → ℕ
  one_if true = 1
  one_if false = 0

  unfoldable pub next_episode : Machine → ℕ
  next_episode m = length (filter m.pause_events is_pause) + one_if m.legacy_paused + 1

  unfoldable pub current_episode : Machine → ℕ
  current_episode m = next_episode m - 1

  abbrev pub take_ownership : Episodes → Machine → Machine
  take_ownership eps m = record m {
    paused_by_us = eps.is_ours;
    pause_adopted = eps.is_external;
    ever_paused_by_us = eps.ever_ours;
    pause_unknown = eps.is_unknown;
  }

  unfoldable pub push_event : PauseEvent → Machine → Machine
  push_event e m =
      let events = m.pause_events ++ (e ∷ []) in
      take_ownership (pause_episodes events m.legacy_paused m.acks_tracked)
        (record m { pause_events = events; trace = remembered e ∷ m.trace })

  unfoldable pub push_pause_event : PauseEvent → Action Unit
  push_pause_event e = modify (push_event e)
