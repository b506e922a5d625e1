-- ===== src/Machine/Halt.antt =====
-- src/machine.rs: the sealed stop past the point of no return, and the gates of a shadow ceremony before
-- every change of the source.
use pulse_cutover.Prelude.{
  String, Bool, true, false, not, ◌||◌, List, [], ◌∷◌, map, is_empty, if◌then◌else◌, is_some_and,
}
use Prim.Native.String.{◌++◌}
use pulse_cutover.Json.{Json}
use pulse_cutover.State.{State, ignited, flipped, live, aborted, halted, as_str}
use pulse_cutover.Machine.Exec.{
  Result, ok, err, pure, raise, gets, modify, attempt, ◌>>=◌, ◌>>◌, when, on_option,
}
use pulse_cutover.Machine.Host.{Host, paged, ran}
use pulse_cutover.Machine.Core.{Machine, Action, call, ask, evidence, evidence_in, error, enter}

abbrev pub is_aborted : State → Bool
is_aborted aborted = true
is_aborted _ = false

-- `matches!(state, Ignited | Flipped | Live | Halted)`.
abbrev pub past_ignition : State → Bool
past_ignition ignited = true
past_ignition flipped = true
past_ignition live = true
past_ignition halted = true
past_ignition _ = false

module _ ⦃J : Json⦄ ⦃H : Host⦄ where
  open J use {Value, text, flag, object, array, is_null}
  open H use {cfg}

  unfoldable pub past_point_of_no_return : Machine → Bool
  past_point_of_no_return m = m.reached_ignited || (m.create_chain_started || past_ignition m.state)

  -- The hook's result as the journal has it, `format!("{result:?}")`.
  abbrev pub hook_result : Result String → Value
  hook_result (ok o) = text ("Ok(" ++ o ++ ")")
  hook_result (err e) = text ("Err(" ++ e ++ ")")

  -- `on_halt` only pages a human: its result is journaled and not used.
  unfoldable pub page : State → Action Unit
  page st = on_option cfg.on_halt (pure tt) λ hook. do
    result ← attempt (call (H.run_hook hook) (paged hook))
    evidence_in st (("on_halt_hook", hook_result result) ∷ [])

  unfoldable pub halt : String → Value → Action Unit
  halt reason detail = do
    from ← gets (λ m. m.state)
    enter halted (
        ("halted_from", text (as_str from))
        ∷ ("reason", text reason)
        ∷ ("message", text ("HALTED: " ++ reason))
        ∷ ("detail", detail)
        ∷ ("sealed", flag true)
        ∷ ("source_resumed", flag false)
        ∷ ("public_routing_reverted", flag false)
        ∷ ("writes_reopened", flag false)
        ∷ [])
    page halted
    raise ("HALTED at " ++ as_str from ++ ": " ++ reason)

  unfoldable pub is_shadow_journal : Machine → Bool
  is_shadow_journal m = cfg.is_shadow || is_some_and m.armed_shadow (λ v. not (is_null v))

  unfoldable pub finish_shadow_refusal : String → Action Unit
  finish_shadow_refusal reason = do
    past ← gets past_point_of_no_return
    if past then pure tt else do
      from ← gets (λ m. m.state)
      when (not (is_aborted from)) (
          enter aborted (
            ("reason", text reason)
            ∷ ("from", text (as_str from))
            ∷ ("shadow_refused", flag true)
            ∷ ("source_untouched", flag true)
            ∷ []))
      complete ← gets (λ m. m.aborted_rollback_complete)
      when (not complete) do
        evidence_in aborted (("rollback_done", flag true) ∷ ("shadow_refused", flag true) ∷ [])
        modify (λ m. record m { aborted_rollback_complete = true })
      modify (λ m. record m { rollback_pending = false })

  unfoldable pub shadow_refuse : String → Value → Action Unit
  shadow_refuse reason detail = do
    past ← gets past_point_of_no_return
    if past then halt reason detail else do
      refused ← gets (λ m. m.shadow_refused)
      when (not refused) do
        evidence (("shadow_refused", flag true) ∷ ("reason", text reason) ∷ [])
        modify (λ m. record m { shadow_refused = true })
        error reason (object (("detail", detail) ∷ ("shadow_refused", flag true) ∷ []))
      finish_shadow_refusal reason

  abbrev pub problem_list : List String → Value
  problem_list problems = object (("identity_problems", array (map text problems)) ∷ [])

  -- The identity is proven in this run, and the record says before what.
  unfoldable pub prove_shadow : String → Action Unit
  prove_shadow note = do
    modify (λ m. record m { shadow_proven = true })
    evidence (("shadow_identity", text note) ∷ [])

  unfoldable pub identity_problems : Action (List String)
  identity_problems = ask (λ w. let (ps, w') = H.identity_problems w in (ok ps, w'))

  unfoldable pub shadow_reprove_before_resume : String → Value → Action Bool
  shadow_reprove_before_resume why detail = do
    shadow ← gets is_shadow_journal
    proven ← gets (λ m. m.shadow_proven)
    if not shadow || proven then pure true else do
      problems ← identity_problems
      if is_empty problems then prove_shadow ("re-proven before " ++ why) >> pure true else do
        let found = ("identity_problems", array (map text problems)) ∷ ("detail", detail) ∷ []
        shadow_refuse (why ++ ": SHADOW identity not re-proven, so the source is NOT resumed")
            (object found)
        pure false

  abbrev not_done : String → String
  not_done what =
      "SHADOW identity refused on this journal: " ++ what
      ++ " was not done (the source was not touched)"

  abbrev not_proven : String → String
  not_proven what =
      "SHADOW identity not proven in this run, so " ++ what
      ++ " was refused (the source was not touched)"

  abbrev not_bound : String → String
  not_bound what =
      "SHADOW producer API not bound to the proven shadow node, so " ++ what
      ++ " was refused (the source was not touched)"

  unfoldable pub shadow_mutation_gate : String → Action Unit
  shadow_mutation_gate what = do
    shadow ← gets is_shadow_journal
    if not shadow then pure tt else do
      refused ← gets (λ m. m.shadow_refused)
      if refused then raise (not_done what) else do
        proven ← gets (λ m. m.shadow_proven)
        if proven then pure tt else do
          problems ← identity_problems
          if is_empty problems then prove_shadow ("proven in this run before " ++ what) else do
            shadow_refuse (not_proven what) (problem_list problems)
            raise (not_proven what)

  unfoldable pub shadow_producer_gate : String → Action Unit
  shadow_producer_gate what = do
    shadow ← gets is_shadow_journal
    if not shadow then pure tt else do
      problems ← ask (λ w. let (ps, w') = H.producer_binding_problems w in (ok ps, w'))
      if is_empty problems
          then pure tt
          else do shadow_refuse (not_bound what) (problem_list problems); raise (not_bound what)

  -- `self.hook`: every hook but the paging one.
  unfoldable pub hook : String → Action String
  hook cmd = do shadow_mutation_gate ("hook `" ++ cmd ++ "`"); call (H.run_hook cmd) (ran cmd)
