-- ===== src/Machine/Effects/Operator.antt =====
-- src/machine.rs: what the operator's rollback does where ignition may have started and it is not forced.
use pulse_cutover.Prelude.{
  String, Bool, true, false, ◌||◌, ◌≡◌, refl, ap, sym, ◌∙◌, List, [], ◌∷◌, filter, Bool-cases, inl,
  inr,
}
use pulse_cutover.Json.{Json}
use pulse_cutover.State.{State}
use pulse_cutover.Machine.Exec.{◌>>=◌}
use pulse_cutover.Machine.Exec.Along.{Along, Kept, Kept-Preorder, Same-Preorder, along_rules}
use pulse_cutover.Machine.Host.{
  Host, Effect, wrote, unwritten, saw_producer, paused, resumed, ran, paged, saw_whitelist,
  set_whitelist, moved_aside, remembered,
}
use pulse_cutover.Machine.Core.{Machine, Action}
use pulse_cutover.Machine.Halt.{past_point_of_no_return, finish_shadow_refusal}
use pulse_cutover.Machine.Operator.{
  ensure_legacy_takeover, check_bindings, stop_orphans, rolled_back, held_pause, must_release,
  override_guard, guard_at_rest, operator_strand_message, guard_mid_ceremony, guard_operator,
}
use pulse_cutover.Machine.Operator.Undo.{already_done, rollback_unless_past, operator_rollback_opts}
use pulse_cutover.Machine.Effects.{undoes, done}
use pulse_cutover.Machine.Effects.Rules.{
  Spares, spared, still_possible, ignition_possible, spare_rules,
}
use pulse_cutover.Machine.Effects.Stopped.{finish-Spares}
use pulse_cutover.Machine.Effects.Sealed.{
  undoes-Ignores, read_paused_retrying-Spares, ensure_source_paused-Spares, strand-Spares,
  resume_guard-Spares, guard_twice-Spares,
}
use pulse_cutover.Machine.Effects.Withheld.{reopens, unstage-Spares}

-- The effects of a kind among those of a wider one.
filter-filter :
    {A : Type 0} (narrow wide : A → Bool)
    → ((x : A) → narrow x ≡ true → wide x ≡ true)
    → (xs : List A) → filter (filter xs wide) narrow ≡ filter xs narrow
filter-filter narrow wide sub [] = refl
filter-filter narrow wide sub (x ∷ xs) = elim (Bool-cases (narrow x)) [
  | inl kept ↦ rw (sub x kept, kept, filter-filter narrow wide sub xs) refl
  | inr dropped ↦ elim (Bool-cases (wide x)) [
    | inl wider ↦ rw (wider, dropped, filter-filter narrow wide sub xs) refl
    | inr none_of ↦ rw (none_of, dropped, filter-filter narrow wide sub xs) refl
  ]
]

or_more : (a b c : Bool) → a || b ≡ true → a || (b || c) ≡ true
or_more true b c h = refl
or_more false true c h = refl
or_more false false c h = cc h

module _ ⦃J : Json⦄ where
  -- A resume of the source, or a hook but the paging one.
  abbrev pub restarts : Effect → Bool
  restarts (resumed r) = true
  restarts (ran cmd r) = true
  restarts (paused r) = false
  restarts (set_whitelist l r) = false
  restarts (moved_aside to r) = false
  restarts (wrote l) = false
  restarts (unwritten l) = false
  restarts (saw_producer r) = false
  restarts (paged cmd r) = false
  restarts (saw_whitelist r) = false
  restarts (remembered e) = false

  restarts-undoes : (e : Effect) → restarts e ≡ true → undoes e ≡ true
  restarts-undoes (resumed r) h = refl
  restarts-undoes (ran cmd r) h = refl
  restarts-undoes (paused r) h = cc h
  restarts-undoes (set_whitelist l r) h = cc h
  restarts-undoes (moved_aside to r) h = refl
  restarts-undoes (wrote l) h = cc h
  restarts-undoes (unwritten l) h = cc h
  restarts-undoes (saw_producer r) h = cc h
  restarts-undoes (paged cmd r) h = cc h
  restarts-undoes (saw_whitelist r) h = cc h
  restarts-undoes (remembered e) h = cc h

  restarts-reopens : (e : Effect) → restarts e ≡ true → reopens e ≡ true
  restarts-reopens (resumed r) h = refl
  restarts-reopens (ran cmd r) h = refl
  restarts-reopens (paused r) h = refl
  restarts-reopens (set_whitelist l r) h = refl
  restarts-reopens (moved_aside to r) h = cc h
  restarts-reopens (wrote l) h = cc h
  restarts-reopens (unwritten l) h = cc h
  restarts-reopens (saw_producer r) h = cc h
  restarts-reopens (paged cmd r) h = cc h
  restarts-reopens (saw_whitelist r) h = cc h
  restarts-reopens (remembered e) h = cc h

module _ ⦃J : Json⦄ ⦃H : Host⦄ where
  takeover-Spares : (command : String) → Spares undoes (ensure_legacy_takeover command)
  unfolding ensure_legacy_takeover
  takeover-Spares command = search (spare_rules, undoes-Ignores) depth 30 fits 4000

  bindings-Spares : Spares undoes check_bindings
  unfolding check_bindings
  bindings-Spares = search spare_rules depth 30 fits 4000

  orphans-Spares : Spares undoes stop_orphans
  unfolding stop_orphans
  orphans-Spares = search (spare_rules, undoes-Ignores) depth 30 fits 4000

  held-Spares : (unknown : Bool) → Spares undoes (held_pause unknown)
  unfolding held_pause
  held-Spares unknown =
      search (spare_rules, undoes-Ignores, read_paused_retrying-Spares) depth 30 fits 4000

  release-Spares : (force_stranded : Bool) → Spares undoes (must_release force_stranded)
  unfolding must_release
  release-Spares force_stranded = search (spare_rules, held-Spares) depth 30 fits 4000

  override-Spares : Spares undoes override_guard
  unfolding override_guard
  override-Spares = search (spare_rules, undoes-Ignores) depth 30 fits 4000

  at_rest-Spares : (st : State) → Spares undoes (guard_at_rest st)
  unfolding guard_at_rest
  at_rest-Spares st =
      search (spare_rules, undoes-Ignores, resume_guard-Spares, ensure_source_paused-Spares) depth
        40 fits 4000

  message-Spares : (why : String) → Spares undoes (operator_strand_message why)
  unfolding operator_strand_message
  message-Spares why = search (spare_rules, undoes-Ignores) depth 40 fits 4000

  mid_ceremony-Spares : (st : State) → Spares undoes (guard_mid_ceremony st)
  unfolding guard_mid_ceremony
  mid_ceremony-Spares st =
      search (spare_rules, undoes-Ignores, guard_twice-Spares, strand-Spares, message-Spares) depth
        40 fits 4000

  guard-Spares : (force_stranded : Bool) → Spares undoes (guard_operator force_stranded)
  unfolding guard_operator
  guard-Spares force_stranded =
      search (spare_rules, override-Spares, at_rest-Spares, mid_ceremony-Spares) depth 40 fits 4000

  already-Spares : (notes : List String) → Spares reopens (already_done notes)
  unfolding already_done
  already-Spares notes = search (spare_rules, unstage-Spares) depth 40 fits 4000

  past_possible : (m : Machine) → ignition_possible m ≡ true → past_point_of_no_return m ≡ true
  unfolding past_point_of_no_return
  past_possible m h = or_more m.reached_ignited m.create_chain_started _ h

  module _ (before : List Effect) where
    -- Ignition may have started, and no more was resumed and no more hooks ran than before.
    abbrev Held : Machine → Type 0
    Held m = (ignition_possible m ≡ true) × (done restarts m ≡ before)

    narrowed :
        {A : Type 0} (kind : Effect → Bool) (a : Action A)
        → ((e : Effect) → restarts e ≡ true → kind e ≡ true)
        → Spares kind a
        → Along (Kept Held) a
    narrowed kind a sub s = record {
      at = λ m h.
          let among = filter-filter restarts kind sub in
          (
            still_possible s m ∙ h.0,
            sym (among (a m).1.trace)
                ∙ (ap (λ t. filter t restarts) (spared s m) ∙ (among m.trace ∙ h.1)),
          );
    }

    sealed_by : {A : Type 0} (a : Action A) → Spares undoes a → Along (Kept Held) a
    sealed_by a s = narrowed undoes a restarts-undoes s

    refusal-Held : (reason : String) → Along (Kept Held) (finish_shadow_refusal reason)
    refusal-Held reason = sealed_by _ (finish-Spares undoes-Ignores reason)

    unless_past-Held :
        (held : Bool) (notes : List String)
        → Along (Kept Held) (rollback_unless_past false held notes)
    unfolding rollback_unless_past ◌>>=◌
    unless_past-Held held notes = record {
      at = λ m h. elim (Bool-cases (rolled_back m)) [
        | inl complete ↦
            rw complete ((narrowed reopens _ restarts-reopens (already-Spares notes)).at m h)
        | inr open_yet ↦ rw (open_yet, past_possible m h.0) h
      ];
    }

    opts-Held :
        (force_stranded : Bool) → Along (Kept Held) (operator_rollback_opts false force_stranded)
    unfolding operator_rollback_opts
    opts-Held force_stranded =
        search
          (
            along_rules, sealed_by, takeover-Spares, bindings-Spares, orphans-Spares,
            release-Spares, guard-Spares, refusal-Held, unless_past-Held,
          )
          depth 40 fits 4000

  -- Where chain creation or ignition may have started, a rollback that is not forced resumes nothing and
  -- runs no hook but the paging one, whatever the operator says of a stranded journal.
  pub operator_rollback_past :
      (force_stranded : Bool) (m : Machine)
      → ignition_possible m ≡ true
      → done restarts (operator_rollback_opts false force_stranded m).1 ≡ done restarts m
  operator_rollback_past force_stranded m h =
      ((opts-Held (done restarts m) force_stranded).at m (h, refl)).1
