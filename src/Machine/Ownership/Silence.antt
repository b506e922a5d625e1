-- ===== src/Machine/Ownership/Silence.antt =====
-- src/machine.rs and src/journal.rs: the records that say nothing of the pause, and those that do.
use pulse_cutover.Prelude.{
  String, Bool, true, false, ◌&&◌, not, Option, none, some, List, [], ◌∷◌, ◌++◌, ◌≡◌, refl, ◌==◌,
  is_none, and_then, and_true, not-true,
}
use pulse_cutover.Json.{Json, BuildLaws, entry}
use pulse_cutover.Fleet.Reports.{is_true}
use pulse_cutover.Journal.Episodes.{PauseEvent, pause, ack, resume, release, resume_intent}
use pulse_cutover.Journal.Replay.{Entry}
use pulse_cutover.Journal.Replay.Effects.{settled_pauses, effect_pauses, event_if}
use pulse_cutover.Machine.Host.{Record}
use pulse_cutover.Machine.Ownership.{pauses_of}

module _ ⦃J : Json⦄ (laws : BuildLaws J) where
  open J use {Value, object, text, flag}

  -- None of the keys that a replay reads for the pause events.
  unfoldable pub silent : Record → Bool
  unfolding entry
  silent r =
      is_none (entry r "source_pause_ack")
      && (is_none (entry r "resumed_production_for_snapshot")
          && (is_none (entry r "own_pause_released_externally")
              && (is_none (entry r "side_effect") && is_none (entry r "rollback_step"))))

  absent : {A : Type 0} (o : Option A) → is_none o ≡ true → o ≡ none
  absent none h = refl
  absent (some a) h = cc

  absent_at :
      (r : Record) (k : String) → is_none (entry r k) ≡ true → Json.get J (object r) k ≡ none
  absent_at r k h = rw (laws.get-object r k) (absent (entry r k) h)

  unfoldable pub unread : String → Bool
  unread k =
      not (k == "source_pause_ack")
      && (not (k == "resumed_production_for_snapshot")
          && (not (k == "own_pause_released_externally")
              && (not (k == "side_effect") && not (k == "rollback_step"))))

  still_absent :
      (r : Record) (j k : String) (v : Value)
      → is_none (entry r k) ≡ true
      → not (j == k) ≡ true
      → is_none (entry ((j, v) ∷ r) k) ≡ true
  unfolding entry
  still_absent r j k v h n = rw (absent (entry r k) h, not-true (j == k) n) refl

  pub silent_cons :
      (r : Record) (j : String) (v : Value)
      → unread j ≡ true
      → silent r ≡ true
      → silent ((j, v) ∷ r) ≡ true
  unfolding silent unread
  silent_cons r j v u h =
      let s = and_true _ _ h in
      let t = and_true _ _ s.1 in
      let w = and_true _ _ t.1 in
      let x = and_true _ _ w.1 in
      let a = and_true _ _ u in
      let b = and_true _ _ a.1 in
      let c = and_true _ _ b.1 in
      let d = and_true _ _ c.1 in
      rw
        (
          still_absent r j _ v s.0 a.0,
          still_absent r j _ v t.0 b.0,
          still_absent r j _ v w.0 c.0,
          still_absent r j _ v x.0 d.0,
          still_absent r j _ v x.1 d.1,
        )
        refl

  -- The events that a replay adds for a line with these fields.
  pub record Says (r : Record) (es : List PauseEvent) : Type 0 where
    pub read : (e : Entry) → e.data_of ≡ object r → pauses_of e ≡ es

  pub Says-silent : (r : Record) → silent r ≡ true → Says r []
  unfolding silent pauses_of settled_pauses effect_pauses
  Says-silent r h =
      let s = and_true _ _ h in
      let t = and_true _ _ s.1 in
      let u = and_true _ _ t.1 in
      let v = and_true _ _ u.1 in
      let a = absent_at r "source_pause_ack" s.0 in
      let b = absent_at r "resumed_production_for_snapshot" t.0 in
      let c = absent_at r "own_pause_released_externally" u.0 in
      let d = absent_at r "side_effect" v.0 in
      let f = absent_at r "rollback_step" v.1 in record { read = λ e p. rw (p, a, b, c, d, f) refl }

  -- None of the keys but the side effect.
  unfoldable pub only_effect : Record → Bool
  unfolding entry
  only_effect r =
      is_none (entry r "source_pause_ack")
      && (is_none (entry r "resumed_production_for_snapshot")
          && (is_none (entry r "own_pause_released_externally")
              && is_none (entry r "rollback_step")))

  pub Says-effect :
      (r : Record) (se : String) (adopted : Bool)
      → only_effect r ≡ true
      → entry r "side_effect" ≡ some (text se)
      → is_true (and_then (entry r "adopted") (Json.as_bool J)) ≡ adopted
      → Says r (
          event_if (se == "source_pause") (pause (not adopted))
          ++ (event_if (se == "external_pause_release") (release false)
              ++ event_if (se == "source_resume") resume_intent)
          ++ [])
  unfolding only_effect pauses_of settled_pauses effect_pauses
  Says-effect r se adopted h g k =
      let s = and_true _ _ h in
      let t = and_true _ _ s.1 in
      let u = and_true _ _ t.1 in
      let a = absent_at r "source_pause_ack" s.0 in
      let b = absent_at r "resumed_production_for_snapshot" t.0 in
      let c = absent_at r "own_pause_released_externally" u.0 in
      let f = absent_at r "rollback_step" u.1 in
      let d : Json.get J (object r) "side_effect" ≡ some (text se) =
        rw (laws.get-object r "side_effect") g in
      let x = laws.as_str-built se in
      record { read = λ e p. rw (p, a, b, c, d, f, x, laws.get-object r "adopted", k) refl }

  found : (r : Record) (k : String) (o : Option Value) → entry r k ≡ o → Json.get J (object r) k ≡ o
  found r k o h = rw (laws.get-object r k) h

  pub Says-ack : (v : Value) → Says (("source_pause_ack", v) ∷ []) (ack ∷ [])
  unfolding pauses_of settled_pauses effect_pauses entry
  Says-ack v =
      let r : Record = ("source_pause_ack", v) ∷ [] in
      let a = found r "source_pause_ack" (some v) refl in
      let b = found r "resumed_production_for_snapshot" none refl in
      let c = found r "own_pause_released_externally" none refl in
      let d = found r "side_effect" none refl in
      let f = found r "rollback_step" none refl in
      record { read = λ e p. rw (p, a, b, c, d, f) refl }

  pub Says-released :
      (v : Value)
      → Says (("own_pause_released_externally", flag true) ∷ ("episode", v) ∷ []) (resume ∷ [])
  unfolding pauses_of settled_pauses effect_pauses entry
  Says-released v =
      let r : Record = ("own_pause_released_externally", flag true) ∷ ("episode", v) ∷ [] in
      let a = found r "source_pause_ack" none refl in
      let b = found r "resumed_production_for_snapshot" none refl in
      let c = found r "own_pause_released_externally" (some (flag true)) refl in
      let d = found r "side_effect" none refl in
      let f = found r "rollback_step" none refl in
      record { read = λ e p. rw (p, a, b, c, laws.as_bool-flag true, d, f) refl }

  -- None of the keys but the rollback step.
  unfoldable pub only_step : Record → Bool
  unfolding entry
  only_step r =
      is_none (entry r "source_pause_ack")
      && (is_none (entry r "resumed_production_for_snapshot")
          && (is_none (entry r "own_pause_released_externally") && is_none (entry r "side_effect")))

  pub Says-step :
      (r : Record) (step : String)
      → only_step r ≡ true
      → entry r "rollback_step" ≡ some (text step)
      → entry r "ok" ≡ some (flag true)
      → Says r (event_if (step == "resume") resume)
  unfolding only_step pauses_of settled_pauses effect_pauses
  Says-step r step h g k =
      let s = and_true _ _ h in
      let t = and_true _ _ s.1 in
      let u = and_true _ _ t.1 in
      let a = absent_at r "source_pause_ack" s.0 in
      let b = absent_at r "resumed_production_for_snapshot" t.0 in
      let c = absent_at r "own_pause_released_externally" u.0 in
      let d = absent_at r "side_effect" u.1 in
      let f = found r "rollback_step" _ g in
      let o = found r "ok" _ k in
      record {
        read = λ e p. rw (p, a, b, c, d, f, o, laws.as_str-built step, laws.as_bool-flag true) refl;
      }
