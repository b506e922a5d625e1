-- ===== src/Fleet/Memory/Grows.antt =====
-- src/machine.rs `merged_fleet_memory`, `journaled_fleet_memory`: how the memory of the fleet grows with a
-- journal and with a view of the relay.
use pulse_cutover.Prelude.{
  ℕ, ◌≡◌, refl, inl, inr, String, Bool, true, false, Option, none, some, List, [], ◌∷◌, ◌++◌, ◌==◌,
  not, ◌||◌, contains-append, arith, ltb, eq_iff, Bool-cases,
}
use pulse_cutover.Json.{Json}
use pulse_cutover.Config.{Coordination}
use pulse_cutover.Fleet.Reports.{is_true, is_false, is_text}
use pulse_cutover.Fleet.Result.{is_err}
use pulse_cutover.Fleet.Resume.{resume_guard_with}
use pulse_cutover.Fleet.Resume.Memory.{resume_guard_mono}
use pulse_cutover.Fleet.Marks.{FleetMemory, default_memory, marks_state, peers_seen_verified}
use pulse_cutover.Fleet.Marks.Memory.{KnowsMore, StateLe}
use pulse_cutover.Fleet.Memory.{
  unknown_names, union, fold_state, merge_state, merge_marks, merged_fleet_memory, fold_line,
  fold_marks, merge_identified, texts_of, journaled_from, journaled_fleet_memory,
}

StateLe-refl : (s : Option (String × ℕ)) → StateLe s s
StateLe-refl none = tt
StateLe-refl (some (i, g)) = (refl, omega arith)

StateLe-trans : (s t u : Option (String × ℕ)) → StateLe s t → StateLe t u → StateLe s u
StateLe-trans none t u a b = tt
StateLe-trans (some s) none u a b = absurd a
StateLe-trans (some s) (some t) none a b = absurd b
StateLe-trans (some (i, g)) (some (j, k)) (some (l, m)) (e, a) (f, b) = (cc (e, f), omega arith)

KnowsMore-trans : {a b c : FleetMemory} → KnowsMore a b → KnowsMore b c → KnowsMore a c
KnowsMore-trans k l = record {
  peers = λ n h. l.peers n (k.peers n h);
  regressed = λ h. l.regressed (k.regressed h);
  state = StateLe-trans _ _ _ k.state l.state;
}

KnowsMore-refl : (mem : FleetMemory) → KnowsMore mem mem
KnowsMore-refl mem = record {
  peers = λ n h. h;
  regressed = λ h. h;
  state = StateLe-refl mem.relay_state;
}

more_peers :
    (mem : FleetMemory) (ns : List String)
    → KnowsMore mem (record mem { verified_peers = union mem.verified_peers ns })
more_peers mem ns = record {
  peers = λ n h. contains-append mem.verified_peers (unknown_names mem.verified_peers ns) n h;
  regressed = λ h. h;
  state = StateLe-refl mem.relay_state;
}

regressed-KnowsMore : (mem : FleetMemory) → KnowsMore mem (record mem { relay_regressed = true })
regressed-KnowsMore mem = record {
  peers = λ n h. h;
  regressed = λ h. refl;
  state = StateLe-refl mem.relay_state;
}

later_state :
    (mem : FleetMemory) (s : Option (String × ℕ))
    → StateLe mem.relay_state s
    → KnowsMore mem (record mem { relay_state = s })
later_state mem s l = record { peers = λ n h. h; regressed = λ h. h; state = l }

abbrev memory_of : List String → Option (String × ℕ) → Bool → FleetMemory
memory_of ps s r = record { verified_peers = ps; relay_state = s; relay_regressed = r }

fold_state_by :
    (id : String) (g : ℕ) (ps : List String) (s : Option (String × ℕ)) (r : Bool)
    → KnowsMore (memory_of ps s r) (fold_state id g (memory_of ps s r))
unfolding fold_state
fold_state_by id g ps none r = later_state (memory_of ps none r) (some (id, g)) tt
fold_state_by id g ps (some (jid, jg)) r = elim (Bool-cases (jid == id)) [
  | inr n ↦ rw n (regressed-KnowsMore (memory_of ps (some (jid, jg)) r))
  | inl y ↦ elim (Bool-cases (ltb jg g)) [
    | inl l ↦
        rw (y, l)
          (later_state (memory_of ps (some (jid, jg)) r) (some (id, g))
            (ground (arith, eq_iff jid id, y), ground (arith, l)))
    | inr k ↦ rw (y, k) (KnowsMore-refl (memory_of ps (some (jid, jg)) r))
  ]
]

merge_state_by :
    (id : String) (g : ℕ) (ps : List String) (s : Option (String × ℕ)) (r : Bool)
    → KnowsMore (memory_of ps s r) (merge_state id g (memory_of ps s r)).0
unfolding merge_state
merge_state_by id g ps none r = later_state (memory_of ps none r) (some (id, g)) tt
merge_state_by id g ps (some (jid, jg)) r = elim (Bool-cases (not (jid == id) || ltb g jg)) [
  | inl y ↦ rw y (regressed-KnowsMore (memory_of ps (some (jid, jg)) r))
  | inr n ↦ rw n (
      later_state (memory_of ps (some (jid, jg)) r) (some (id, g))
        (ground (arith, eq_iff jid id, n), ground (arith, n)))
]

fold_marks-KnowsMore :
    (id : Option String) (g : Option ℕ) (mem : FleetMemory) → KnowsMore mem (fold_marks id g mem)
fold_marks-KnowsMore none g mem = KnowsMore-refl mem
fold_marks-KnowsMore (some id) none mem = KnowsMore-refl mem
fold_marks-KnowsMore (some id) (some g) mem =
    fold_state_by id g mem.verified_peers mem.relay_state mem.relay_regressed

merge_identified-KnowsMore :
    (id : Option String) (g : Option ℕ) (mem : FleetMemory)
    → KnowsMore mem (merge_identified id g mem).0
merge_identified-KnowsMore none g mem = KnowsMore-refl mem
merge_identified-KnowsMore (some id) none mem = KnowsMore-refl mem
merge_identified-KnowsMore (some id) (some g) mem =
    merge_state_by id g mem.verified_peers mem.relay_state mem.relay_regressed

module _ ⦃J : Json⦄ where
  open J use {Value, index, as_str, as_u64, as_bool}

  fold_line-KnowsMore :
      (event : String) (mem : FleetMemory) (d : Value) → KnowsMore mem (fold_line event mem d)
  unfolding fold_line
  fold_line-KnowsMore event mem d =
      let seen = more_peers mem (texts_of (index d "peers_seen_verified")) in
      let state = index d "relay_marks_state" in
      let stated = KnowsMore-trans seen (
        fold_marks-KnowsMore (as_str (index state "state_id")) (as_u64 (index state "generation"))
          _) in
      elim (Bool-cases (is_text (as_str (index d "event_id")) event)) [
        | inr n ↦ rw n (KnowsMore-refl mem)
        | inl y ↦ elim (Bool-cases (is_true (as_bool (index d "relay_marks_regressed")))) [
          | inl r ↦ rw (y, r) (KnowsMore-trans stated (regressed-KnowsMore _))
          | inr r ↦ rw (y, r) stated
        ]
      ]

  journaled_from-KnowsMore :
      (event : String) (mem : FleetMemory) (ds : List Value)
      → KnowsMore mem (journaled_from event mem ds)
  unfolding journaled_from
  journaled_from-KnowsMore event mem [] = KnowsMore-refl mem
  journaled_from-KnowsMore event mem (d ∷ ds) =
      KnowsMore-trans (fold_line-KnowsMore event mem d)
        (journaled_from-KnowsMore event (fold_line event mem d) ds)

  journaled_from-append :
      (event : String) (mem : FleetMemory) (ds es : List Value)
      → journaled_from event mem (ds ++ es) ≡ journaled_from event (journaled_from event mem ds) es
  unfolding journaled_from
  journaled_from-append event mem [] es = refl
  journaled_from-append event mem (d ∷ ds) es =
      journaled_from-append event (fold_line event mem d) ds es

  merge_marks-KnowsMore :
      (ms : Option Value) (mem : FleetMemory) → KnowsMore mem (merge_marks ms mem).0
  unfolding merge_marks
  merge_marks-KnowsMore none mem = KnowsMore-refl mem
  merge_marks-KnowsMore (some ms) mem =
      elim (Bool-cases (is_false (as_bool (index ms "complete")))) [
        | inl y ↦ rw y (regressed-KnowsMore mem)
        | inr n ↦ rw n (merge_identified-KnowsMore _ _ mem)
      ]

  pub merged-KnowsMore :
      (co : Coordination) (me : Option (String × String)) (doc : Value) (mem : FleetMemory)
      → KnowsMore mem (merged_fleet_memory co me doc mem).0
  unfolding merged_fleet_memory
  merged-KnowsMore co me doc mem =
      KnowsMore-trans (more_peers mem (peers_seen_verified doc co me))
        (merge_marks-KnowsMore (marks_state doc co) _)

  -- A resume that the guard permits with the memory of a journal, extended by any later lines and by a
  -- view of the relay, is one that it permits with the memory of the earlier lines alone: no restart, no
  -- record and no view makes the agent forget what kept it from resuming.
  pub merged_fleet_memory-resume_guard :
      (status doc : Value) (co : Coordination) (me : Option (String × String)) (signed_abort : Bool)
      (event : String) (ds es : List Value)
      → is_err (
          resume_guard_with
            (some status)
            co
            me
            signed_abort
            (merged_fleet_memory co me doc (journaled_fleet_memory (ds ++ es) event)).0)
        ≡ false
      → is_err
          (resume_guard_with (some status) co me signed_abort (journaled_fleet_memory ds event))
        ≡ false
  unfolding journaled_fleet_memory
  merged_fleet_memory-resume_guard status doc co me signed_abort event ds es h =
      let earlier = journaled_from event default_memory ds in
      resume_guard_mono status co me signed_abort
        (KnowsMore-trans (journaled_from-KnowsMore event earlier es)
          (merged-KnowsMore co me doc (journaled_from event earlier es)))
        (rw (journaled_from-append event default_memory ds es) at h)
