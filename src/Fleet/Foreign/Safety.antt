-- ===== src/Fleet/Foreign/Safety.antt =====
-- src/fleet.rs, `drop_foreign_ceremonies` and `annotate_evidence` on one report and one log.
use pulse_cutover.Prelude.{
  ℕ, ◌≡◌, ◌≢◌, refl, ap, ◌∙◌, String, true, false, none, some, List, ◌||◌, In, is_some, is_none,
  arith, Bool-cases, Option-cases, inl, inr, ◌==◌, In-filter, filter-In, filter, eq_iff,
  if◌then◌else◌,
}
use pulse_cutover.Json.{Json, JsonLaws}
use pulse_cutover.Fleet.Reports.{past_create, is_text}
use pulse_cutover.Fleet.Members.{log_evidence}
use pulse_cutover.Fleet.Foreign.{is_foreign, fix, past_text, blocks, annotate_log}

pub names_differ : {s t : String} → s == t ≡ false → s ≢ t
names_differ {s} {t} h p = cc (h, (eq_iff s t).1 p)

module _ ⦃J : Json⦄ (laws : JsonLaws J) where
  open J use {
    Value, null, index, as_str, as_u64, as_bool, as_array, is_null, is_object, text, array, assign,
  }

  index-null : (k : String) → index null k ≡ null
  index-null k = laws.index_no_object null k laws.null_no_object

  object_indexable : (v : Value) → is_object v ≡ true → (is_object v || is_null v) ≡ true
  object_indexable v o = rw o refl

  -- Only an object is foreign.
  foreign_object : (h : ℕ) (r : Value) → is_foreign h r ≡ true → is_object r ≡ true
  unfolding is_foreign
  foreign_object h r f = elim (Bool-cases (is_object r)) [
    | inl e ↦ e
    | inr e ↦
        let z : as_u64 (index (index (index r "ceremony") "evidence") "h") ≡ none =
          rw (laws.index_no_object r "ceremony" e, index-null "evidence", index-null "h")
            laws.as_u64-null in
        absurd (cc (rw z at f))
  ]

  -- Without a ceremony a report is past creation exactly if it says so of another H.
  past_create-dropped :
      (r : Value)
      → index r "ceremony" ≡ null
      → past_create r ≡ is_some (as_str (index r "foreign_past_create"))
  unfolding past_create
  past_create-dropped r e =
      rw
        (
          e,
          index-null "state",
          index-null "create_started",
          index-null "ignition_started",
          index-null "joined",
          laws.as_str-null,
          laws.as_bool-null,
        )
        (ground arith)

  -- The report before its ceremony is dropped.
  abbrev marked : Value → Value
  marked r = if past_create r then assign r "foreign_past_create" (past_text r) else r

  marked_object : (r : Value) → is_object r ≡ true → is_object (marked r) ≡ true
  marked_object r o = elim (Bool-cases (past_create r)) [
    | inl e ↦
        rw e (laws.is_object-assign r (past_text r) "foreign_past_create" (object_indexable r o))
    | inr e ↦ rw e o
  ]

  fix-foreign :
      (h : ℕ) (r : Value) → is_foreign h r ≡ true → (fix h r).0 ≡ assign (marked r) "ceremony" null
  unfolding fix
  fix-foreign h r f = rw f refl

  marked-past_create :
      (r : Value)
      → is_object r ≡ true
      → is_some (as_str (index (marked r) "foreign_past_create")) ≡ past_create r
  unfolding past_create
  marked-past_create r o = elim (Bool-cases (past_create r)) [
    | inl e ↦
        rw
          (
            e,
            laws.index-assign_self r (past_text r) "foreign_past_create" (object_indexable r o),
            laws.as_str-text,
          )
          refl
    | inr e ↦ rw e (ground arith)
  ]

  -- A report for another H loses its ceremony: it shows no state, so it is never LIVE or ABORTED.
  pub fix-state :
      (h : ℕ) (r : Value)
      → is_foreign h r ≡ true
      → as_str (index (index (fix h r).0 "ceremony") "state") ≡ none
  fix-state h r f =
      let o = object_indexable (marked r) (marked_object r (foreign_object h r f)) in
      rw
        (fix-foreign h r f, laws.index-assign_self (marked r) null "ceremony" o, index-null "state")
        laws.as_str-null

  -- Whether a report is past chain creation is kept, whatever H its journal was armed for.
  pub past_create-fix : (h : ℕ) (r : Value) → past_create (fix h r).0 ≡ past_create r
  unfolding fix
  past_create-fix h r = elim (Bool-cases (is_foreign h r)) [
    | inl f ↦
        let o = foreign_object h r f in
        let m = object_indexable (marked r) (marked_object r o) in
        rw (fix-foreign h r f) (
          past_create-dropped (assign (marked r) "ceremony" null)
            (laws.index-assign_self (marked r) null "ceremony" m)
          ∙ ap (λ v. is_some (as_str v))
              (laws.index-assign_ne (marked r) null "foreign_past_create" "ceremony" m
                (names_differ refl))
          ∙ marked-past_create r o)
    | inr f ↦ rw f refl
  ]

  -- A report that is an object stays one.
  pub fix-object : (h : ℕ) (r : Value) → is_object r ≡ true → is_null (fix h r).0 ≡ false
  unfolding fix
  fix-object h r o = elim (Bool-cases (is_foreign h r)) [
    | inl f ↦ rw (fix-foreign h r f) (
        laws.object_not_null _ (
          laws.is_object-assign (marked r) null "ceremony"
            (object_indexable (marked r) (marked_object r o))))
    | inr f ↦ rw f (laws.object_not_null r o)
  ]

  blocks_event :
      (e : String) (h : ℕ) (o : Value)
      → (is_null (index o "event_id")
          || is_none (as_u64 (index o "h"))
          || is_text (as_str (index o "event_id")) e)
        ≡ true
      → blocks (some e) h o ≡ true
  unfolding blocks
  blocks_event e h o b = ground (arith, laws.as_str-is_null (index o "event_id"))

  has_array :
      (v : Value) {k : String} (vs : List Value)
      → as_array (index v k) ≡ some vs
      → is_object v ≡ true
  has_array v {k} vs e = elim (Bool-cases (is_object v)) [
    | inl o ↦ o
    | inr o ↦ absurd (cc (e, ap as_array (laws.index_no_object v k o), laws.as_array-null))
  ]

  -- With an event, the marking of the observations that block never hides one that counted for it.
  pub log_evidence-annotate_log :
      (e : String) (h : ℕ) (log o : Value)
      → as_array (index log "blocking") ≡ none
      → In o (log_evidence log (some e))
      → In o (log_evidence (annotate_log (some e) h log) (some e))
  unfolding log_evidence annotate_log
  log_evidence-annotate_log e h log o fresh i = elim (Option-cases (as_array (index log "obs"))) [
    | inl n ↦ absurd (rw (fresh, n, log_evidence) at i)
    | inr (obs, n) ↦
        let old = λ (o : Value).
          is_null (index o "event_id")
          || is_none (as_u64 (index o "h"))
          || is_text (as_str (index o "event_id")) e in
        let (among, counted) = filter-In old obs o (rw (fresh, n, log_evidence) at i) in
        let object : (is_object log || is_null log) ≡ true =
          object_indexable log (has_array log obs n) in
        let written : as_array (index (annotate_log (some e) h log) "blocking")
            ≡ some (filter obs (blocks (some e) h)) =
          rw
            (
              n,
              annotate_log,
              laws.index-assign_self log (array (filter obs (blocks (some e) h))) "blocking" object,
            )
            (laws.as_array-array (filter obs (blocks (some e) h))) in
        rw (written, log_evidence)
          (In-filter (blocks (some e) h) obs o among (blocks_event e h o counted))
  ]
