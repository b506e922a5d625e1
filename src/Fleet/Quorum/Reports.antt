-- ===== src/Fleet/Quorum/Reports.antt =====
-- src/fleet.rs, `not_out`, beside `peers_seen_verified` and `past_create`.
use pulse_cutover.Prelude.{
  ℕ, ◌≡◌, refl, sym, subst, inl, inr, String, Bool, true, false, Option, none, some, List, not,
  ◌||◌, arith, any, eq_iff, ◌==◌, contains, unwrap_or, is_some_and, or_true, or_false, Bool-cases,
}
use pulse_cutover.Json.{Json}
use pulse_cutover.Fleet.Reports.{past_create, is_text, is_num, is_true}
use pulse_cutover.Fleet.Marks.{seen_by_report, is_countable, countable_states}
use pulse_cutover.Fleet.Resume.{has_left}
use pulse_cutover.Fleet.Quorum.{NotOut, ◌unless◌, not_out, transitions_problem}

pub unless-eq-none :
    (test : Bool) (reason : NotOut) (rest : Option NotOut)
    → ((test, reason) unless rest) ≡ none
    → (test ≡ false) × (rest ≡ none)
unless-eq-none true reason rest h = cc
unless-eq-none false reason rest h = (refl, h)

pub has_left-countable : (st : String) → has_left st ≡ true → contains countable_states st ≡ false
has_left-countable st h = elim (or_true (st == "ABORTED") (st == "STRANDED") h) [
  | inl a ↦ subst (λ s. contains countable_states s ≡ false) (sym ((eq_iff st "ABORTED").0 a)) refl
  | inr b ↦ subst (λ s. contains countable_states s ≡ false) (sym ((eq_iff st "STRANDED").0 b)) refl
]

left_state :
    (o : Option String)
    → has_left (unwrap_or o "none") ≡ true
    → is_some_and o (contains countable_states) ≡ false
left_state none h = refl
left_state (some st) h = has_left-countable st h

is_num-eq : (o : Option ℕ) (n : ℕ) → is_num o n ≡ true → o ≡ some n
is_num-eq none n h = cc
is_num-eq (some m) n h = ground arith

is_text-eq : (o : Option String) (t : String) → is_text o t ≡ true → o ≡ some t
is_text-eq none t h = cc
is_text-eq (some s) t h = ground (arith, (eq_iff s t).0 h)

not-false : (b : Bool) → not b ≡ false → b ≡ true
not-false b h = ground arith

module _ ⦃J : Json⦄ where
  open J use {Value, index, as_str, as_u64, as_bool, as_array, is_null}

  -- What a report that proves its member out says.
  pub record Exited (r : Value) (event : String) (h : ℕ) : Type 0 where
    pub for_event : as_str (index (index r "coord") "event_id") ≡ some event
    pub for_h : as_u64 (index (index (index r "ceremony") "evidence") "h") ≡ some h
    pub left : has_left (unwrap_or (as_str (index (index r "ceremony") "state")) "none") ≡ true
    pub before_creation : past_create r ≡ false
    pub transitions : List Value
    pub transitions_eq : as_array (index (index r "ceremony") "transitions") ≡ some transitions
    pub never_countable : any transitions is_countable ≡ false
    pub no_snapshot :
        is_null (index (index (index r "ceremony") "evidence") "snapshot_sha256") ≡ true
    pub no_fingerprints :
        is_null (index (index (index r "ceremony") "evidence") "fingerprints_digest") ≡ true
    pub settled :
        (is_true (as_bool (index (index r "ceremony") "aborting"))
          || is_true (as_bool (index (index r "ceremony") "rollback_pending")))
        ≡ false

  transitions_problem-none :
      (o : Option (List Value)) (rest : Option NotOut)
      → transitions_problem o rest ≡ none
      → (tr : List Value) × (o ≡ some tr) × (any tr is_countable ≡ false) × (rest ≡ none)
  transitions_problem-none none rest h = cc
  transitions_problem-none (some tr) rest h = elim (Bool-cases (any tr is_countable)) [
    | inl e ↦ cc (rw e at h)
    | inr e ↦ (tr, refl, e, rw e at h)
  ]

  pub not_out-Exited :
      (r : Value) (event : String) (h : ℕ) → not_out r event h ≡ none → Exited r event h
  unfolding not_out
  not_out-Exited r event h e =
      let a = unless-eq-none _ _ _ e in
      let b = unless-eq-none _ _ _ a.1 in
      let c = unless-eq-none _ _ _ b.1 in
      let d = unless-eq-none _ _ _ c.1 in
      let (tr, t, n, f) = transitions_problem-none _ _ d.1 in
      let g = unless-eq-none _ _ _ f in
      let i = unless-eq-none _ _ _ g.1 in
      let k =
        or_false (not (is_null (index (index (index r "ceremony") "evidence") "snapshot_sha256"))) _
          g.0 in
      record {
        for_event = is_text-eq _ event (not-false _ a.0);
        for_h = is_num-eq _ h (not-false _ b.0);
        left = not-false _ c.0;
        before_creation = (or_false (past_create r) _ d.0).0;
        transitions = tr;
        transitions_eq = t;
        never_countable = n;
        no_snapshot = not-false _ k.0;
        no_fingerprints = not-false _ k.1;
        settled = i.0;
      }

  -- A report that proves its member out is not past creation, and is no report by which
  -- `peers_seen_verified` sees a verified peer.
  pub not_out-unseen :
      (r : Value) (event : String) (h : ℕ)
      → not_out r event h ≡ none
      → (seen_by_report event r ≡ false) × (past_create r ≡ false)
  unfolding seen_by_report
  not_out-unseen r event h e =
      let x = not_out-Exited r event h e in
      (
        rw
            (
              x.before_creation,
              x.transitions_eq,
              x.never_countable,
              x.no_snapshot,
              x.no_fingerprints,
              left_state (as_str (index (index r "ceremony") "state")) x.left,
            )
            (ground arith),
        x.before_creation,
      )
