-- ===== src/LiveWatch/Observe/Progress.antt =====
-- src/live_watch.rs, `observe` from one reading to the next.
use pulse_cutover.Prelude.{
  ℕ, ◌≤◌, ◌≡◌, sym, ap, String, true, false, Option, some, or_else, ltb, arith, Bool-cases, inl,
  inr, none, to_ascii_lowercase, ◌==◌, eq_iff, if◌then◌else◌,
}
use pulse_cutover.LiveWatch.{TargetHead}
use pulse_cutover.LiveWatch.Observe.{
  Seen, seen, other_chain, wanted_chain, differs, advance, observe,
}

abbrev risen : Seen → String → TargetHead → ℕ → Seen
risen p url h now_ms = record {
  url = url;
  max_head = h.head;
  moved_ms = now_ms;
  chain_id = or_else p.chain_id h.chain_id;
}

-- A reading that is accepted after `p` of the same target: the record has the head that was read, which
-- is not below the highest seen, and if it is the same head, the record is unchanged.
advance-seen :
    (p : Seen) (url : String) (h : TargetHead) (now_ms live_ts_ms : ℕ) (want : Option String)
    (next : Seen)
    → advance (some p) url h now_ms live_ts_ms want ≡ seen next
    → (next.max_head ≡ h.head) × (p.max_head ≤ next.max_head) × (p.max_head ≡ h.head → next ≡ p)
unfolding advance
advance-seen p url h now_ms live_ts_ms want next e = elim (Bool-cases (ltb h.head p.max_head)) [
  | inl a ↦ cc (rw a at e)
  | inr a ↦ elim (Bool-cases (ltb p.max_head h.head)) [
    | inl b ↦
        let q : risen p url h now_ms ≡ next = cc (rw (a, b) at e) in
        let m : h.head ≡ next.max_head = ap (λ (s : Seen). s.max_head) q in
        (sym m, ground (arith, m, b), λ same. absurd (ground (arith, b, same)))
    | inr b ↦
        let q : p ≡ next = cc (rw (a, b) at e) in
        let m : p.max_head ≡ next.max_head = ap (λ (s : Seen). s.max_head) q in
        (ground (arith, a, b, m), ground (arith, m), λ same. sym q)
  ]
]

-- The target serves the chain that is expected, where that and its own chain are known: the one that the
-- ceremony journaled, and only without one, the one that the target served before.
abbrev pub ServesExpected : Option String → Option String → Option String → Type 0
ServesExpected journaled before none = Unit
ServesExpected (some j) before (some got) = to_ascii_lowercase j ≡ got
ServesExpected none (some c) (some got) = c ≡ got
ServesExpected none none (some got) = Unit

same_chain : (want got : String) → differs (some want) (some got) ≡ false → want ≡ got
same_chain want got d = ground (arith, d, eq_iff want got)

wanted-ServesExpected :
    (p : Seen) (journaled got : Option String)
    → differs (wanted_chain (some p) journaled) got ≡ false
    → ServesExpected journaled p.chain_id got
wanted-ServesExpected p journaled none d = tt
wanted-ServesExpected p (some j) (some got) d = same_chain (to_ascii_lowercase j) got d
wanted-ServesExpected p none (some got) d = unjournaled p.chain_id d
  where
    unjournaled :
        (c : Option String) → differs c (some got) ≡ false → ServesExpected none c (some got)
    unjournaled none d = tt
    unjournaled (some c) d = same_chain c got d

-- What a target that still stands behind its url may be recorded as, after a record of it: it serves
-- the journaled chain, or without one the chain of the record, if both are known, its head is the highest
-- seen, and while the head stays the record stays.
pub observe-seen :
    (p : Seen) (url : String) (h : TargetHead) (now_ms live_ts_ms : ℕ) (journaled : Option String)
    (next : Seen)
    → p.url ≡ url
    → observe (some p) url h now_ms live_ts_ms journaled ≡ seen next
    → ServesExpected journaled p.chain_id h.chain_id
      × (next.max_head ≡ h.head)
      × (p.max_head ≤ next.max_head)
      × (p.max_head ≡ h.head → next ≡ p)
unfolding observe
observe-seen p url h now_ms live_ts_ms journaled next u e =
    let here : p.url == url ≡ true = (eq_iff p.url url).1 u in
    let e' : (if differs (wanted_chain (some p) journaled) h.chain_id
          then other_chain h.chain_id (wanted_chain (some p) journaled)
          else advance (some p) url h now_ms live_ts_ms (wanted_chain (some p) journaled))
        ≡ seen next =
      rw here at e in
    elim (Bool-cases (differs (wanted_chain (some p) journaled) h.chain_id)) [
      | inl d ↦ cc (rw d at e')
      | inr d ↦
          let (a, b, c) =
            advance-seen p url h now_ms live_ts_ms (wanted_chain (some p) journaled) next
              (rw d at e') in
          (wanted-ServesExpected p journaled h.chain_id d, a, b, c)
    ]
