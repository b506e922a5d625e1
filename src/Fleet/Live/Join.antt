-- ===== src/Fleet/Live/Join.antt =====
-- src/fleet.rs, `join_view` against the members.
use pulse_cutover.Prelude.{
  ℕ, ◌≤◌, ◌≡◌, refl, ap, subst, ◌&&◌, if◌then◌else◌, String, Bool, true, false, Option, none, some,
  List, [], ◌∷◌, ◌++◌, not, length, arith, All, ltb, nat_eq, is_empty, filter_map-nil, All-map,
}
use pulse_cutover.Json.{Json}
use pulse_cutover.Config.{Coordination}
use pulse_cutover.Fleet.Members.{MemberView, members}
use pulse_cutover.Fleet.Resume.{quorum_of}
use pulse_cutover.Fleet.Result.{ok, refuse_if-eq-ok}
use pulse_cutover.Fleet.Groups.{Group, size, unique_best}
use pulse_cutover.Fleet.Groups.Laws.{unique_best-largest}
use pulse_cutover.Fleet.Groups.Gathered.{count_for, best_gathered}
use pulse_cutover.Fleet.Groups.Facts.{gathered-Clean}
use pulse_cutover.Fleet.Live.{
  pair_order, join_member, join_groups, judge_join, join_view, add_join, no_facts, JoinFacts,
  Joined, compared, mismatches_of,
}
use pulse_cutover.Fleet.Live.Safety.{pair_order-Lawful, length-snoc}

append-nil : {A : Type 0} (xs ys : List A) → (xs ++ ys) ≡ [] → (xs ≡ []) × (ys ≡ [])
append-nil [] ys h = (refl, h)
append-nil (x ∷ xs) ys h = cc

empty-nil : {A : Type 0} (xs : List A) → not (is_empty xs) ≡ false → xs ≡ []
empty-nil [] h = refl
empty-nil (x ∷ xs) h = cc

module _ ⦃J : Json⦄ where
  open J use {Value, index, is_null, same}

  -- How many members of the fleet are LIVE on the chain and block `k`.
  abbrev pub live_on : Value → Coordination → String × String → ℕ
  live_on status co k = count_for pair_order join_member k (members status co)

  -- Each compared entry of our evidence is the same in theirs.
  abbrev pub SameEvidence : Value → Value → Type 0
  SameEvidence ours evidence =
      All (λ k. is_null (index ours k) ≡ false → same (index ours k) (index evidence k) ≡ true)
        compared

  abbrev mismatch : Value → String → Value → String → Option (String × String)
  mismatch ours producer evidence k =
      if not (is_null (index ours k)) && not (same (index ours k) (index evidence k))
      then some (producer, k)
      else none

  mismatches_of-SameEvidence :
      (ours : Value) (producer : String) (evidence : Value)
      → mismatches_of ours producer evidence ≡ []
      → SameEvidence ours evidence
  unfolding mismatches_of
  mismatches_of-SameEvidence ours producer evidence h =
      All-map (λ k. mismatch ours producer evidence k ≡ none)
        (λ k. is_null (index ours k) ≡ false → same (index ours k) (index evidence k) ≡ true)
        compared (λ k e n. ground arith)
        (filter_map-nil compared (mismatch ours producer evidence) h)

  abbrev Agrees : Group (String × String) JoinFacts → Type 0
  Agrees g = g.value.mismatches ≡ []

  add_join-Agrees :
      (ours : Value) (m : MemberView) (c : Value) (g : Group (String × String) JoinFacts)
      → Agrees (add_join ours m.producer c g)
      → Agrees g × SameEvidence ours (index c "evidence")
  add_join-Agrees ours m c g h =
      let (a, b) = append-nil g.value.mismatches _ h in
      (a, mismatches_of-SameEvidence ours m.producer (index c "evidence") b)

  judge_join-ok :
      (q : ℕ) (best : Option (Group (String × String) JoinFacts × Bool)) (joined : Joined)
      → judge_join q best ≡ ok joined
      → (g : Group (String × String) JoinFacts) × (best ≡ some (g, true))
        × (q ≤ size g)
        × Agrees g
        × ((g.key.0, g.value.subnet, g.members) ≡ joined)
  unfolding judge_join
  judge_join-ok q none joined h = cc
  judge_join-ok q (some (g, false)) joined h = cc
  judge_join-ok q (some (g, true)) joined h =
      let a = refuse_if-eq-ok (ltb (length g.members) q) _ _ h in
      let b = refuse_if-eq-ok (not (is_empty g.value.mismatches)) _ _ a.1 in
      (g, refl, ground (arith, a.0), empty-nil g.value.mismatches b.0, cc b.1)

  -- The chain and block `k` that a join tracks: a quorum is LIVE there, which are the members named; no
  -- other chain or block has one; every member LIVE there reports our evidence.
  pub record Tracked (status : Value) (co : Coordination) (ours : Value) (names : List String)
      (k : String × String) : Type 0 where
    pub quorum : quorum_of co ≤ live_on status co k
    pub named : length names ≡ live_on status co k
    pub only : (j : String × String) → quorum_of co ≤ live_on status co j → j ≡ k
    pub evidence :
        All
          (λ m. (c : Value) → join_member m ≡ some (k, c) → SameEvidence ours (index c "evidence"))
          (members status co)

  -- A chain that a join may track has, with one block after the cut, a quorum of LIVE members, as many
  -- as are named; no other chain or block has one; and every member LIVE there reports this node's
  -- evidence in each compared entry that this node has.
  pub join_view-Tracked :
      (status : Value) (co : Coordination) (ours : Value) (bid : String) (subnet : Option String)
      (names : List String)
      → join_view (some status) co ours ≡ ok (bid, subnet, names)
      → (first : String) × Tracked status co ours names (bid, first)
  unfolding join_view join_groups
  join_view-Tracked status co ours bid subnet names h =
      let q = quorum_of co in
      let ms = members status co in
      let z = refuse_if-eq-ok (nat_eq q 0) _ _ h in
      let (g, e, big, agrees, joined) =
        judge_join-ok q (unique_best (join_groups ours ms) q) (bid, subnet, names) z.1 in
      let add = λ (m : MemberView) (c : Value). add_join ours m.producer c in
      let grows = λ (m : MemberView) (c : Value) (g : Group (String × String) JoinFacts).
        length-snoc g.members m.producer in
      let b =
        best_gathered pair_order pair_order-Lawful join_member no_facts add (λ m x g. refl) grows q
          ms g true (ground (arith, z.0)) e in
      let u = unique_best-largest (join_groups ours ms) q g true (ground (arith, z.0)) e in
      let key : g.key ≡ (bid, g.key.1) = ap (λ (j : Joined). (j.0, g.key.1)) joined in
      let tracked : Tracked status co ours names g.key = record {
        quorum = omega (arith, big, b.0);
        named = omega (arith, b.0, ap (λ (j : Joined). length j.2) joined);
        only = b.1 refl big;
        evidence =
            gathered-Clean pair_order pair_order-Lawful join_member no_facts add (λ m x g. refl)
              grows Agrees (λ m c. SameEvidence ours (index c "evidence")) (add_join-Agrees ours) ms
              g u.0 agrees;
      } in
      (g.key.1, subst (Tracked status co ours names) key tracked)
