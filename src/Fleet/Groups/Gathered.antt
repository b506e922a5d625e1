-- ===== src/Fleet/Groups/Gathered.antt =====
-- src/fleet.rs: the groups that `gather` builds, against the members.
use pulse_cutover.Prelude.{
  ℕ, suc, ◌+◌, ◌≤◌, ◌<◌, ◌≡◌, Bool, true, Option, some, List, [], ◌∷◌, length, if◌then◌else◌,
  filter, arith, Bool-cases, Option-cases, is_some_and, inl, inr,
}
use pulse_cutover.Fleet.Groups.{Group, KeyOrder, size, gather_one, gather, unique_best}
use pulse_cutover.Fleet.Groups.Laws.{unique_best-largest}
use pulse_cutover.Fleet.Groups.Counts.{
  Lawful, total, Distinct, total-entry_update, entry_update-Distinct, Distinct-total, reaching_one,
}

-- How many members count for the key.
abbrev pub count_for : {K M X : Type 0} → KeyOrder K → (M → Option (K × X)) → K → List M → ℕ
count_for o contributes k ms =
    length (filter ms (λ m. is_some_and (contributes m) (λ p. o.same_key p.0 k)))

module _ {K V M X : Type 0} (o : KeyOrder K) (law : Lawful o) (contributes : M → Option (K × X))
    (default : V) (add : M → X → Group K V → Group K V)
    (keeps : (m : M) (x : X) (g : Group K V) → (add m x g).key ≡ g.key)
    (adds : (m : M) (x : X) (g : Group K V) → size (add m x g) ≡ suc (size g)) where
  pub gather_one-Distinct :
      (m : M) (gs : List (Group K V))
      → Distinct o gs
      → Distinct o (gather_one o contributes default add m gs)
  unfolding gather_one
  gather_one-Distinct m gs d = elim (Option-cases (contributes m)) [
    | inl e ↦ rw (e, gather_one) d
    | inr ((k, x), e) ↦
        rw (e, gather_one)
          (entry_update-Distinct o law (add m x) (keeps m x) (adds m x) k default gs d)
  ]

  pub gather-Distinct :
      (ms : List M) (gs : List (Group K V))
      → Distinct o gs
      → Distinct o (gather o contributes default add ms gs)
  unfolding gather
  gather-Distinct [] gs d = d
  gather-Distinct (m ∷ ms) gs d = gather-Distinct ms _ (gather_one-Distinct m gs d)

  total-gather_one :
      (j : K) (m : M) (gs : List (Group K V))
      → total o j (gather_one o contributes default add m gs)
        ≡ (if is_some_and (contributes m) (λ p. o.same_key p.0 j) then 1 else 0) + total o j gs
  unfolding gather_one
  total-gather_one j m gs = elim (Option-cases (contributes m)) [
    | inl e ↦ rw (e, gather_one) (omega arith)
    | inr ((k, x), e) ↦
        rw (e, gather_one)
          (total-entry_update o law (add m x) (keeps m x) (adds m x) j k default gs)
  ]

  total-gather :
      (j : K) (ms : List M) (gs : List (Group K V))
      → total o j (gather o contributes default add ms gs)
        ≡ count_for o contributes j ms + total o j gs
  unfolding gather
  total-gather j [] gs = omega arith
  total-gather j (m ∷ ms) gs =
      let ih = total-gather j ms (gather_one o contributes default add m gs) in
      let one = total-gather_one j m gs in
      elim (Bool-cases (is_some_and (contributes m) (λ p. o.same_key p.0 j))) [
        | inl e ↦ ground (arith, e, ih, one)
        | inr e ↦ ground (arith, e, ih, one)
      ]

  -- The best of the gathered groups holds every member that counts for its key; and if it is unique and
  -- reaches the quorum, no other key counts a quorum.
  pub best_gathered :
      (q : ℕ) (ms : List M) (best : Group K V) (unique : Bool)
      → 0 < q
      → unique_best (gather o contributes default add ms []) q ≡ some (best, unique)
      → (size best ≡ count_for o contributes best.key ms)
        × (unique ≡ true
            → q ≤ size best
            → (k : K) → q ≤ count_for o contributes k ms
            → k ≡ best.key)
  unfolding total Distinct
  best_gathered q ms best unique pos e =
      let gs = gather o contributes default add ms [] in
      let u = unique_best-largest gs q best unique pos e in
      let d = gather-Distinct ms [] tt in
      let t = λ (k : K). total-gather k ms [] in
      (
        omega (arith, Distinct-total o law best gs d u.0, t best.key),
        λ one big k h.
            reaching_one o law q best k gs pos d u.0 big (u.2.0 one) (omega (arith, h, t k)),
      )
