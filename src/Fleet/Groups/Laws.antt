-- ===== src/Fleet/Groups/Laws.antt =====
-- src/fleet.rs, `unique_best`.
use pulse_cutover.Prelude.{
  ℕ, ◌≤◌, ◌<◌, ◌≡◌, ◌↔◌, refl, sym, subst, inl, inr, Bool, true, some, List, [], ◌∷◌, length, leb,
  ltb, filter, All, In, arith, Bool-cases, All-map,
}
use pulse_cutover.Fleet.Groups.{Group, size, insert_by_size, sort_by_size, best_of, unique_best}

module _ {K V : Type 0} where
  -- How many groups reach `q`.
  abbrev pub reaching : ℕ → List (Group K V) → ℕ
  reaching q gs = length (filter gs (λ g. leb q (size g)))

  -- Each group is at least as large as the next.
  abbrev IsSorted : List (Group K V) → Type 0
  IsSorted [] = Unit
  IsSorted (g ∷ gs) = All (λ h. size h ≤ size g) gs × IsSorted gs

  insert_by_size-All :
      (P : Group K V → Type 0) (g : Group K V) (gs : List (Group K V))
      → P g
      → All P gs
      → All P (insert_by_size g gs)
  unfolding insert_by_size
  insert_by_size-All P g [] p h = (p, tt)
  insert_by_size-All P g (x ∷ xs) p h = elim (Bool-cases (leb (size x) (size g))) [
    | inl e ↦ rw e (p, h)
    | inr e ↦ rw e (h.0, insert_by_size-All P g xs p h.1)
  ]

  sort_by_size-All :
      (P : Group K V → Type 0) (gs : List (Group K V)) → All P gs → All P (sort_by_size gs)
  unfolding sort_by_size
  sort_by_size-All P [] h = tt
  sort_by_size-All P (g ∷ gs) h =
      insert_by_size-All P g (sort_by_size gs) h.0 (sort_by_size-All P gs h.1)

  All-insert_by_size :
      (P : Group K V → Type 0) (g : Group K V) (gs : List (Group K V))
      → All P (insert_by_size g gs)
      → P g × All P gs
  unfolding insert_by_size
  All-insert_by_size P g [] h = h
  All-insert_by_size P g (x ∷ xs) h = elim (Bool-cases (leb (size x) (size g))) [
    | inl e ↦ rw e at h
    | inr e ↦
        let r : P x × All P (insert_by_size g xs) = rw e at h in
        let s = All-insert_by_size P g xs r.1 in (s.0, (r.0, s.1))
  ]

  All-sort_by_size :
      (P : Group K V → Type 0) (gs : List (Group K V)) → All P (sort_by_size gs) → All P gs
  unfolding sort_by_size
  All-sort_by_size P [] h = tt
  All-sort_by_size P (g ∷ gs) h =
      let r = All-insert_by_size P g (sort_by_size gs) h in (r.0, All-sort_by_size P gs r.1)

  insert_by_size-IsSorted :
      (g : Group K V) (gs : List (Group K V)) → IsSorted gs → IsSorted (insert_by_size g gs)
  unfolding insert_by_size
  insert_by_size-IsSorted g [] h = (tt, tt)
  insert_by_size-IsSorted g (x ∷ xs) h = elim (Bool-cases (leb (size x) (size g))) [
    | inl e ↦
        let l : size x ≤ size g = ground arith in
        rw e ((l, All-map _ _ xs (λ y k. omega arith) h.0), h)
    | inr e ↦
        let l : size g ≤ size x = ground arith in
        rw e (insert_by_size-All _ g xs l h.0, insert_by_size-IsSorted g xs h.1)
  ]

  sort_by_size-IsSorted : (gs : List (Group K V)) → IsSorted (sort_by_size gs)
  unfolding sort_by_size
  sort_by_size-IsSorted [] = tt
  sort_by_size-IsSorted (g ∷ gs) =
      insert_by_size-IsSorted g (sort_by_size gs) (sort_by_size-IsSorted gs)

  reaching-insert_by_size :
      (q : ℕ) (g : Group K V) (gs : List (Group K V))
      → reaching q (insert_by_size g gs) ≡ reaching q (g ∷ gs)
  unfolding insert_by_size
  reaching-insert_by_size q g [] = refl
  reaching-insert_by_size q g (x ∷ xs) = ground (arith, reaching-insert_by_size q g xs)

  reaching-sort_by_size :
      (q : ℕ) (gs : List (Group K V)) → reaching q (sort_by_size gs) ≡ reaching q gs
  unfolding sort_by_size
  reaching-sort_by_size q [] = refl
  reaching-sort_by_size q (g ∷ gs) =
      ground (arith, reaching-insert_by_size q g (sort_by_size gs), reaching-sort_by_size q gs)

  reaching-below : (q : ℕ) (gs : List (Group K V)) → All (λ h. size h < q) gs → reaching q gs ≡ 0
  reaching-below q [] h = refl
  reaching-below q (g ∷ gs) h = ground (arith, reaching-below q gs h.1)

  -- The second of a sorted list tells whether a second group reaches `q`.
  best_of_unique :
      (q : ℕ) (gs : List (Group K V)) (best : Group K V) (unique : Bool)
      → 0 < q
      → IsSorted gs
      → best_of q gs ≡ some (best, unique)
      → (unique ≡ true) ↔ (reaching q gs ≤ 1)
  best_of_unique q [] best unique pos s e = cc
  best_of_unique q (g ∷ []) best unique pos s e = ground arith
  best_of_unique q (g ∷ h ∷ hs) best unique pos s e = elim (Bool-cases (ltb (size h) q)) [
    | inl k ↦
        let l : size h < q = ground arith in
        let z = reaching-below q (h ∷ hs) (l, All-map _ _ hs (λ y j. omega arith) s.1.0) in
        ground (arith, z)
    | inr k ↦ ground arith
  ]

  best_of-first :
      (q : ℕ) (gs : List (Group K V)) (best : Group K V) (unique : Bool)
      → IsSorted gs
      → best_of q gs ≡ some (best, unique)
      → In best gs × All (λ h. size h ≤ size best) gs
  best_of-first q [] best unique s e = cc
  best_of-first q (g ∷ gs) best unique s e =
      let k : best ≡ g = cc in
      (inl k, subst (λ b. All (λ h. size h ≤ size b) (g ∷ gs)) (sym k) (omega arith, s.0))

  swap_In :
      (x g best : Group K V) (xs ys : List (Group K V))
      → (In best ys → In best (g ∷ xs))
      → In best (x ∷ ys)
      → In best (g ∷ x ∷ xs)
  swap_In x g best xs ys f (inl k) = inr (inl k)
  swap_In x g best xs ys f (inr k) = elim (f k) [ inl j ↦ inl j | inr j ↦ inr (inr j) ]

  insert_by_size-In :
      (g best : Group K V) (gs : List (Group K V))
      → In best (insert_by_size g gs)
      → In best (g ∷ gs)
  unfolding insert_by_size
  insert_by_size-In g best [] i = i
  insert_by_size-In g best (x ∷ xs) i = elim (Bool-cases (leb (size x) (size g))) [
    | inl e ↦ rw e at i
    | inr e ↦ swap_In x g best xs (insert_by_size g xs) (insert_by_size-In g best xs) (rw e at i)
  ]

  sort_by_size-In :
      (gs : List (Group K V)) (best : Group K V) → In best (sort_by_size gs) → In best gs
  unfolding sort_by_size
  sort_by_size-In [] best i = i
  sort_by_size-In (g ∷ gs) best i = elim (insert_by_size-In g best (sort_by_size gs) i) [
    | inl k ↦ inl k
    | inr k ↦ inr (sort_by_size-In gs best k)
  ]

  -- The group that `unique_best` returns is one of the groups and none is larger; and it is reported
  -- unique exactly when at most one group reaches the quorum.
  pub unique_best-largest :
      (gs : List (Group K V)) (q : ℕ) (best : Group K V) (unique : Bool)
      → 0 < q
      → unique_best gs q ≡ some (best, unique)
      → In best gs × All (λ h. size h ≤ size best) gs × ((unique ≡ true) ↔ (reaching q gs ≤ 1))
  unfolding unique_best
  unique_best-largest gs q best unique pos e =
      let s = sort_by_size-IsSorted gs in
      let f = best_of-first q (sort_by_size gs) best unique s e in
      let u = best_of_unique q (sort_by_size gs) best unique pos s e in
      (sort_by_size-In gs best f.0, All-sort_by_size _ gs f.1, rw (reaching-sort_by_size q gs) at u)
