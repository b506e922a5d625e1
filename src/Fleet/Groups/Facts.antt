-- ===== src/Fleet/Groups/Facts.antt =====
-- src/fleet.rs: the facts that `gather` keeps of a group.
use pulse_cutover.Prelude.{
  suc, ◌≡◌, refl, sym, ap, ◌∙◌, subst, true, Option, some, List, [], ◌∷◌, All, In, Bool-cases,
  Option-cases, inl, inr, ◌⊎◌, arith,
}
use pulse_cutover.Fleet.Groups.{
  Group, KeyOrder, size, has_key, insert_sorted, update, entry_update, gather_one, gather, is_gt,
}
use pulse_cutover.Fleet.Groups.Counts.{Lawful, Distinct, has_key-In}
use pulse_cutover.Fleet.Groups.Gathered.{gather_one-Distinct}

module _ {K V : Type 0} (o : KeyOrder K) where
  first-insert_sorted : (g : Group K V) (gs : List (Group K V)) → In g (insert_sorted o g gs)
  unfolding insert_sorted
  first-insert_sorted g [] = inl refl
  first-insert_sorted g (h ∷ hs) = elim (Bool-cases (is_gt (o.cmp g.key h.key))) [
    | inl e ↦ rw e (inr (first-insert_sorted g hs))
    | inr e ↦ rw e (inl refl)
  ]

  kept-insert_sorted :
      (g x : Group K V) (gs : List (Group K V)) → In x gs → In x (insert_sorted o g gs)
  unfolding insert_sorted
  kept-insert_sorted g x [] i = absurd i
  kept-insert_sorted g x (h ∷ hs) i = elim (Bool-cases (is_gt (o.cmp g.key h.key))) [
    | inl e ↦ rw e (elim i [ inl p ↦ inl p | inr j ↦ inr (kept-insert_sorted g x hs j) ])
    | inr e ↦ rw e (inr i)
  ]

  module _ (law : Lawful o) (f : Group K V → Group K V) where
    -- The change reaches a group of the key.
    changed-update :
        (k : K) (gs : List (Group K V))
        → has_key o k gs ≡ true
        → (g : Group K V) × (g.key ≡ k) × In (f g) (update o k f gs)
    unfolding update
    changed-update k [] h = cc
    changed-update k (g ∷ gs) h = elim (Bool-cases (o.same_key g.key k)) [
      | inl e ↦ (g, (law g.key k).0 e, rw e (inl refl))
      | inr e ↦ let r = changed-update k gs (ground arith) in (r.0, r.1, rw e (inr r.2))
    ]

    kept-update :
        (k : K) (x : Group K V) (gs : List (Group K V))
        → In x gs
        → In x (update o k f gs) ⊎ In (f x) (update o k f gs)
    unfolding update
    kept-update k x [] i = absurd i
    kept-update k x (g ∷ gs) (inl p) = elim (Bool-cases (o.same_key g.key k)) [
      | inl e ↦ inr (rw e (inl (ap f p)))
      | inr e ↦ inl (rw e (inl p))
    ]
    kept-update k x (g ∷ gs) (inr i) = elim (Bool-cases (o.same_key g.key k)) [
      | inl e ↦ inl (rw e (inr i))
      | inr e ↦ elim (kept-update k x gs i) [
        | inl j ↦ inl (rw e (inr j))
        | inr j ↦ inr (rw e (inr j))
      ]
    ]

    changed-entry_update :
        (k : K) (default : V) (gs : List (Group K V))
        → (g : Group K V) × (g.key ≡ k) × In (f g) (entry_update o k default f gs)
    unfolding entry_update
    changed-entry_update k default gs = elim (Bool-cases (has_key o k gs)) [
      | inl e ↦ rw e (changed-update k gs e)
      | inr e ↦
          let fresh : Group K V = record { key = k; members = []; value = default } in
          rw e (fresh, refl, first-insert_sorted (f fresh) gs)
    ]

    kept-entry_update :
        (k : K) (default : V) (x : Group K V) (gs : List (Group K V))
        → In x gs
        → In x (entry_update o k default f gs) ⊎ In (f x) (entry_update o k default f gs)
    unfolding entry_update
    kept-entry_update k default x gs i = elim (Bool-cases (has_key o k gs)) [
      | inl e ↦ rw e (kept-update k x gs i)
      | inr e ↦ rw e (inl (kept-insert_sorted _ x gs i))
    ]

  -- Groups with one key are one group.
  same_group :
      (law : Lawful o) (a b : Group K V) (gs : List (Group K V))
      → Distinct o gs
      → In a gs
      → In b gs
      → a.key ≡ b.key
      → a ≡ b
  unfolding Distinct
  same_group law a b [] d i j e = absurd i
  same_group law a b (g ∷ gs) d (inl p) (inl q) e = p ∙ sym q
  same_group law a b (g ∷ gs) d (inl p) (inr j) e = absurd (
      cc (
        has_key-In o law g.key b gs d.0 j,
        (law g.key b.key).1 (ap (λ (x : Group K V). x.key) (sym p) ∙ e),
      ))
  same_group law a b (g ∷ gs) d (inr i) (inl q) e = absurd (
      cc (
        has_key-In o law g.key a gs d.0 i,
        (law g.key a.key).1 (ap (λ (x : Group K V). x.key) (sym q) ∙ sym e),
      ))
  same_group law a b (g ∷ gs) d (inr i) (inr j) e = same_group law a b gs d.1 i j e

module _ {K V M X : Type 0} (o : KeyOrder K) (law : Lawful o) (contributes : M → Option (K × X))
    (default : V) (add : M → X → Group K V → Group K V)
    (keeps : (m : M) (x : X) (g : Group K V) → (add m x g).key ≡ g.key)
    (adds : (m : M) (x : X) (g : Group K V) → size (add m x g) ≡ suc (size g))
    (Clean : Group K V → Type 0) (Good : M → X → Type 0)
    (step : (m : M) (x : X) (g : Group K V) → Clean (add m x g) → Clean g × Good m x) where
  gather_one-Clean :
      (m : M) (gs : List (Group K V)) (g : Group K V)
      → ((h : Group K V)
          → In h (gather_one o contributes default add m gs)
          → h.key ≡ g.key
          → Clean h)
      → ((x : X) → contributes m ≡ some (g.key, x) → Good m x)
        × ((h : Group K V) → In h gs → h.key ≡ g.key → Clean h)
  unfolding gather_one
  gather_one-Clean m gs g c = elim (Option-cases (contributes m)) [
    | inl e ↦ (λ x p. absurd (cc (e, p)), λ h i q. c h (rw (e, gather_one) i) q)
    | inr ((k, y), e) ↦ (
      λ x p.
          let same : (k, y) ≡ (g.key, x) = cc (e, p) in
          let (h, hk, i) = changed-entry_update o law (add m y) k default gs in
          let clean =
            c (add m y h) (rw (e, gather_one) i)
              (keeps m y h ∙ hk ∙ ap (λ (z : _ × _). z.0) same) in
          subst (λ z. Good m z) (ap (λ (z : _ × _). z.1) same) (step m y h clean).1,
      λ h i q. elim (kept-entry_update o law (add m y) k default h gs i) [
        | inl j ↦ c h (rw (e, gather_one) j) q
        | inr j ↦ (step m y h (c (add m y h) (rw (e, gather_one) j) (keeps m y h ∙ q))).0
      ],
    )
  ]

  gather-Clean :
      (ms : List M) (gs : List (Group K V)) (g : Group K V)
      → Distinct o gs
      → In g (gather o contributes default add ms gs)
      → Clean g
      → All (λ m. (x : X) → contributes m ≡ some (g.key, x) → Good m x) ms
        × ((h : Group K V) → In h gs → h.key ≡ g.key → Clean h)
  unfolding gather
  gather-Clean [] gs g d i c = (tt, λ h j q. subst Clean (sym (same_group o law h g gs d j i q)) c)
  gather-Clean (m ∷ ms) gs g d i c =
      let (later, here) =
        gather-Clean ms (gather_one o contributes default add m gs) g
          (gather_one-Distinct o law contributes default add keeps adds m gs d) i c in
      let (good, before) = gather_one-Clean m gs g here in ((good, later), before)

  -- A clean group of the gathered ones makes every member of its key good.
  pub gathered-Clean :
      (ms : List M) (g : Group K V)
      → In g (gather o contributes default add ms [])
      → Clean g
      → All (λ m. (x : X) → contributes m ≡ some (g.key, x) → Good m x) ms
  unfolding Distinct
  gathered-Clean ms g i c = (gather-Clean ms [] g tt i c).0
