-- ===== src/Fleet/Groups/Counts.antt =====
-- src/fleet.rs: the groups that `gather` builds, counted.
use pulse_cutover.Prelude.{
  ℕ, suc, ◌+◌, ◌≤◌, ◌<◌, ◌≡◌, ◌↔◌, refl, sym, ap, ◌∙◌, subst, inl, inr, true, false, List, [], ◌∷◌,
  if◌then◌else◌, In, arith, Bool-cases,
}
use pulse_cutover.Fleet.Groups.{
  Group, KeyOrder, is_gt, size, has_key, insert_sorted, update, entry_update,
}
use pulse_cutover.Fleet.Groups.Laws.{reaching}

-- The test of the keys decides their equality.
abbrev pub Lawful : {K : Type 0} → KeyOrder K → Type 0
Lawful {K} o = (a b : K) → (o.same_key a b ≡ true) ↔ (a ≡ b)

same_key_sym :
    {K : Type 0} (o : KeyOrder K) (law : Lawful o) (a b : K)
    → o.same_key a b ≡ false
    → o.same_key b a ≡ false
same_key_sym o law a b h = elim (Bool-cases (o.same_key b a)) [
  | inl e ↦ cc (h, (law a b).1 (sym ((law b a).0 e)))
  | inr e ↦ e
]

module _ {K V : Type 0} (o : KeyOrder K) where
  open o use {cmp, same_key}

  -- All members of the groups with the key.
  unfoldable pub total : K → List (Group K V) → ℕ
  total k [] = 0
  total k (g ∷ gs) = (if same_key g.key k then size g else 0) + total k gs

  unfoldable pub Distinct : List (Group K V) → Type 0
  Distinct [] = Unit
  Distinct (g ∷ gs) = (has_key o g.key gs ≡ false) × Distinct gs

  total-cons :
      (j : K) (g : Group K V) (k : K) (gs : List (Group K V))
      → g.key ≡ k
      → size g ≡ 1
      → total j (g ∷ gs) ≡ (if same_key k j then 1 else 0) + total j gs
  unfolding total
  total-cons j g k gs e s = ground (arith, s, e)

  total-zero : (k : K) (gs : List (Group K V)) → has_key o k gs ≡ false → total k gs ≡ 0
  unfolding total
  total-zero k [] h = refl
  total-zero k (g ∷ gs) h = ground (arith, total-zero k gs)

  In-reaching-pos :
      (q : ℕ) (x : Group K V) (gs : List (Group K V)) → In x gs → q ≤ size x → 1 ≤ reaching q gs
  In-reaching-pos q x [] i h = absurd i
  In-reaching-pos q x (y ∷ ys) (inl e) h = ground (arith, h, ap (λ (z : Group K V). size z) e)
  In-reaching-pos q x (y ∷ ys) (inr i) h = ground (arith, In-reaching-pos q x ys i h)

  In-reaching :
      (q : ℕ) (x y : Group K V) (gs : List (Group K V))
      → In x gs
      → In y gs
      → q ≤ size x
      → q ≤ size y
      → reaching q gs ≤ 1
      → x ≡ y
  In-reaching q x y [] i j h k one = absurd i
  In-reaching q x y (z ∷ zs) (inl e) (inl f) h k one = e ∙ sym f
  In-reaching q x y (z ∷ zs) (inl e) (inr j) h k one =
      ground (arith, ap (λ (w : Group K V). size w) e, In-reaching-pos q y zs j k)
  In-reaching q x y (z ∷ zs) (inr i) (inl f) h k one =
      ground (arith, ap (λ (w : Group K V). size w) f, In-reaching-pos q x zs i h)
  In-reaching q x y (z ∷ zs) (inr i) (inr j) h k one = In-reaching q x y zs i j h k (ground arith)

  module _ (law : Lawful o) where
    pub has_key-In :
        (k : K) (g : Group K V) (gs : List (Group K V))
        → has_key o k gs ≡ false
        → In g gs
        → same_key k g.key ≡ false
    has_key-In k g [] h i = absurd i
    has_key-In k g (x ∷ xs) h (inl e) =
        subst (λ (y : Group K V). same_key k y.key ≡ false) (sym e)
          (same_key_sym o law x.key k (ground arith))
    has_key-In k g (x ∷ xs) h (inr i) = has_key-In k g xs (ground arith) i

    total-insert_sorted :
        (k : K) (g : Group K V) (gs : List (Group K V))
        → total k (insert_sorted o g gs) ≡ total k (g ∷ gs)
    unfolding total insert_sorted
    total-insert_sorted k g [] = refl
    total-insert_sorted k g (h ∷ hs) = ground (arith, total-insert_sorted k g hs)

    has_key-insert_sorted :
        (k : K) (g : Group K V) (gs : List (Group K V))
        → has_key o k (insert_sorted o g gs) ≡ has_key o k (g ∷ gs)
    unfolding insert_sorted
    has_key-insert_sorted k g [] = refl
    has_key-insert_sorted k g (h ∷ hs) = ground (arith, has_key-insert_sorted k g hs)

    insert_sorted-Distinct :
        (g : Group K V) (gs : List (Group K V))
        → has_key o g.key gs ≡ false
        → Distinct gs
        → Distinct (insert_sorted o g gs)
    unfolding insert_sorted Distinct
    insert_sorted-Distinct g [] h d = (refl, tt)
    insert_sorted-Distinct g (x ∷ xs) h d = elim (Bool-cases (is_gt (cmp g.key x.key))) [
      | inl e ↦
          let k : has_key o x.key (insert_sorted o g xs) ≡ false =
            has_key-insert_sorted x.key g xs
            ∙ ground (arith, same_key_sym o law x.key g.key, d.0, h) in
          rw e (k, insert_sorted-Distinct g xs (ground arith) d.1)
      | inr e ↦ rw e (h, d)
    ]

    module _ (f : Group K V → Group K V) (keeps : (g : Group K V) → (f g).key ≡ g.key)
        (adds : (g : Group K V) → size (f g) ≡ suc (size g)) where
      has_key-update :
          (j k : K) (gs : List (Group K V)) → has_key o j (update o k f gs) ≡ has_key o j gs
      unfolding update
      has_key-update j k [] = refl
      has_key-update j k (g ∷ gs) = ground (arith, has_key-update j k gs, keeps g)

      update-Distinct : (k : K) (gs : List (Group K V)) → Distinct gs → Distinct (update o k f gs)
      unfolding update Distinct
      update-Distinct k [] d = tt
      update-Distinct k (g ∷ gs) d = elim (Bool-cases (same_key g.key k)) [
        | inl e ↦ rw e (subst (λ j. has_key o j gs ≡ false) (sym (keeps g)) d.0, d.1)
        | inr e ↦ rw e (has_key-update g.key k gs ∙ d.0, update-Distinct k gs d.1)
      ]

      total-update :
          (j k : K) (gs : List (Group K V))
          → has_key o k gs ≡ true
          → total j (update o k f gs) ≡ (if same_key k j then 1 else 0) + total j gs
      unfolding update total
      total-update j k [] h = cc
      total-update j k (g ∷ gs) h = elim (Bool-cases (same_key g.key k)) [
        | inl e ↦ let s : g.key ≡ k = (law g.key k).0 e in ground (arith, e, keeps g, adds g, s)
        | inr e ↦ ground (arith, e, total-update j k gs)
      ]

      -- Adding a member to its key's group counts it for that key, and keeps one group to a key.
      pub total-entry_update :
          (j k : K) (default : V) (gs : List (Group K V))
          → total j (entry_update o k default f gs) ≡ (if same_key k j then 1 else 0) + total j gs
      unfolding entry_update
      total-entry_update j k default gs = elim (Bool-cases (has_key o k gs)) [
        | inl e ↦ rw e (total-update j k gs e)
        | inr e ↦
            let fresh : Group K V = record { key = k; members = []; value = default } in
            rw e (
              total-insert_sorted j (f fresh) gs
              ∙ total-cons j (f fresh) k gs (keeps fresh) (adds fresh))
      ]

      pub entry_update-Distinct :
          (k : K) (default : V) (gs : List (Group K V))
          → Distinct gs
          → Distinct (entry_update o k default f gs)
      unfolding entry_update
      entry_update-Distinct k default gs d = elim (Bool-cases (has_key o k gs)) [
        | inl e ↦ rw e (update-Distinct k gs d)
        | inr e ↦
            let fresh : Group K V = record { key = k; members = []; value = default } in
            rw e (
              insert_sorted-Distinct (f fresh) gs
                (subst (λ j. has_key o j gs ≡ false) (sym (keeps fresh)) e) d)
      ]

    -- A group holds all that its key counts.
    pub Distinct-total :
        (g : Group K V) (gs : List (Group K V)) → Distinct gs → In g gs → total g.key gs ≡ size g
    unfolding Distinct total
    Distinct-total g [] d i = absurd i
    Distinct-total g (x ∷ xs) d (inl e) =
        let z : total x.key xs ≡ 0 = total-zero x.key xs d.0 in
        let s : same_key x.key x.key ≡ true = (law x.key x.key).1 refl in
        subst (λ y. total y.key (x ∷ xs) ≡ size y) (sym e) (rw (s, z) (omega arith))
    Distinct-total g (x ∷ xs) d (inr i) =
        let s : same_key x.key g.key ≡ false = has_key-In x.key g xs d.0 i in
        rw (s, Distinct-total g xs d.1 i) (omega arith)

    -- A key that counts anything has a group.
    total-pos :
        (k : K) (gs : List (Group K V)) → 0 < total k gs → (g : Group K V) × In g gs × (g.key ≡ k)
    unfolding total
    total-pos k [] h = elim h [ ]
    total-pos k (g ∷ gs) h = elim (Bool-cases (same_key g.key k)) [
      | inl e ↦ (g, inl refl, (law g.key k).0 e)
      | inr e ↦ let r = total-pos k gs (ground arith) in (r.0, inr r.1, r.2)
    ]

    -- At most one key reaches a quorum that at most one group reaches.
    pub reaching_one :
        (q : ℕ) (g : Group K V) (k : K) (gs : List (Group K V))
        → 0 < q
        → Distinct gs
        → In g gs
        → q ≤ size g
        → reaching q gs ≤ 1
        → q ≤ total k gs
        → k ≡ g.key
    reaching_one q g k gs pos d i big one h =
        let (x, j, e) = total-pos k gs (omega arith) in
        let s : q ≤ size x = omega (arith, h, Distinct-total x gs d j, ap (λ y. total y gs) e) in
        sym e ∙ ap (λ (y : Group K V). y.key) (In-reaching q x g gs j i s big one)
