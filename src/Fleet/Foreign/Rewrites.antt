-- ===== src/Fleet/Foreign/Rewrites.antt =====
-- src/fleet.rs: the loops that rewrite the relay's document in place.
use pulse_cutover.Prelude.{
  ℕ, ◌≡◌, ◌≢◌, refl, sym, ap, ◌∙◌, String, Bool, true, Option, none, some, List, [], ◌∷◌, map, ◌⊎◌,
  inl, inr, Bool-cases, Option-cases, find, map_or, and_then, map_option,
}
use pulse_cutover.Json.{Json, JsonLaws}
use pulse_cutover.Fleet.Foreign.{each, indexable, at_key, at_array}

pub and_then-some :
    {A B : Type 0} (o : Option A) (f : A → Option B) {b : B}
    → and_then o f ≡ some b
    → (a : A) × (o ≡ some a) × (f a ≡ some b)
and_then-some none f h = cc
and_then-some (some a) f h = (a, refl, h)

pub map_option-some :
    {A B : Type 0} (f : A → B) (o : Option A) {b : B}
    → map_option f o ≡ some b
    → (a : A) × (o ≡ some a) × (f a ≡ b)
map_option-some f none h = cc
map_option-some f (some a) h = (a, refl, cc h)

each-cons :
    {A : Type 0} (f : A → Option (A × ℕ)) (x : A) (xs ys : List A) (n : ℕ)
    → each f (x ∷ xs) ≡ some (ys, n)
    → (y : A) × (k : ℕ) × (zs : List A) × (l : ℕ) × (f x ≡ some (y, k))
      × (each f xs ≡ some (zs, l))
      × (ys ≡ y ∷ zs)
unfolding each
each-cons f x xs ys n h =
    let ((y, k), e, r) = and_then-some (f x) _ h in
    let ((zs, l), i, q) = map_option-some _ (each f xs) r in
    (y, k, zs, l, e, i, ap (λ (p : _ × _). p.0) (sym q))

-- What each change keeps of its element, the loop keeps of the list.
pub map-each :
    {A B : Type 0} (f : A → Option (A × ℕ)) (g : A → B)
    → ((x y : A) (k : ℕ) → f x ≡ some (y, k) → g y ≡ g x)
    → (xs ys : List A) (n : ℕ) → each f xs ≡ some (ys, n)
    → map g ys ≡ map g xs
unfolding each
map-each f g kept [] ys n h = let e : ys ≡ [] = cc h in ap (map g) e
map-each f g kept (x ∷ xs) ys n h =
    let (y, k, zs, l, e, i, p) = each-cons f x xs ys n h in
    rw p (cc (kept x y k e, map-each f g kept xs zs l i))

-- And so for the first element that a test finds.
pub find-each :
    {A B : Type 0} (f : A → Option (A × ℕ)) (found : A → Bool) (g : A → B) (d : B)
    → ((x y : A) (k : ℕ) → f x ≡ some (y, k) → (found y ≡ found x) × (found x ≡ true → g y ≡ g x))
    → (xs ys : List A) (n : ℕ) → each f xs ≡ some (ys, n)
    → map_or d g (find ys found) ≡ map_or d g (find xs found)
unfolding each
find-each f found g d kept [] ys n h =
    let e : ys ≡ [] = cc h in ap (λ zs. map_or d g (find zs found)) e
find-each f found g d kept (x ∷ xs) ys n h =
    let (y, k, zs, l, e, i, p) = each-cons f x xs ys n h in
    let (same, kept_found) = kept x y k e in
    rw p (elim (Bool-cases (found x)) [
      | inl t ↦ rw (t, same ∙ t) (kept_found t)
      | inr t ↦ rw (t, same ∙ t) (find-each f found g d kept xs zs l i)
    ])

module _ ⦃J : Json⦄ where
  open J use {Value, index, as_array, array, assign}

  -- The elements of the array at a key.
  abbrev pub items : String → Value → List Value
  items key v = map_or [] (λ xs. xs) (as_array (index v key))

  abbrev pub elements : Value → List Value
  elements a = map_or [] (λ xs. xs) (as_array a)

  -- What `at_array` does at its key.
  abbrev on_array : (Value → Option (Value × ℕ)) → Value → Option (Value × ℕ)
  on_array f a = elim (as_array a) [
    | none ↦ some (a, 0)
    | some xs ↦ map_option (λ (r : List Value × ℕ). (array r.0, r.1)) (each f xs)
  ]

  first_of :
      (a x : Value) (n : ℕ) → ◌≡◌ {A = Option (Value × ℕ)} (some (a, 0)) (some (x, n)) → x ≡ a
  first_of a x n q = cc q

  pub at_key-some :
      (key : String) (f : Value → Option (Value × ℕ)) (v w : Value) (n : ℕ)
      → at_key key f v ≡ some (w, n)
      → (x : Value) × (indexable v ≡ true) × (f (index v key) ≡ some (x, n)) × (w ≡ assign v key x)
  at_key-some key f v w n h = elim (Bool-cases (indexable v)) [
    | inl e ↦
        let ((x, k), i, q) = map_option-some _ (f (index v key)) (rw e at h) in
        (
          x,
          e,
          i ∙ ap (λ (m : ℕ). some (x, m)) (ap (λ (p : Value × ℕ). p.1) q),
          sym (ap (λ (p : Value × ℕ). p.0) q),
        )
    | inr e ↦ cc (rw e at h)
  ]

  -- An array changed element by element leaves the other entries, and is left or changed by the loop.
  pub record Changed (key : String) (f : Value → Option (Value × ℕ)) (v w : Value) : Type 0 where
    pub object : indexable v ≡ true
    pub others : (j : String) → j ≢ key → index w j ≡ index v j
    pub array_left :
        (items key w ≡ items key v) ⊎ ((k : ℕ) × (each f (items key v) ≡ some (items key w, k)))

module _ ⦃J : Json⦄ (laws : JsonLaws J) where
  open J use {Value, index, as_array, array, assign}

  on_array-some :
      (f : Value → Option (Value × ℕ)) (a x : Value) (n : ℕ)
      → on_array f a ≡ some (x, n)
      → (elements x ≡ elements a) ⊎ ((k : ℕ) × (each f (elements a) ≡ some (elements x, k)))
  on_array-some f a x n e = elim (Option-cases (as_array a)) [
    | inl z ↦ inl (ap elements (first_of a x n (rw (z, on_array) at e)))
    | inr (xs, z) ↦
        let ((ys, k), i, q) = map_option-some _ (each f xs) (rw (z, on_array) at e) in
        let r : as_array x ≡ some ys =
          ap as_array (sym (ap (λ (p : Value × ℕ). p.0) q)) ∙ laws.as_array-array ys in
        inr (k, rw (z, r) i)
  ]

  pub at_array-some :
      (key : String) (f : Value → Option (Value × ℕ)) (v w : Value) (n : ℕ)
      → at_array key f v ≡ some (w, n)
      → Changed key f v w
  at_array-some key f v w n h =
      let (x, o, e, p) = at_key-some key (on_array f) v w n h in
      let q : index w key ≡ x = ap (λ y. index y key) p ∙ laws.index-assign_self v x key o in
      record {
        object = o;
        others = λ j d. ap (λ y. index y j) p ∙ laws.index-assign_ne v x j key o d;
        array_left = elim (on_array-some f (index v key) x n e) [
          | inl same ↦ inl (ap elements q ∙ same)
          | inr (k, i) ↦ inr (k, i ∙ ap (λ y. some (elements y, k)) (sym q))
        ];
      }
