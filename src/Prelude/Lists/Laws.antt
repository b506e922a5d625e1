-- ===== src/Prelude/Lists/Laws.antt =====
-- Laws of the adaptors: what a filter keeps, what a search that finds nothing says, membership.
use Prim.Native.Nat.{suc, ◌≤◌}
use mathlib.Core.Path.{◌≡◌, refl, sym, ◌∙◌, ap, subst}
use mathlib.Core.Logic.{◌⊎◌, inl, inr}
use mathlib.Core.Bool.{Bool, true, false}
use mathlib.Core.Option.{Option, none, some}
use mathlib.Core.List.{List, [], ◌∷◌, map}
use native.Mathlib.Omega.{arith}
use pulse_cutover.Prelude.Tests.{Bool-cases}
use pulse_cutover.Prelude.Options.{Option-cases}
use pulse_cutover.Prelude.Lists.{
  length, any, filter, filter_map, find_map, All, In, first, is_empty,
}

module _ {ℓ} {A : Type ℓ} where
  pub length-filter_mono :
      (xs : List A) (p q : A → Bool)
      → ((x : A) → p x ≡ true → q x ≡ true)
      → length (filter xs p) ≤ length (filter xs q)
  length-filter_mono [] p q h = omega arith
  length-filter_mono (x ∷ xs) p q h = elim (Bool-cases (p x)) [
    | inl e ↦ rw (e, h x e) (omega (arith, length-filter_mono xs p q h))
    | inr e ↦ rw e (ground (arith, length-filter_mono xs p q h))
  ]

  pub length-map {κ} : {B : Type κ} (xs : List A) (f : A → B) → length (map f xs) ≡ length xs
  length-map [] f = refl
  length-map (x ∷ xs) f = ap suc (length-map xs f)

  pub length-filter-le : (xs : List A) (p : A → Bool) → length (filter xs p) ≤ length xs
  length-filter-le [] p = omega arith
  length-filter-le (x ∷ xs) p = ground (arith, length-filter-le xs p)

  pub find_map-none {κ} :
      {B : Type κ} (xs : List A) (f : A → Option B)
      → find_map xs f ≡ none
      → All (λ x. f x ≡ none) xs
  find_map-none [] f h = tt
  find_map-none (x ∷ xs) f h = elim (Option-cases (f x)) [
    | inl e ↦ (e, find_map-none xs f (rw e at h))
    | inr (y, e) ↦ cc (e, h)
  ]

  pub find_map_all_none {κ} :
      {B : Type κ} (xs : List A) (f : A → Option B)
      → All (λ x. f x ≡ none) xs
      → find_map xs f ≡ none
  find_map_all_none [] f h = refl
  find_map_all_none (x ∷ xs) f h = rw h.0 (find_map_all_none xs f h.1)

  pub All-map {κ μ} :
      (P : A → Type κ) (Q : A → Type μ) (xs : List A) → ((x : A) → P x → Q x) → All P xs → All Q xs
  All-map P Q [] f h = tt
  All-map P Q (x ∷ xs) f h = (f x h.0, All-map P Q xs f h.1)

  pub All-zip {κ μ} :
      (P : A → Type κ) (Q : A → Type μ) (xs : List A)
      → All P xs
      → All Q xs
      → All (λ x. P x × Q x) xs
  All-zip P Q [] h k = tt
  All-zip P Q (x ∷ xs) h k = ((h.0, k.0), All-zip P Q xs h.1 k.1)

module _ {A : Type 0} where
  pub All-In : (P : A → Type 0) (xs : List A) (x : A) → All P xs → In x xs → P x
  All-In P [] x h i = absurd i
  All-In P (y ∷ ys) x h (inl e) = subst P (sym e) h.0
  All-In P (y ∷ ys) x h (inr i) = All-In P ys x h.1 i

  pub In-map : {B : Type 0} (f : A → B) (xs : List A) (x : A) → In x xs → In (f x) (map f xs)
  In-map f [] x i = absurd i
  In-map f (y ∷ ys) x (inl e) = inl (ap f e)
  In-map f (y ∷ ys) x (inr i) = inr (In-map f ys x i)

  pub In-filter : (p : A → Bool) (xs : List A) (x : A) → In x xs → p x ≡ true → In x (filter xs p)
  In-filter p [] x i h = absurd i
  In-filter p (y ∷ ys) x (inl e) h = let k : p y ≡ true = ap p (sym e) ∙ h in rw k (inl e)
  In-filter p (y ∷ ys) x (inr i) h = elim (Bool-cases (p y)) [
    | inl k ↦ rw k (inr (In-filter p ys x i h))
    | inr k ↦ rw k (In-filter p ys x i h)
  ]

  pub filter-In : (p : A → Bool) (xs : List A) (x : A) → In x (filter xs p) → In x xs × (p x ≡ true)
  filter-In p [] x i = absurd i
  filter-In p (y ∷ ys) x i = elim (Bool-cases (p y)) [
    | inl k ↦
        let j : (x ≡ y) ⊎ In x (filter ys p) = rw k at i in
        elim j [
          | inl e ↦ (inl e, ap p e ∙ k)
          | inr j ↦ (inr (filter-In p ys x j).0, (filter-In p ys x j).1)
        ]
    | inr k ↦ let r = filter-In p ys x (rw k at i) in (inr r.0, r.1)
  ]

  pub any-In : (p : A → Bool) (xs : List A) → any xs p ≡ true → (x : A) × In x xs × (p x ≡ true)
  any-In p [] h = cc
  any-In p (y ∷ ys) h = elim (Bool-cases (p y)) [
    | inl k ↦ (y, inl refl, k)
    | inr k ↦ let r = any-In p ys (rw k at h) in (r.0, inr r.1, r.2)
  ]

  pub In-any : (p : A → Bool) (xs : List A) (x : A) → In x xs → p x ≡ true → any xs p ≡ true
  In-any p [] x i h = absurd i
  In-any p (y ∷ ys) x (inl e) h = rw (ap p (sym e) ∙ h)
  In-any p (y ∷ ys) x (inr i) h = ground (arith, In-any p ys x i h)

  pub In-first : (xs : List A) (x : A) → In x xs → (y : A) × (first xs ≡ some y)
  In-first [] x i = absurd i
  In-first (y ∷ ys) x i = (y, refl)

  pub In-is_empty : (xs : List A) (x : A) → In x xs → is_empty xs ≡ false
  In-is_empty [] x i = absurd i
  In-is_empty (y ∷ ys) x i = refl

pub filter_map-nil :
    {A B : Type 0} (xs : List A) (f : A → Option B)
    → filter_map xs f ≡ []
    → All (λ x. f x ≡ none) xs
filter_map-nil [] f h = tt
filter_map-nil (x ∷ xs) f h = elim (Option-cases (f x)) [
  | inl e ↦ (e, filter_map-nil xs f (rw (e, filter_map) at h))
  | inr (y, e) ↦ absurd (cc (e, h))
]
