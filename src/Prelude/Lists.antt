-- ===== src/Prelude/Lists.antt =====
-- Lists measured by native numbers, and Rust's iterator adaptors over Boolean tests.
pub mod Laws
use Prim.Native.Nat.{ℕ, suc, ◌+◌, ◌≤◌, ◌<◌}
use mathlib.Core.Path.{◌≡◌, refl}
use mathlib.Core.Logic.{◌⊎◌, inl, inr}
use mathlib.Core.Bool.{Bool, true, false, ◌&&◌, ◌||◌, not}
use mathlib.Core.Option.{Option, none, some}
use mathlib.Core.List.{List, [], ◌∷◌, ◌++◌, map}
use native.Mathlib.Omega.{arith}
use pulse_cutover.Prelude.Tests.{if◌then◌else◌, ltb, Bool-cases}
use pulse_cutover.Prelude.Options.{or_else}

module _ {ℓ} {A : Type ℓ} where
  abbrev pub length : List A → ℕ
  length [] = 0
  length (x ∷ xs) = suc (length xs)

  abbrev pub is_empty : List A → Bool
  is_empty [] = true
  is_empty (x ∷ xs) = false

  abbrev pub first : List A → Option A
  first [] = none
  first (x ∷ xs) = some x

  abbrev pub any : List A → (A → Bool) → Bool
  any [] p = false
  any (x ∷ xs) p = p x || any xs p

  abbrev pub find : List A → (A → Bool) → Option A
  find [] p = none
  find (x ∷ xs) p = if p x then some x else find xs p

  abbrev pub filter : List A → (A → Bool) → List A
  filter [] p = []
  filter (x ∷ xs) p = let rest = filter xs p in if p x then x ∷ rest else rest

  abbrev pub find_map {κ} : {B : Type κ} → List A → (A → Option B) → Option B
  find_map [] f = none
  find_map (x ∷ xs) f = or_else (f x) (find_map xs f)

  abbrev pub filter_map {κ} : {B : Type κ} → List A → (A → Option B) → List B
  filter_map [] f = []
  filter_map (x ∷ xs) f =
      let rest = filter_map xs f in elim (f x) [ none ↦ rest | some y ↦ y ∷ rest ]

  -- `min_by_key`: the first of the elements with the least key.
  abbrev pub min_by_key : List A → (A → ℕ) → Option A
  min_by_key [] key = none
  min_by_key (x ∷ xs) key = elim (min_by_key xs key) [
    | none ↦ some x
    | some y ↦ if ltb (key y) (key x) then some y else some x
  ]

  -- A predicate of every element, by recursion.
  abbrev pub All {κ} : (A → Type κ) → List A → Type κ
  All P [] = Unit
  All P (x ∷ xs) = P x × All P xs

-- Membership, by recursion.
abbrev pub In : {A : Type 0} → A → List A → Type 0
In a [] = ⊥
In a (x ∷ xs) = (a ≡ x) ⊎ In a xs
