-- ===== src/Fleet/Groups.antt =====
-- src/fleet.rs, `unique_best`, and the `BTreeMap` in which `live_view` and `join_view` group members:
-- an association list in the order of its keys.
pub mod Laws
pub mod Counts
pub mod Gathered
pub mod Facts
use Prim.Native.Nat.{compare, Ordering}
use pulse_cutover.Prelude.{
  ℕ, ◌+◌, String, Bool, true, false, Option, none, some, List, [], ◌∷◌, map, length, leb, ltb,
  if◌then◌else◌, any, ◌||◌, map_or, first,
}

-- A group: its key, the members in it, and what else the code keeps of it.
pub record Group (K V : Type 0) : Type 0 where
  pub key : K
  pub members : List String
  pub value : V

-- The order of the keys.
pub record KeyOrder (K : Type 0) : Type 0 where
  pub cmp : K → K → Ordering
  pub same_key : K → K → Bool

abbrev pub is_gt : Ordering → Bool
is_gt Ordering.gt = true
is_gt _ = false

module _ {K V : Type 0} (o : KeyOrder K) where
  open o use {cmp, same_key}

  abbrev pub has_key : K → List (Group K V) → Bool
  has_key k gs = any gs (λ g. same_key g.key k)

  unfoldable pub insert_sorted : Group K V → List (Group K V) → List (Group K V)
  insert_sorted g [] = g ∷ []
  insert_sorted g (h ∷ hs) =
      let rest = insert_sorted g hs in if is_gt (cmp g.key h.key) then h ∷ rest else g ∷ h ∷ hs

  unfoldable pub update : K → (Group K V → Group K V) → List (Group K V) → List (Group K V)
  update k f [] = []
  update k f (g ∷ gs) = let rest = update k f gs in if same_key g.key k then f g ∷ gs else g ∷ rest

  -- `groups.entry(key).or_default()`, then the change `f` of what stands there.
  unfoldable pub entry_update :
      K → V → (Group K V → Group K V) → List (Group K V) → List (Group K V)
  entry_update k default f gs =
      if has_key k gs
      then update k f gs
      else insert_sorted (f (record { key = k; members = []; value = default })) gs

  -- A loop over the members that adds each one that counts to the group of its key.
  module _ {M X : Type 0} (contributes : M → Option (K × X)) (default : V)
      (add : M → X → Group K V → Group K V) where
    unfoldable pub gather_one : M → List (Group K V) → List (Group K V)
    gather_one m gs = elim (contributes m) [
      | none ↦ gs
      | some (key, x) ↦ entry_update key default (add m x) gs
    ]

    unfoldable pub gather : List M → List (Group K V) → List (Group K V)
    gather [] gs = gs
    gather (m ∷ ms) gs = gather ms (gather_one m gs)

module _ {K V : Type 0} where
  abbrev pub size : Group K V → ℕ
  size g = length g.members

  insert_by_size : Group K V → List (Group K V) → List (Group K V)
  insert_by_size g [] = g ∷ []
  insert_by_size g (h ∷ hs) =
      let rest = insert_by_size g hs in if leb (size h) (size g) then g ∷ h ∷ hs else h ∷ rest

  -- The stable `sort_by_key(|b| Reverse(b.1.len()))`.
  unfoldable pub sort_by_size : List (Group K V) → List (Group K V)
  unfolding insert_by_size
  sort_by_size [] = []
  sort_by_size (g ∷ gs) = insert_by_size g (sort_by_size gs)

  abbrev best_of : ℕ → List (Group K V) → Option (Group K V × Bool)
  best_of q [] = none
  best_of q (g ∷ gs) = some (g, ltb (map_or 0 size (first gs)) q)

  -- The largest group, and whether it is the only one that reaches `q`.
  unfoldable pub unique_best : List (Group K V) → ℕ → Option (Group K V × Bool)
  unfolding sort_by_size
  unique_best groups q = best_of q (sort_by_size groups)
