-- ===== src/Prelude/Decimal.antt =====
-- Texts that the code builds: decimal numbers, `join`, and the sorted order of texts.
use Prim.Native.Nat.{ℕ, zero, suc, ◌/◌, ◌%◌, ◌^◌, ◌<◌, ◌≤◌, Ordering}
use Prim.Native.String.{String, ◌++◌, char_at, compare}
use mathlib.Core.Path.{◌≡◌, refl}
use mathlib.Core.List.{List, [], ◌∷◌}
use mathlib.Core.Logic.{inl, inr}
use mathlib.Core.Bool.{true}
use native.Mathlib.Omega.{arith}
use pulse_cutover.Prelude.Tests.{ltb, u64_mod, Bool-cases, if◌then◌else◌}

-- `fuel` digits at most: twenty are enough for a `u64`.
digits : ℕ → ℕ → String → String
digits zero n s = s
digits (suc fuel) n s =
    let s' = String.◌∷◌ (char_at "0123456789" (n % 10)) s in
    let rest = digits fuel (n / 10) s' in if ltb n 10 then s' else rest

unfoldable pub show_u64 : ℕ → String
unfolding digits
show_u64 n = digits 20 n String.[]

unfoldable pub join : String → List String → String
join sep [] = ""
join sep (s ∷ []) = s
join sep (s ∷ t ∷ ts) = s ++ (sep ++ join sep (t ∷ ts))

insert_text : String → List String → List String
insert_text s [] = s ∷ []
insert_text s (t ∷ ts) = elim (compare s t) [ Ordering.gt ↦ t ∷ insert_text s ts | _ ↦ s ∷ t ∷ ts ]

unfoldable pub sort_texts : List String → List String
unfolding insert_text
sort_texts [] = []
sort_texts (s ∷ ss) = insert_text s (sort_texts ss)

largest_u64 : show_u64 18446744073709551615 ≡ "18446744073709551615"
unfolding show_u64
largest_u64 = refl

joined : join ", " (sort_texts ("c" ∷ "a" ∷ "b" ∷ [])) ≡ "a, b, c"
unfolding join sort_texts
joined = refl

-- With a digit for each power of ten the fuel does not cut a number short: more of it changes nothing.
digits_enough :
    (fuel more n : ℕ) (s : String)
    → n < 10 ^ suc fuel
    → fuel ≤ more
    → digits (suc more) n s ≡ digits (suc fuel) n s
unfolding digits
digits_enough zero more n s h l = let small : ltb n 10 ≡ true = ground (arith, h) in rw small refl
digits_enough (suc fuel) zero n s h l = absurd (omega (arith, l))
digits_enough (suc fuel) (suc more) n s h l = elim (Bool-cases (ltb n 10)) [
  | inl e ↦ rw e refl
  | inr e ↦ rw e (
      digits_enough fuel more (n / 10) (String.◌∷◌ (char_at "0123456789" (n % 10)) s)
        (omega (arith, h)) (omega (arith, l)))
]

-- Twenty digits are enough for every `u64`.
u64_digits : (more n : ℕ) → n < u64_mod → 19 ≤ more → digits (suc more) n String.[] ≡ show_u64 n
unfolding show_u64
u64_digits more n h l = digits_enough 19 more n String.[] (omega (arith, h)) l
