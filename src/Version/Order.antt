-- ===== src/Version/Order.antt =====
-- src/producer_gate.rs, `cmp_version` and `version_at_least` as an order.
use Prim.Native.Nat.compare
use Prim.Native.Nat.{compare, Ordering}
use pulse_cutover.Prelude.{
  ℕ, zero, suc, ◌≡◌, refl, sym, ap, ◌∙◌, subst, String, true, false, Option, none, some, List, [],
  ◌∷◌, is_some, Option-cases, inl, inr,
}
use pulse_cutover.Version.{
  Text, Version, then_cmp, parse_u64, parse_version, cmp_lists, cmp_parsed, cmp_ident, cmp_idents,
  cmp_pre, cmp_parsed_version, cmp_version, is_ge, version_at_least,
}

-- How two comparisons in a row compose.
abbrev Step : Ordering → Ordering → Ordering → Type 0
Step Ordering.eq o c = c ≡ o
Step Ordering.lt Ordering.eq c = c ≡ Ordering.lt
Step Ordering.lt Ordering.lt c = c ≡ Ordering.lt
Step Ordering.lt Ordering.gt c = Unit
Step Ordering.gt Ordering.eq c = c ≡ Ordering.gt
Step Ordering.gt Ordering.gt c = c ≡ Ordering.gt
Step Ordering.gt Ordering.lt c = Unit

Step-any_lt : (o : Ordering) → Step o Ordering.lt Ordering.lt
Step-any_lt Ordering.eq = refl
Step-any_lt Ordering.lt = refl
Step-any_lt Ordering.gt = tt

Step-any_gt : (o : Ordering) → Step o Ordering.gt Ordering.gt
Step-any_gt Ordering.eq = refl
Step-any_gt Ordering.lt = tt
Step-any_gt Ordering.gt = refl

Step-lt_any : (o : Ordering) → Step Ordering.lt o Ordering.lt
Step-lt_any Ordering.eq = refl
Step-lt_any Ordering.lt = refl
Step-lt_any Ordering.gt = tt

Step-gt_any : (o : Ordering) → Step Ordering.gt o Ordering.gt
Step-gt_any Ordering.eq = refl
Step-gt_any Ordering.gt = refl
Step-gt_any Ordering.lt = tt

Step-then_cmp :
    (a b c a' b' c' : Ordering)
    → Step a b c
    → Step a' b' c'
    → Step (then_cmp a a') (then_cmp b b') (then_cmp c c')
Step-then_cmp Ordering.eq Ordering.eq c a' b' c' s t =
    subst (λ o. Step a' b' (then_cmp o c')) (sym s) t
Step-then_cmp Ordering.eq Ordering.lt c a' b' c' s t =
    subst (λ o. Step a' Ordering.lt (then_cmp o c')) (sym s) (Step-any_lt a')
Step-then_cmp Ordering.eq Ordering.gt c a' b' c' s t =
    subst (λ o. Step a' Ordering.gt (then_cmp o c')) (sym s) (Step-any_gt a')
Step-then_cmp Ordering.lt Ordering.eq c a' b' c' s t =
    subst (λ o. Step Ordering.lt b' (then_cmp o c')) (sym s) (Step-lt_any b')
Step-then_cmp Ordering.lt Ordering.lt c a' b' c' s t =
    subst (λ o. Step Ordering.lt Ordering.lt (then_cmp o c')) (sym s) refl
Step-then_cmp Ordering.lt Ordering.gt c a' b' c' s t = tt
Step-then_cmp Ordering.gt Ordering.eq c a' b' c' s t =
    subst (λ o. Step Ordering.gt b' (then_cmp o c')) (sym s) (Step-gt_any b')
Step-then_cmp Ordering.gt Ordering.gt c a' b' c' s t =
    subst (λ o. Step Ordering.gt Ordering.gt (then_cmp o c')) (sym s) refl
Step-then_cmp Ordering.gt Ordering.lt c a' b' c' s t = tt

Step-compare : (a b c : ℕ) → Step (compare a b) (compare b c) (compare a c)
Step-compare zero zero c = refl
Step-compare zero (suc b) zero = rw (compare.zero-suc b, compare.suc-zero b) tt
Step-compare zero (suc b) (suc c) =
    rw (compare.zero-suc b, compare.zero-suc c) (Step-lt_any (compare (suc b) (suc c)))
Step-compare (suc a) zero zero = rw (compare.suc-zero a) refl
Step-compare (suc a) zero (suc c) = rw (compare.suc-zero a, compare.zero-suc c) tt
Step-compare (suc a) (suc b) zero =
    rw (compare.suc-zero b, compare.suc-zero a) (Step-any_gt (compare (suc a) (suc b)))
Step-compare (suc a) (suc b) (suc c) =
    rw (compare.suc-suc a b, compare.suc-suc b c, compare.suc-suc a c) (Step-compare a b c)

Step-cmp_lists : (x y z : List ℕ) → Step (cmp_lists x y) (cmp_lists y z) (cmp_lists x z)
unfolding cmp_lists
Step-cmp_lists [] [] z = refl
Step-cmp_lists [] (b ∷ y) [] = tt
Step-cmp_lists [] (b ∷ y) (c ∷ z) = Step-lt_any (then_cmp (compare b c) (cmp_lists y z))
Step-cmp_lists (a ∷ x) [] [] = refl
Step-cmp_lists (a ∷ x) [] (c ∷ z) = tt
Step-cmp_lists (a ∷ x) (b ∷ y) [] = Step-any_gt (then_cmp (compare a b) (cmp_lists x y))
Step-cmp_lists (a ∷ x) (b ∷ y) (c ∷ z) =
    Step-then_cmp (compare a b) (compare b c) (compare a c) _ _ _ (Step-compare a b c)
      (Step-cmp_lists x y z)

Step-cmp_parsed :
    (i j k : Option ℕ) (x y z : Text)
    → Step (cmp_parsed i j x y) (cmp_parsed j k y z) (cmp_parsed i k x z)
unfolding cmp_parsed
Step-cmp_parsed (some i) (some j) (some k) x y z = Step-compare i j k
Step-cmp_parsed (some i) (some j) none x y z = Step-any_lt (compare i j)
Step-cmp_parsed (some i) none (some k) x y z = tt
Step-cmp_parsed (some i) none none x y z = Step-lt_any (cmp_lists y z)
Step-cmp_parsed none (some j) (some k) x y z = Step-gt_any (compare j k)
Step-cmp_parsed none (some j) none x y z = tt
Step-cmp_parsed none none (some k) x y z = Step-any_gt (cmp_lists x y)
Step-cmp_parsed none none none x y z = Step-cmp_lists x y z

Step-cmp_idents : (x y z : List Text) → Step (cmp_idents x y) (cmp_idents y z) (cmp_idents x z)
unfolding cmp_idents
Step-cmp_idents [] [] z = refl
Step-cmp_idents [] (b ∷ y) [] = tt
Step-cmp_idents [] (b ∷ y) (c ∷ z) = Step-lt_any (then_cmp (cmp_ident b c) (cmp_idents y z))
Step-cmp_idents (a ∷ x) [] [] = refl
Step-cmp_idents (a ∷ x) [] (c ∷ z) = tt
Step-cmp_idents (a ∷ x) (b ∷ y) [] = Step-any_gt (then_cmp (cmp_ident a b) (cmp_idents x y))
Step-cmp_idents (a ∷ x) (b ∷ y) (c ∷ z) =
    Step-then_cmp (cmp_ident a b) (cmp_ident b c) (cmp_ident a c) _ _ _
      (Step-cmp_parsed (parse_u64 a) (parse_u64 b) (parse_u64 c) a b c) (Step-cmp_idents x y z)

Step-cmp_pre : (x y z : List Text) → Step (cmp_pre x y) (cmp_pre y z) (cmp_pre x z)
unfolding cmp_pre
Step-cmp_pre [] [] z = refl
Step-cmp_pre [] (b ∷ y) [] = tt
Step-cmp_pre [] (b ∷ y) (c ∷ z) = Step-gt_any (cmp_idents (b ∷ y) (c ∷ z))
Step-cmp_pre (a ∷ x) [] [] = refl
Step-cmp_pre (a ∷ x) [] (c ∷ z) = tt
Step-cmp_pre (a ∷ x) (b ∷ y) [] = Step-any_lt (cmp_idents (a ∷ x) (b ∷ y))
Step-cmp_pre (a ∷ x) (b ∷ y) (c ∷ z) = Step-cmp_idents (a ∷ x) (b ∷ y) (c ∷ z)

Step-cmp_parsed_version :
    (a b c : Version)
    → Step (cmp_parsed_version a b) (cmp_parsed_version b c) (cmp_parsed_version a c)
unfolding cmp_parsed_version
Step-cmp_parsed_version a b c =
    Step-then_cmp (cmp_lists a.core b.core) (cmp_lists b.core c.core) (cmp_lists a.core c.core) _ _
      _ (Step-cmp_lists a.core b.core c.core) (Step-cmp_pre a.pre b.pre c.pre)

is_ge_trans : (a b c : Ordering) → Step a b c → is_ge a ≡ true → is_ge b ≡ true → is_ge c ≡ true
is_ge_trans Ordering.eq b c s h k = ap is_ge s ∙ k
is_ge_trans Ordering.lt b c s h k = cc
is_ge_trans Ordering.gt Ordering.eq c s h k = ap is_ge s
is_ge_trans Ordering.gt Ordering.gt c s h k = ap is_ge s
is_ge_trans Ordering.gt Ordering.lt c s h k = cc

at_least-parsed :
    (a b : String)
    → version_at_least a b ≡ true
    → (va : Version) × (vb : Version) × (parse_version a ≡ some va)
      × (parse_version b ≡ some vb)
      × (is_ge (cmp_parsed_version va vb) ≡ true)
unfolding version_at_least
at_least-parsed a b h = elim (Option-cases (parse_version a)) [
  | inl e ↦ cc (rw (e, cmp_version, version_at_least) at h)
  | inr (va, e) ↦ elim (Option-cases (parse_version b)) [
    | inl f ↦ cc (rw (e, f, cmp_version, version_at_least) at h)
    | inr (vb, f) ↦ (va, vb, e, f, rw (e, f, cmp_version, version_at_least) at h)
  ]
]

-- A version that is at least another is at least all that the other is at least.
pub version_at_least_trans :
    (a b c : String)
    → version_at_least a b ≡ true
    → version_at_least b c ≡ true
    → version_at_least a c ≡ true
unfolding version_at_least
version_at_least_trans a b c h k =
    let (va, vb, ea, eb, ge1) = at_least-parsed a b h in
    let (vb', vc, eb', ec, ge2) = at_least-parsed b c k in
    let same : vb' ≡ vb = cc (eb, eb') in
    rw (ea, ec, cmp_version, version_at_least)
      (is_ge_trans _ _ _ (Step-cmp_parsed_version va vb vc) ge1
        (subst (λ v. is_ge (cmp_parsed_version v vc) ≡ true) same ge2))

compare_self : (n : ℕ) → compare n n ≡ Ordering.eq
compare_self zero = refl
compare_self (suc n) = compare.suc-suc n n ∙ compare_self n

cmp_lists_self : (x : List ℕ) → cmp_lists x x ≡ Ordering.eq
unfolding cmp_lists
cmp_lists_self [] = refl
cmp_lists_self (a ∷ x) = rw (compare_self a) (cmp_lists_self x)

cmp_parsed_self : (i : Option ℕ) (x : Text) → cmp_parsed i i x x ≡ Ordering.eq
unfolding cmp_parsed
cmp_parsed_self none x = cmp_lists_self x
cmp_parsed_self (some i) x = compare_self i

cmp_idents_self : (x : List Text) → cmp_idents x x ≡ Ordering.eq
unfolding cmp_idents
cmp_idents_self [] = refl
cmp_idents_self (a ∷ x) =
    ap (λ o. then_cmp o (cmp_idents x x)) (cmp_parsed_self (parse_u64 a) a) ∙ cmp_idents_self x

cmp_pre_self : (x : List Text) → cmp_pre x x ≡ Ordering.eq
unfolding cmp_pre
cmp_pre_self [] = refl
cmp_pre_self (a ∷ x) = cmp_idents_self (a ∷ x)

cmp_parsed_version_self : (v : Version) → cmp_parsed_version v v ≡ Ordering.eq
unfolding cmp_parsed_version
cmp_parsed_version_self v = rw (cmp_lists_self v.core) (cmp_pre_self v.pre)

below_above : (a b : Ordering) → Step a b Ordering.eq → is_ge a ≡ false → is_ge b ≡ true
below_above Ordering.eq b s h = cc
below_above Ordering.gt b s h = cc
below_above Ordering.lt Ordering.gt s h = refl
below_above Ordering.lt Ordering.eq s h = refl
below_above Ordering.lt Ordering.lt s h = absurd (eq-ne-lt s)
  where
    eq-ne-lt : Ordering.eq ≡ Ordering.lt → ⊥
    eq-ne-lt p = cc p

-- Of two versions that parse, one is at least the other.
pub version_at_least_total :
    (a b : String)
    → is_some (parse_version a) ≡ true
    → is_some (parse_version b) ≡ true
    → version_at_least a b ≡ false
    → version_at_least b a ≡ true
unfolding version_at_least
version_at_least_total a b pa pb h = elim (Option-cases (parse_version a)) [
  | inl e ↦ cc (rw e at pa)
  | inr (va, e) ↦ elim (Option-cases (parse_version b)) [
    | inl f ↦ cc (rw f at pb)
    | inr (vb, f) ↦
        rw (e, f, cmp_version, version_at_least)
          (below_above (cmp_parsed_version va vb) _
            (subst (Step (cmp_parsed_version va vb) (cmp_parsed_version vb va))
              (cmp_parsed_version_self va) (Step-cmp_parsed_version va vb va))
            (rw (e, f, cmp_version, version_at_least) at h))
  ]
]
