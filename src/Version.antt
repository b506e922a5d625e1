-- ===== src/Version.antt =====
-- Agent versions: `agent_honours_exit_marks` of src/fleet.rs, and the semver precedence of
-- src/producer_gate.rs. A text is walked as its code points; `u64::from_str`, `split`, `split_once`
-- and `trim` are the standard library's.
pub mod Order
use Prim.Native.Nat.{compare, Ordering}
use pulse_cutover.Prelude.{
  ℕ, ◌+◌, ◌*◌, ◌-◌, String, Bool, true, false, not, ◌&&◌, ◌||◌, Option, none, some, List, [], ◌∷◌,
  ltb, leb, nat_eq, if◌then◌else◌, u64_mod, codes, length, filter_map, is_empty, any, and_then,
  reverse, map_option, map,
}

abbrev pub Text : Type 0
Text = List ℕ

abbrev pub is_digit : ℕ → Bool
is_digit c = leb b'0' c && leb c b'9'

abbrev pub is_alphanumeric : ℕ → Bool
is_alphanumeric c = is_digit c || (leb b'a' c && leb c b'z') || (leb b'A' c && leb c b'Z')

-- `str::split_once` at one character.
unfoldable pub split_once : ℕ → Text → Option (Text × Text)
split_once sep [] = none
split_once sep (c ∷ cs) =
    let rest = map_option (λ (p : Text × Text). (c ∷ p.0, p.1)) (split_once sep cs) in
    if nat_eq c sep then some ([], cs) else rest

cons_head : ℕ → List Text → List Text
cons_head c [] = (c ∷ []) ∷ []
cons_head c (t ∷ ts) = (c ∷ t) ∷ ts

-- `str::split` at one character: never empty.
unfoldable pub split : ℕ → Text → List Text
unfolding cons_head
split sep [] = [] ∷ []
split sep (c ∷ cs) = let rest = split sep cs in if nat_eq c sep then [] ∷ rest else cons_head c rest

digits_from : ℕ → Text → Option ℕ
digits_from acc [] = some acc
digits_from acc (c ∷ cs) = elim (is_digit c && ltb (acc * 10 + (c - b'0')) u64_mod) [
  | true ↦ digits_from (acc * 10 + (c - b'0')) cs
  | false ↦ none
]

-- `u64::from_str`: one leading `+` is accepted, an empty text or an overflow is not.
unfoldable pub parse_u64 : Text → Option ℕ
unfolding digits_from
parse_u64 [] = none
parse_u64 (c ∷ cs) =
    if nat_eq c b'+'
    then (if is_empty cs then none else digits_from 0 cs)
    else digits_from 0 (c ∷ cs)

-- `str::strip_prefix`.
unfoldable pub strip_prefix : Text → Text → Option Text
strip_prefix [] s = some s
strip_prefix (p ∷ ps) [] = none
strip_prefix (p ∷ ps) (c ∷ cs) = let rest = strip_prefix ps cs in if nat_eq p c then rest else none

-- The core before the first `-`, and the pre-release text after it, if there is one.
abbrev pub core_and_pre : Text → Text × Option Text
core_and_pre v = elim (split_once b'-' v) [ some (c, p) ↦ (c, some p) | none ↦ (v, none) ]

abbrev pub then_cmp : Ordering → Ordering → Ordering
then_cmp Ordering.eq o = o
then_cmp Ordering.lt o = Ordering.lt
then_cmp Ordering.gt o = Ordering.gt

-- The rank of a release candidate; a release has the greatest.
unfoldable pub rc_rank : Option Text → Option ℕ
unfolding parse_u64 strip_prefix
rc_rank none = some (u64_mod - 1)
rc_rank (some p) = and_then (strip_prefix (codes "rc.") p) parse_u64

abbrev at_least_min : List ℕ → ℕ → Bool
at_least_min (a ∷ b ∷ c ∷ []) rc =
    elim (then_cmp (compare a 0)
      (then_cmp (compare b 5) (then_cmp (compare c 0) (compare rc 31)))) [
        | Ordering.lt ↦ false
        | _ ↦ true
      ]
at_least_min _ rc = false

unfoldable pub agent_honours_exit_marks : String → Bool
unfolding split_once split parse_u64 rc_rank
agent_honours_exit_marks v =
    let (core, pre) = core_and_pre (codes v) in
    let nums = filter_map (split b'.' core) parse_u64 in
    nat_eq (length nums) 3
    && nat_eq (length (split b'.' core)) 3
    && elim (rc_rank pre) [ none ↦ false | some rc ↦ at_least_min nums rc ]

-- A parsed version: the three numbers, and the pre-release identifiers.
pub record Version : Type 0 where
  pub core : List ℕ
  pub pre : List Text

-- The characters of the Unicode property White_Space.
is_white : ℕ → Bool
is_white c =
    (leb 9 c && leb c 13)
    || nat_eq c 32
    || nat_eq c 133
    || nat_eq c 160
    || nat_eq c 5760
    || (leb 8192 c && leb c 8202)
    || nat_eq c 8232
    || nat_eq c 8233
    || nat_eq c 8239
    || nat_eq c 8287
    || nat_eq c 12288

drop_while : (ℕ → Bool) → Text → Text
drop_while p [] = []
drop_while p (c ∷ cs) = let rest = drop_while p cs in if p c then rest else c ∷ cs

unfoldable pub trim : Text → Text
unfolding is_white drop_while
trim s = reverse (drop_while is_white (reverse (drop_while is_white s)))

-- The text before the first `sep`.
before : ℕ → Text → Text
before sep [] = []
before sep (c ∷ cs) = let rest = before sep cs in if nat_eq c sep then [] else c ∷ rest

all_some : List (Option ℕ) → Option (List ℕ)
all_some [] = some []
all_some (none ∷ os) = none
all_some (some n ∷ os) = map_option (λ (ns : List ℕ). n ∷ ns) (all_some os)

pre_ids : Option Text → Option (List Text)
unfolding split
pre_ids none = some []
pre_ids (some []) = none
pre_ids (some (c ∷ cs)) =
    if any (c ∷ cs) (λ b. not (is_alphanumeric b || nat_eq b b'.' || nat_eq b b'-'))
    then none
    else some (split b'.' (c ∷ cs))

core_numbers : Text → Option (List ℕ)
unfolding split parse_u64 all_some
core_numbers core = and_then (all_some (map parse_u64 (split b'.' core))) λ nums.
    if not (nat_eq (length nums) 3)
      || any (split b'.' core) (λ x. is_empty x || any x (λ b. not (is_digit b)))
    then none
    else some nums

unfoldable pub parse_codes : Text → Option Version
unfolding trim before drop_while split_once core_numbers pre_ids
parse_codes v =
    let v' = before b'+' (drop_while (λ c. nat_eq c b'v') (trim v)) in
    let (core, pre) = core_and_pre v' in
    and_then (core_numbers core)
      λ nums. map_option (λ ids. record { core = nums; pre = ids }) (pre_ids pre)

unfoldable pub parse_version : String → Option Version
unfolding parse_codes
parse_version v = parse_codes (codes v)

-- The lexicographic order of texts and of number lists.
unfoldable pub cmp_lists : List ℕ → List ℕ → Ordering
cmp_lists [] [] = Ordering.eq
cmp_lists [] (y ∷ ys) = Ordering.lt
cmp_lists (x ∷ xs) [] = Ordering.gt
cmp_lists (x ∷ xs) (y ∷ ys) = then_cmp (compare x y) (cmp_lists xs ys)

-- One pre-release identifier against another: numbers below texts.
unfoldable pub cmp_parsed : Option ℕ → Option ℕ → Text → Text → Ordering
unfolding cmp_lists
cmp_parsed (some i) (some j) x y = compare i j
cmp_parsed (some i) none x y = Ordering.lt
cmp_parsed none (some j) x y = Ordering.gt
cmp_parsed none none x y = cmp_lists x y

unfoldable pub cmp_ident : Text → Text → Ordering
unfolding parse_u64 cmp_parsed
cmp_ident x y = cmp_parsed (parse_u64 x) (parse_u64 y) x y

-- The loop over the zipped identifiers, then the number of identifiers.
unfoldable pub cmp_idents : List Text → List Text → Ordering
unfolding cmp_ident
cmp_idents [] [] = Ordering.eq
cmp_idents [] (y ∷ ys) = Ordering.lt
cmp_idents (x ∷ xs) [] = Ordering.gt
cmp_idents (x ∷ xs) (y ∷ ys) = then_cmp (cmp_ident x y) (cmp_idents xs ys)

-- A release stands above its pre-releases.
unfoldable pub cmp_pre : List Text → List Text → Ordering
unfolding cmp_idents
cmp_pre [] [] = Ordering.eq
cmp_pre [] (y ∷ ys) = Ordering.gt
cmp_pre (x ∷ xs) [] = Ordering.lt
cmp_pre (x ∷ xs) (y ∷ ys) = cmp_idents (x ∷ xs) (y ∷ ys)

unfoldable pub cmp_parsed_version : Version → Version → Ordering
unfolding cmp_lists cmp_pre
cmp_parsed_version a b = then_cmp (cmp_lists a.core b.core) (cmp_pre a.pre b.pre)

unfoldable pub cmp_version : String → String → Option Ordering
cmp_version a b =
    and_then (parse_version a) λ va. map_option (λ vb. cmp_parsed_version va vb) (parse_version b)

abbrev pub is_ge : Ordering → Bool
is_ge Ordering.lt = false
is_ge _ = true

-- An unparsable version is never at least anything.
unfoldable pub version_at_least : String → String → Bool
unfolding cmp_version
version_at_least v min = elim (cmp_version v min) [ none ↦ false | some o ↦ is_ge o ]
