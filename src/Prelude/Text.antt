-- ===== src/Prelude/Text.antt =====
-- The methods of Rust's `str` that the code calls, over the native texts.
use Prim.Native.Nat.{ℕ, ◌-◌}
use Prim.Native.Char.{Char, code}
use Prim.Native.String.{String, char_at}
use mathlib.Core.Path.{◌≡◌, refl}
use mathlib.Core.Bool.{Bool, true, false, ◌&&◌, ◌||◌}
use mathlib.Core.List.{List, [], ◌∷◌, ◌++◌}
use native.Mathlib.Omega.{arith}
use text.Mathlib.Text.{◌==◌}
use text.Mathlib.TextPositions.{eq_refl}
use pulse_cutover.Prelude.Tests.{leb, if◌then◌else◌}

-- The code points of a text.
abbrev pub codes : String → List ℕ
codes String.[] = []
codes (String.◌∷◌ c s) = code c ∷ codes s

lower_char : Char → Char
lower_char c =
    if leb b'A' (code c) && leb (code c) b'Z'
    then char_at "abcdefghijklmnopqrstuvwxyz" (code c - b'A')
    else c

unfoldable pub to_ascii_lowercase : String → String
unfolding lower_char
to_ascii_lowercase String.[] = String.[]
to_ascii_lowercase (String.◌∷◌ c s) = String.◌∷◌ (lower_char c) (to_ascii_lowercase s)

unfoldable pub eq_ignore_ascii_case : String → String → Bool
unfolding to_ascii_lowercase
eq_ignore_ascii_case s t = to_ascii_lowercase s == to_ascii_lowercase t

pub eq_ignore_ascii_case_refl : (s : String) → eq_ignore_ascii_case s s ≡ true
unfolding eq_ignore_ascii_case
eq_ignore_ascii_case_refl s = eq_refl (to_ascii_lowercase s)

upper_and_lower : eq_ignore_ascii_case "AbZ-9" "aBz-9" ≡ true
unfolding eq_ignore_ascii_case
upper_and_lower = refl

-- Membership in a list of texts (`contains`).
abbrev pub contains : List String → String → Bool
contains [] s = false
contains (t ∷ ts) s = (t == s) || contains ts s

pub contains-append :
    (xs ys : List String) (n : String) → contains xs n ≡ true → contains (xs ++ ys) n ≡ true
contains-append [] ys n h = cc h
contains-append (x ∷ xs) ys n h = ground (arith, h, contains-append xs ys n)

pub contains-append_later :
    (xs ys : List String) (n : String) → contains ys n ≡ true → contains (xs ++ ys) n ≡ true
contains-append_later [] ys n h = h
contains-append_later (x ∷ xs) ys n h = ground (arith, contains-append_later xs ys n h)

pub contains-first : (xs : List String) (n : String) → contains (n ∷ xs) n ≡ true
contains-first xs n = let k = eq_refl n in ground (arith, k)
