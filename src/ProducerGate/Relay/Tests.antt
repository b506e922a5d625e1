-- ===== src/ProducerGate/Relay/Tests.antt =====
-- src/producer_gate.rs: the tests behind each lack.
use pulse_cutover.Prelude.{
  ℕ, ◌≤◌, ◌≡◌, refl, ap, String, Bool, true, false, not, Option, none, some, List, [], ◌∷◌, ◌++◌,
  filter_map, is_empty, is_some_and, is_none_or, map_option, ltb, All, arith, eq_iff,
}
use pulse_cutover.Fleet.Reports.{is_text, is_num}
use pulse_cutover.ProducerGate.Relay.{Lack, lack_if}

pub lack_if-nil :
    (test : Bool) (l : Lack) (rest : List Lack)
    → (lack_if test l ++ rest) ≡ []
    → (test ≡ false) × (rest ≡ [])
lack_if-nil true l rest h = cc
lack_if-nil false l rest h = (refl, h)

pub last_lack : (test : Bool) (l : Lack) → lack_if test l ≡ [] → test ≡ false
last_lack true l h = cc
last_lack false l h = refl

pub is_empty-nil : {A : Type 0} (xs : List A) → is_empty xs ≡ true → xs ≡ []
is_empty-nil [] h = refl
is_empty-nil (x ∷ xs) h = cc

pub not-false : (b : Bool) → not b ≡ false → b ≡ true
not-false b h = ground arith

pub some_and :
    {A : Type 0} (o : Option A) (p : A → Bool)
    → is_some_and o p ≡ true
    → (a : A) × (o ≡ some a) × (p a ≡ true)
some_and none p h = cc
some_and (some a) p h = (a, refl, h)

pub text_eq : (o : Option String) (t : String) → is_text o t ≡ true → o ≡ some t
text_eq none t h = cc
text_eq (some s) t h = ap some ((eq_iff s t).0 h)

pub num_eq : (o : Option ℕ) (n : ℕ) → is_num o n ≡ true → o ≡ some n
num_eq none n h = cc
num_eq (some m) n h = ground arith

pub fresh_age :
    (o : Option ℕ) (max : ℕ)
    → is_none_or o (λ a. ltb max a) ≡ false
    → (a : ℕ) × (o ≡ some a) × (a ≤ max)
fresh_age none max h = cc
fresh_age (some a) max h = (a, refl, ground arith)

pub nil-lack_if :
    (test : Bool) (l : Lack) (rest : List Lack)
    → test ≡ false
    → rest ≡ []
    → (lack_if test l ++ rest) ≡ []
nil-lack_if true l rest h k = cc
nil-lack_if false l rest h k = k

pub nil-last_lack : (test : Bool) (l : Lack) → test ≡ false → lack_if test l ≡ []
nil-last_lack true l h = cc
nil-last_lack false l h = refl

pub not-true-false : (b : Bool) → b ≡ true → not b ≡ false
not-true-false b h = ground arith

pub eq_text : (o : Option String) (t : String) → o ≡ some t → is_text o t ≡ true
eq_text o t h = rw h ((eq_iff t t).1 refl)

pub eq_num : (o : Option ℕ) (n : ℕ) → o ≡ some n → is_num o n ≡ true
eq_num o n h = rw h (ground arith)

pub and_some :
    {A : Type 0} (o : Option A) (p : A → Bool) {a : A}
    → o ≡ some a
    → p a ≡ true
    → is_some_and o p ≡ true
and_some o p h k = rw h k

pub nil-filter_map :
    {A B : Type 0} (xs : List A) (f : A → Option B)
    → All (λ x. f x ≡ none) xs
    → filter_map xs f ≡ []
nil-filter_map [] f h = refl
nil-filter_map (x ∷ xs) f h = rw (h.0, filter_map) (nil-filter_map xs f h.1)

pub map_option-none : {A B : Type 0} (f : A → B) (o : Option A) → map_option f o ≡ none → o ≡ none
map_option-none f none h = refl
map_option-none f (some a) h = cc

pub map_none : {A B : Type 0} (f : A → B) {o : Option A} → o ≡ none → map_option f o ≡ none
map_none f h = rw h
