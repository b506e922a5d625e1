-- ===== src/Fleet/Result.antt =====
-- src/fleet.rs: `Result<_, String>`. Each text of an error is a constructor with the parts it names.
use pulse_cutover.Prelude.{ℕ, String, Bool, Option, ◌≡◌, refl, List}
use pulse_cutover.Fleet.Members.{PastCreation}

pub data Refusal : Type 0 where
  -- marks_trusted, marks_not_lost
  marks_regressed marks_unserved marks_incomplete marks_unidentified : Refusal
  marks_went_back : String → ℕ → String → ℕ → Refusal
  -- resume_guard
  no_roster_or_quorum relay_silent own_beacon_not_visible : Refusal
  other_h_past_creation : String → String → Refusal
  reported_past_creation : String → PastCreation → Refusal
  unreported identity_conflicted : String → Refusal
  stale_report : String → ℕ → Refusal
  past_creation : String → String → Refusal
  quorum_may_have_verified : List String → ℕ → Refusal
  quorum_in_ceremony : List String → ℕ → Refusal
  -- join_view
  no_live_member split_quorum : Refusal
  too_few_live : List String → ℕ → Refusal
  evidence_differs : List (String × String) → Refusal

-- Rust's `Result`, with `?` as bind.
pub data Result {κ} (T : Type κ) : Type κ where
  ok : T → Result T
  err : Refusal → Result T

infixl 5 ◌>>=◌ ◌>>◌
abbrev pub ◌>>=◌ {κ μ} : {T : Type κ} {U : Type μ} → Result T → (T → Result U) → Result U
err refusal >>= next = err refusal
ok value >>= next = next value

abbrev pub ◌>>◌ {μ} : {U : Type μ} → Result (Unit {0}) → Result U → Result U
check >> next = check >>= λ done. next

-- `if test { return Err(e) }`.
abbrev pub refuse_if : Bool → Refusal → Result (Unit {0})
refuse_if Bool.true e = err e
refuse_if Bool.false e = ok tt

abbrev pub is_err {ℓ} : {A : Type ℓ} → Result A → Bool
is_err (ok a) = Bool.false
is_err (err e) = Bool.true

abbrev pub err_of {ℓ} : {A : Type ℓ} → Result A → Option Refusal
err_of (ok a) = Option.none
err_of (err e) = Option.some e

pub >>=-eq-ok {κ μ} :
    {T : Type κ} {U : Type μ} (r : Result T) (next : T → Result U) {u : U}
    → (r >>= next) ≡ ok u
    → (t : T) × (r ≡ ok t) × (next t ≡ ok u)
>>=-eq-ok (err refusal) next h = cc
>>=-eq-ok (ok value) next h = (value, refl, h)

pub refuse_if-eq-ok {ℓ} :
    {B : Type ℓ} (test : Bool) (e : Refusal) (k : Result B) {b : B}
    → (refuse_if test e >> k) ≡ ok b
    → (test ≡ Bool.false) × (k ≡ ok b)
refuse_if-eq-ok Bool.true e k h = cc
refuse_if-eq-ok Bool.false e k h = (refl, h)

pub eq-ok_of_not_err {ℓ} :
    {A : Type ℓ} (m : Result A) → is_err m ≡ Bool.false → (a : A) × (m ≡ ok a)
eq-ok_of_not_err (ok a) h = (a, refl)
eq-ok_of_not_err (err e) h = cc
