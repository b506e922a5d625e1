-- ===== src/Machine/Exec.antt =====
-- `&mut self` methods of src/machine.rs that return `Result<_, String>`. What was done before an error
-- stays done, so the state comes back beside the error too.
pub mod Along
pub mod Ensures
pub mod Fails
pub mod Returns
use pulse_cutover.Prelude.{String, Bool, true, false, Option, none, some, if◌then◌else◌}

pub data Result (A : Type 0) : Type 0 where
  ok : A → Result A
  err : String → Result A

abbrev pub Exec : Type 0 → Type 0 → Type 0
Exec S A = S → Result A × S

module _ {S A : Type 0} where
  pub pure : A → Exec S A
  pure a s = (ok a, s)

  pub raise : String → Exec S A
  raise e s = (err e, s)

  -- A result that is there already, with `?`.
  pub lift : Result A → Exec S A
  lift r s = (r, s)

  pub gets : (S → A) → Exec S A
  gets f s = (ok (f s), s)

  -- A call that is not followed by `?`: its result is a value.
  pub attempt : Exec S A → Exec S (Result A)
  attempt m s = let (r, s') = m s in (ok r, s')

module _ {S : Type 0} where
  pub modify : (S → S) → Exec S Unit
  modify f s = (ok tt, f s)

  abbrev pub when : Bool → Exec S Unit → Exec S Unit
  when b m = if b then m else pure tt

module _ {S A B : Type 0} where
  abbrev continue : Result A → (A → Exec S B) → Exec S B
  continue (ok a) f s = f a s
  continue (err e) f s = (err e, s)

  infixl 10 ◌>>=◌ ◌>>◌
  -- Opening this opens the actions above too.
  unfoldable pub ◌>>=◌ : Exec S A → (A → Exec S B) → Exec S B
  unfolding pure raise lift gets attempt modify
  ◌>>=◌ m f s = let (r, s') = m s in continue r f s'

  abbrev pub ◌>>◌ : Exec S A → Exec S B → Exec S B
  m >> n = m >>= λ _. n

  -- `match r { Ok(a) => f(a), Err(e) => g(e) }`.
  unfoldable pub on_result : Result A → (A → Exec S B) → (String → Exec S B) → Exec S B
  on_result (ok a) f g = f a
  on_result (err e) f g = g e

  -- `match o { None => m, Some(a) => f(a) }`.
  unfoldable pub on_option : Option A → Exec S B → (A → Exec S B) → Exec S B
  on_option none m f = m
  on_option (some a) m f = f a
