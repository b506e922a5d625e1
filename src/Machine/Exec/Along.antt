-- ===== src/Machine/Exec/Along.antt =====
-- What holds between the states before and after an action, one rule for each way to build an action.
use pulse_cutover.Prelude.{String, Bool, true, false, Option, none, some, ◌≡◌, refl, if◌then◌else◌}
use pulse_cutover.Machine.Exec.{
  Exec, Result, ok, err, pure, raise, lift, gets, attempt, modify, ◌>>=◌, on_result, on_option,
}

-- A reflexive and transitive relation of states.
pub record Preorder {S : Type 0} (R : S → S → Type 0) : Type 0 where
  pub same : (s : S) → R s s
  pub after : {s t u : S} → R s t → R t u → R s u

-- Whether the action returns or fails, its states are related.
pub record Along {S A : Type 0} (R : S → S → Type 0) (m : Exec S A) : Type 0 where
  pub at : (s : S) → R s (m s).1

module _ {S : Type 0} {R : S → S → Type 0} ⦃P : Preorder R⦄ where
  pub Along-pure : {A : Type 0} (a : A) → Along R (pure a)
  unfolding pure
  Along-pure a = record { at = λ s. P.same s }

  pub Along-raise : {A : Type 0} (e : String) → Along R (raise {A = A} e)
  unfolding raise
  Along-raise e = record { at = λ s. P.same s }

  pub Along-lift : {A : Type 0} (r : Result A) → Along R (lift r)
  unfolding lift
  Along-lift r = record { at = λ s. P.same s }

  pub Along-gets : {A : Type 0} (f : S → A) → Along R (gets f)
  unfolding gets
  Along-gets f = record { at = λ s. P.same s }

  pub Along-attempt : {A : Type 0} (m : Exec S A) → Along R m → Along R (attempt m)
  unfolding attempt
  Along-attempt m a = record { at = a.at }

  pub Along-modify : (f : S → S) → ((s : S) → R s (f s)) → Along R (modify f)
  unfolding modify
  Along-modify f h = record { at = h }

  pub Along-if :
      {A : Type 0} (b : Bool) (m n : Exec S A)
      → Along R m
      → Along R n
      → Along R (if b then m else n)
  Along-if true m n am an = am
  Along-if false m n am an = an

  pub Along-on_result :
      {A B : Type 0} (r : Result A) (f : A → Exec S B) (g : String → Exec S B)
      → ((a : A) → Along R (f a))
      → ((e : String) → Along R (g e))
      → Along R (on_result r f g)
  unfolding on_result
  Along-on_result (ok a) f g af ag = af a
  Along-on_result (err e) f g af ag = ag e

  pub Along-on_option :
      {A B : Type 0} (o : Option A) (m : Exec S B) (f : A → Exec S B)
      → Along R m
      → ((a : A) → Along R (f a))
      → Along R (on_option o m f)
  unfolding on_option
  Along-on_option none m f am af = am
  Along-on_option (some a) m f am af = af a

  Along-continue :
      {A B : Type 0} (r : Result A) (f : A → Exec S B) (s t : S)
      → R s t
      → ((a : A) → Along R (f a))
      → R s ((lift r >>= f) t).1
  unfolding ◌>>=◌
  Along-continue (ok a) f s t h af = P.after h ((af a).at t)
  Along-continue (err e) f s t h af = h

  pub Along-bind :
      {A B : Type 0} (m : Exec S A) (f : A → Exec S B)
      → Along R m
      → ((a : A) → Along R (f a))
      → Along R (m >>= f)
  unfolding ◌>>=◌
  Along-bind m f am af = record {
    at = λ s. let (r, t) = m s in Along-continue r f s t (am.at s) af;
  }

  -- What the first branch is given of the state that was tested.
  pub Along-tested :
      {A : Type 0} (f : S → Bool) (m n : Exec S A)
      → ((s : S) → f s ≡ true → R s (m s).1)
      → Along R n
      → Along R (gets f >>= λ b. if b then m else n)
  unfolding ◌>>=◌
  Along-tested f m n h k = record { at = λ s. branch s (f s) (h s) }
    where
      branch : (s : S) (b : Bool) → (b ≡ true → R s (m s).1) → R s ((if b then m else n) s).1
      branch s true h = h refl
      branch s false h = k.at s

pub ruleset along_rules = (
  Along-pure, Along-raise, Along-lift, Along-gets, Along-attempt, Along-if, Along-on_result,
  Along-on_option, Along-bind,
)

-- The relations that the theorems use: what a projection reads stays, and what holds is kept.
abbrev pub Same : {S B : Type 0} → (S → B) → S → S → Type 0
Same f s t = f t ≡ f s

abbrev pub Kept : {S : Type 0} → (S → Type 0) → S → S → Type 0
Kept P s t = P s → P t

instance pub Same-Preorder : {S B : Type 0} {f : S → B} → Preorder (Same f)
Same-Preorder = record { same = λ s. refl; after = λ a b. cc }

instance pub Kept-Preorder : {S : Type 0} {P : S → Type 0} → Preorder (Kept P)
Kept-Preorder = record { same = λ s h. h; after = λ a b h. b (a h) }
