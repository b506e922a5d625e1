-- ===== src/Machine/Exec/Fails.antt =====
-- Actions that never return.
use pulse_cutover.Prelude.{String, Bool, true, false, ◌≡◌, refl}
use pulse_cutover.Machine.Exec.{Exec, Result, ok, err, raise, lift, ◌>>=◌}

abbrev pub failed : {A : Type 0} → Result A → Bool
failed (ok a) = false
failed (err e) = true

module _ {S : Type 0} where
  pub record Fails {A : Type 0} (m : Exec S A) : Type 0 where
    pub at : (s : S) → failed (m s).0 ≡ true

  pub Fails-raise : {A : Type 0} (e : String) → Fails (raise {A = A} e)
  unfolding raise
  Fails-raise e = record { at = λ s. refl }

  Fails-continue :
      {A B : Type 0} (r : Result A) (f : A → Exec S B) (s : S)
      → ((a : A) → Fails (f a))
      → failed ((lift r >>= f) s).0 ≡ true
  unfolding ◌>>=◌
  Fails-continue (ok a) f s h = (h a).at s
  Fails-continue (err e) f s h = refl

  pub Fails-bind :
      {A B : Type 0} (m : Exec S A) (f : A → Exec S B) → ((a : A) → Fails (f a)) → Fails (m >>= f)
  unfolding ◌>>=◌
  Fails-bind m f h = record { at = λ s. let (r, t) = m s in Fails-continue r f t h }
