-- ===== src/Machine/Exec/Returns.antt =====
-- Actions that return: what they returned at each step.
use pulse_cutover.Prelude.{◌≡◌, refl}
use pulse_cutover.Machine.Exec.{Exec, Result, ok, err, pure, lift, gets, modify, ◌>>=◌, ◌>>◌}

module _ {S A B : Type 0} where
  lifted_ok :
      (r : Result A) (f : A → Exec S B) (s : S) (b : B)
      → ((lift r >>= f) s).0 ≡ ok b
      → (a : A) × (r ≡ ok a) × ((f a s).0 ≡ ok b)
  unfolding ◌>>=◌
  lifted_ok (ok a) f s b h = (a, refl, h)
  lifted_ok (err e) f s b h = cc h

  -- What returned did so at each step.
  pub bind_ok :
      (m : Exec S A) (f : A → Exec S B) (s : S) (b : B)
      → ((m >>= f) s).0 ≡ ok b
      → (a : A) × ((m s).0 ≡ ok a) × ((f a (m s).1).0 ≡ ok b)
  unfolding ◌>>=◌
  bind_ok m f s b h = let (r, t) = m s in lifted_ok r f t b h

  pub gets_ok :
      (g : S → A) (f : A → Exec S B) (s : S) (b : B)
      → ((gets g >>= f) s).0 ≡ ok b
      → (f (g s) s).0 ≡ ok b
  unfolding ◌>>=◌
  gets_ok g f s b h = h

module _ {S B : Type 0} where
  pub modify_ok :
      (g : S → S) (n : Exec S B) (s : S) (b : B) → ((modify g >> n) s).0 ≡ ok b → (n (g s)).0 ≡ ok b
  unfolding ◌>>=◌
  modify_ok g n s b h = h

  pub then_ok :
      (m : Exec S Unit) (n : Exec S B) (s : S) (b : B)
      → ((m >> n) s).0 ≡ ok b
      → (t : S) × ((n t).0 ≡ ok b)
  then_ok m n s b h = let (u, e, k) = bind_ok m (λ done. n) s b h in ((m s).1, k)

  pub pure_ok : (a b : B) (s : S) → (pure a s).0 ≡ ok b → a ≡ b
  unfolding ◌>>=◌
  pure_ok a b s h = cc h

  pub lift_ok : (r : Result B) (s : S) (b : B) → (lift r s).0 ≡ ok b → r ≡ ok b
  unfolding ◌>>=◌
  lift_ok r s b h = h
