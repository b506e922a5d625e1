-- ===== src/Machine/Exec/Ensures.antt =====
-- What an action leaves when it returns and when it fails, from what held before.
use pulse_cutover.Prelude.{Bool, true, false, ◌≡◌, refl, if◌then◌else◌}
use pulse_cutover.Machine.Exec.{Exec, Result, ok, err, lift, gets, attempt, ◌>>=◌}
use pulse_cutover.Machine.Exec.Along.{Along, Kept}

module _ {S : Type 0} where
  abbrev pub Post : {A : Type 0} → (S → Type 0) → (S → Type 0) → Result A × S → Type 0
  Post Q E (ok a, s) = Q s
  Post Q E (err e, s) = E s

  pub record Ensures {A : Type 0} (P Q E : S → Type 0) (m : Exec S A) : Type 0 where
    pub at : (s : S) → P s → Post Q E (m s)

  Post-after :
      {A B : Type 0} {Q R E : S → Type 0} (r : Result A) (f : A → Exec S B) (s : S)
      → Post Q E (r, s)
      → ((a : A) → Ensures Q R E (f a))
      → Post R E ((lift r >>= f) s)
  unfolding ◌>>=◌
  Post-after (ok a) f s h k = (k a).at s h
  Post-after (err e) f s h k = h

  module _ {P Q E : S → Type 0} where
    pub Ensures-bind :
        {A B : Type 0} {Q' : S → Type 0} (m : Exec S A) (f : A → Exec S B)
        → Ensures P Q E m
        → ((a : A) → Ensures Q Q' E (f a))
        → Ensures P Q' E (m >>= f)
    unfolding ◌>>=◌
    Ensures-bind {Q' = Q'} m f h k = record {
      at = λ s p. let (r, t) = m s in Post-after {Q = Q} {R = Q'} {E = E} r f t (h.at s p) k;
    }

    -- A condition tested on the state before.
    pub Ensures-test :
        {A : Type 0} (f : S → Bool) (m n : Exec S A)
        → ((s : S) → P s → f s ≡ true → Post Q E (m s))
        → ((s : S) → P s → f s ≡ false → Post Q E (n s))
        → Ensures P Q E (gets f >>= λ b. if b then m else n)
    unfolding ◌>>=◌
    Ensures-test f m n h k = record { at = λ s p. branch s p (f s) (h s p) (k s p) }
      where
        branch :
            (s : S) (p : P s) (b : Bool)
            → (b ≡ true → Post Q E (m s))
            → (b ≡ false → Post Q E (n s))
            → Post Q E ((if b then m else n) s)
        branch s p true h k = h refl
        branch s p false h k = k refl

  Post-both : {A : Type 0} (E : S → Type 0) (o : Result A × S) → E o.1 → Post E E o
  Post-both E (ok a, s) h = h
  Post-both E (err e, s) h = h

  Post-kept :
      {A : Type 0} {P E : S → Type 0}
      → ((s : S) → P s → E s)
      → (o : Result A × S) → P o.1
      → Post P E o
  Post-kept w (ok a, s) h = h
  Post-kept w (err e, s) h = w s h

  pub Ensures-Along :
      {A : Type 0} {P E : S → Type 0} (m : Exec S A)
      → ((s : S) → P s → E s)
      → Along (Kept P) m
      → Ensures P P E m
  Ensures-Along m w a = record { at = λ s p. Post-kept w (m s) (a.at s p) }

  pub Ensures-rest :
      {A : Type 0} {P E : S → Type 0} (m : Exec S A)
      → ((s : S) → P s → E s)
      → Along (Kept E) m
      → Ensures P E E m
  Ensures-rest m w a = record { at = λ s p. Post-both _ (m s) (a.at s (w s p)) }

  pub Post-any : {A : Type 0} (E : S → Type 0) (o : Result A × S) → Post E E o → E o.1
  Post-any E (ok a, s) h = h
  Post-any E (err e, s) h = h

  pub Ensures-attempt :
      {A : Type 0} {P E : S → Type 0} (m : Exec S A) → Ensures P E E m → Ensures P E E (attempt m)
  unfolding ◌>>=◌
  Ensures-attempt {E = E} m h = record { at = λ s p. Post-any E (m s) (h.at s p) }

  pub Ensures-always :
      {A : Type 0} {P E : S → Type 0} (m : Exec S A) → ((s : S) → P s → E (m s).1) → Ensures P E E m
  Ensures-always {E = E} m h = record { at = λ s p. Post-both E (m s) (h s p) }

  pub Ensures-gets : {A : Type 0} {P E : S → Type 0} (f : S → A) → Ensures P P E (gets f)
  unfolding ◌>>=◌
  Ensures-gets f = record { at = λ s p. p }
