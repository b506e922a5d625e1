-- ===== src/Machine/Abort/Ends.antt =====
-- src/machine.rs: how an abort ends past the point of no return, and where the guard refuses.
use pulse_cutover.Prelude.{String, true, ◌≡◌, ◌≢◌, ◌⊎◌, inl, inr, refl, ◌∙◌, Option, none, some}
use pulse_cutover.Json.{Json}
use pulse_cutover.State.{State, halted}
use pulse_cutover.Machine.Exec.{Result, ok, err, lift, pure, ◌>>=◌, on_option}
use pulse_cutover.Machine.Exec.Along.{Along, Same, Kept, Same-Preorder, Kept-Preorder, along_rules}
use pulse_cutover.Machine.Exec.Ensures.{
  Ensures, Ensures-bind, Ensures-rest, Ensures-always, Ensures-gets, Post-any,
}
use pulse_cutover.Machine.Exec.Fails.{failed, Fails, Fails-raise, Fails-bind}
use pulse_cutover.Machine.Host.{Host, Record, Line, transition_line}
use pulse_cutover.Machine.Core.{Machine, call, append, enter, evidence_in}
use pulse_cutover.Machine.Halt.{page, halt, past_point_of_no_return}
use pulse_cutover.Machine.Abort.{abort, abort_guarded, guard_twice, ask_again, requested, roll_back}
use pulse_cutover.Machine.Guard.{needs_resume_guard, resume_guard}
use pulse_cutover.Machine.Strand.{strand}
use pulse_cutover.Machine.Effects.{touches, undoes, done}
use pulse_cutover.Machine.Effects.Rules.{spared}
use pulse_cutover.Machine.Effects.Sealed.{undoes-Ignores, guard_twice-Spares, strand-Spares}
use pulse_cutover.Machine.Effects.Stopped.{touches-Ignores, halt-Spares}

module _ ⦃J : Json⦄ ⦃H : Host⦄ where
  open J use {Value}

  call-state :
      {A : Type 0} (f : H.World → Result A × H.World) (mark : Result A → _)
      → Along (Same (λ (m : Machine). m.state)) (call f mark)
  unfolding call
  call-state f mark = record { at = λ m. refl }

  append-state : (l : Line) → Along (Same (λ (m : Machine). m.state)) (append l)
  unfolding append
  append-state l = call-state _ _

  page-state : (st : State) → Along (Same (λ (m : Machine). m.state)) (page st)
  unfolding page evidence_in
  page-state st = search (along_rules, call-state, append-state) depth 30 fits 4000

  enter-state : (st : State) (r : Record) (m : Machine) → (enter st r m).1.state ≡ st
  unfolding enter ◌>>=◌
  enter-state st r m = (append-state (transition_line st r)).at (record m { state = st })

  halt-Fails : (reason : String) (detail : Value) → Fails (halt reason detail)
  unfolding halt
  halt-Fails reason detail = search (Fails-bind, Fails-raise) depth 30

  abbrev IsHalted : Machine → Type 0
  IsHalted m = m.state ≡ halted

  page-IsHalted : (st : State) → Along (Kept IsHalted) (page st)
  page-IsHalted st = record { at = λ m h. (page-state st).at m ∙ h }

  halt-Ensures :
      (reason : String) (detail : Value)
      → Ensures (λ m. Unit) IsHalted IsHalted (halt reason detail)
  unfolding halt
  halt-Ensures reason detail = Ensures-bind _ _ (Ensures-gets _) λ from.
      Ensures-bind _ _ (Ensures-always _ (λ m u. enter-state halted _ m))
        λ _. Ensures-rest _ (λ m h. h) (search (along_rules, page-IsHalted) depth 30)

  halt-IsHalted :
      (reason : String) (detail : Value) (m : Machine) → IsHalted (halt reason detail m).1
  halt-IsHalted reason detail m =
      Post-any IsHalted (halt reason detail m) ((halt-Ensures reason detail).at m tt)

  -- Past the point of no return an abort pauses nothing, resumes nothing, runs no hook but the paging one,
  -- changes no whitelist and moves no file: it is HALTED, and it never returns without an error.
  pub abort_past :
      (reason : String) (detail : Value) (m : Machine)
      → past_point_of_no_return m ≡ true
      → (done touches (abort reason detail m).1 ≡ done touches m)
        × ((abort reason detail m).1.state ≡ halted)
        × (failed (abort reason detail m).0 ≡ true)
  unfolding abort ◌>>=◌
  abort_past reason detail m h = rw h (
    spared (halt-Spares touches-Ignores reason detail) m,
    halt-IsHalted reason detail m,
    (halt-Fails reason detail).at m,
  )

  refused_once :
      (reason : String) (g : Result (Option String) × Machine)
      → (g.0 ≢ ok none) ⊎ ((ask_again requested reason g.1).0 ≢ ok none)
      → ((lift g.0 >>= λ first.
            on_option first (ask_again requested reason) (λ why. pure (some why)))
          g.1).0
        ≢ ok none
  unfolding ◌>>=◌ on_option
  refused_once reason (ok none, t) (inl n) = λ e. absurd (n refl)
  refused_once reason (ok none, t) (inr n) = n
  refused_once reason (ok (some why), t) n = λ e. cc e
  refused_once reason (err e, t) n = λ q. cc q

  guard_twice-refused :
      (reason : String) (m : Machine)
      → ((resume_guard m).0 ≢ ok none)
        ⊎ ((ask_again requested reason (resume_guard m).1).0 ≢ ok none)
      → (guard_twice requested reason m).0 ≢ ok none
  unfolding guard_twice ◌>>=◌
  guard_twice-refused reason m n = refused_once reason (resume_guard m) n

  stranded_where_refused :
      (reason : String) (detail : Value) (m : Machine) (r : Result (Option String)) (t : Machine)
      → r ≢ ok none
      → done undoes t ≡ done undoes m
      → done undoes
          ((lift r >>= λ o. on_option o (roll_back reason detail) (strand reason detail)) t).1
        ≡ done undoes m
  unfolding on_option ◌>>=◌
  stranded_where_refused reason detail m (err e) t n k = k
  stranded_where_refused reason detail m (ok none) t n k = absurd (n refl)
  stranded_where_refused reason detail m (ok (some why)) t n k =
      spared (strand-Spares reason detail why) t ∙ k

  -- Only two clear answers of the guard let a coordinated producer that has frozen undo anything: where
  -- the first or, after the withdrawal of its report, the second is a refusal or an error, nothing is
  -- resumed, no hook but the paging one is run and no file is moved.
  pub abort_guarded_refused :
      (reason : String) (detail : Value) (m : Machine)
      → needs_resume_guard m ≡ true
      → ((resume_guard m).0 ≢ ok none)
        ⊎ ((ask_again requested reason (resume_guard m).1).0 ≢ ok none)
      → done undoes (abort_guarded reason detail m).1 ≡ done undoes m
  unfolding abort_guarded ◌>>=◌
  abort_guarded_refused reason detail m h n =
      let (r, t) = guard_twice requested reason m in
      rw h (
        stranded_where_refused reason detail m r t (guard_twice-refused reason m n)
          (spared (guard_twice-Spares undoes-Ignores requested reason) m))
