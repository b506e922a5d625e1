-- ===== src/Fleet/Resume/Accounting.antt =====
-- src/fleet.rs, `resume_guard_with`: its loop over the other members.
use pulse_cutover.Prelude.{
  ℕ, ◌≡◌, refl, inl, inr, String, Bool, true, false, Option, none, some, List, [], ◌∷◌, filter, All,
  arith, Bool-cases, map_or,
}
use pulse_cutover.Json.{Json}
use pulse_cutover.Config.{Coordination}
use pulse_cutover.Fleet.Reports.{past_create}
use pulse_cutover.Fleet.Members.{MemberView}
use pulse_cutover.Fleet.Marks.{FleetMemory}
use pulse_cutover.Fleet.Result.{ok, refuse_if-eq-ok, >>=-eq-ok, is_err, eq-ok_of_not_err}
use pulse_cutover.Fleet.Resume.{
  Seen, account, account_all, read_member, report_read, in_ceremony, names,
}

module _ ⦃J : Json⦄ where
  open J use {Value}

  -- The guard read a report of the member, and the report is not past creation.
  pub record Accounted (signed_abort : Bool) (m : MemberView) : Type 0 where
    pub shown : m.missing ≡ false
    pub unconflicted : m.conflict ≡ false
    pub read : Value
    pub read_eq : report_read signed_abort m ≡ some read
    pub before_creation : past_create read ≡ false

  -- Counted as still in the ceremony, on the report that the guard reads.
  abbrev pub stays : Bool → FleetMemory → MemberView → Bool
  stays signed_abort mem m =
      map_or true (in_ceremony signed_abort mem m) (report_read signed_abort m)

  read_member-Accounted :
      (signed_abort : Bool) (mem : FleetMemory) (m : MemberView) (secs : ℕ) (o : Option Value)
      {x : Seen × Bool}
      → m.missing ≡ false
      → m.conflict ≡ false
      → report_read signed_abort m ≡ o
      → read_member signed_abort mem m secs o ≡ ok x
      → Accounted signed_abort m × (x.1 ≡ map_or true (in_ceremony signed_abort mem m) o)
  unfolding read_member
  read_member-Accounted signed_abort mem m secs none s c e h = cc
  read_member-Accounted signed_abort mem m secs (some r) s c e h =
      let k = refuse_if-eq-ok (past_create r) _ _ h in
      (
        record { shown = s; unconflicted = c; read = r; read_eq = e; before_creation = k.0 },
        ground (arith, k.1),
      )

  pub account-Accounted :
      (co : Coordination) (signed_abort : Bool) (mem : FleetMemory) (m : MemberView)
      {x : Seen × Bool}
      → account co signed_abort mem m ≡ ok x
      → Accounted signed_abort m × (x.1 ≡ stays signed_abort mem m)
  unfolding account
  account-Accounted co signed_abort mem m h =
      let a = refuse_if-eq-ok m.missing _ _ h in
      let b = refuse_if-eq-ok m.conflict _ _ a.1 in
      read_member-Accounted signed_abort mem m _ _ a.0 b.0 refl b.1

  -- The loop accounts for every member, and its list holds those that stay.
  pub account_all-Accounted :
      (co : Coordination) (signed_abort : Bool) (mem : FleetMemory) (ms : List MemberView)
      {acc : List Seen × List String}
      → account_all co signed_abort mem ms ≡ ok acc
      → All (Accounted signed_abort) ms × (acc.1 ≡ names (filter ms (stays signed_abort mem)))
  unfolding account_all
  account_all-Accounted co signed_abort mem [] h = (tt, ground arith)
  account_all-Accounted co signed_abort mem (m ∷ ms) {acc} h =
      let (one, e1, h1) = >>=-eq-ok (account co signed_abort mem m) _ h in
      let (rest, e2, h2) = >>=-eq-ok (account_all co signed_abort mem ms) _ h1 in
      let a = account-Accounted co signed_abort mem m e1 in
      let b = account_all-Accounted co signed_abort mem ms e2 in
      (
        (a.0, b.0),
        elim (Bool-cases (stays signed_abort mem m)) [
          | inl k ↦ rw k (cc (h2, a.1, b.1, k))
          | inr k ↦ rw k (cc (h2, a.1, b.1, k))
        ],
      )

  Accounted-account :
      (co : Coordination) (signed_abort : Bool) (mem : FleetMemory) (m : MemberView)
      → Accounted signed_abort m
      → is_err (account co signed_abort mem m) ≡ false
  unfolding account
  Accounted-account co signed_abort mem m a =
      rw (a.shown, a.unconflicted, a.read_eq, a.before_creation)

  -- The loop refuses nothing else.
  pub Accounted-account_all :
      (co : Coordination) (signed_abort : Bool) (mem : FleetMemory) (ms : List MemberView)
      → All (Accounted signed_abort) ms
      → is_err (account_all co signed_abort mem ms) ≡ false
  unfolding account_all
  Accounted-account_all co signed_abort mem [] h = refl
  Accounted-account_all co signed_abort mem (m ∷ ms) h =
      let (one, e1) = eq-ok_of_not_err _ (Accounted-account co signed_abort mem m h.0) in
      let (rest, e2) = eq-ok_of_not_err _ (Accounted-account_all co signed_abort mem ms h.1) in
      rw (e1, e2)
