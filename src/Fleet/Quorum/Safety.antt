-- ===== src/Fleet/Quorum/Safety.antt =====
-- src/fleet.rs, `quorum_unreachable_with`: the members that it counts out, against the roster.
use pulse_cutover.Prelude.{
  ℕ, ◌+◌, ◌-◌, ◌≤◌, ◌<◌, ◌≡◌, refl, inl, inr, String, Bool, true, false, Option, none, some, List,
  [], ◌∷◌, length, is_some, is_some_and, any, leb, contains, filter, filter_map, All, arith,
  Bool-cases, Option-cases, mul_u64, min,
}
use pulse_cutover.Json.{Json}
use pulse_cutover.Config.{Coordination, RosterMember}
use pulse_cutover.Fleet.Reports.{Beacon, exit_mark, never_verified, producers}
use pulse_cutover.Fleet.Members.{members, entry_of}
use pulse_cutover.Fleet.Marks.{FleetMemory, marks_trusted, peers_seen_verified}
use pulse_cutover.Fleet.Result.{is_err}
use pulse_cutover.Fleet.Resume.{quorum_of, own_report_visible, others}
use pulse_cutover.Fleet.Quorum.{
  Out, Unreachable, not_out, is_me, event_reports, reports_fail, out_by_entry, durably_out,
  agent_unfit, conclude, unreachable_for, quorum_unreachable_with,
}

-- The members that a test counts and those that a search takes do not overlap.
pub length-filter-add-filter_map :
    {A B : Type 0} (xs : List A) (f : A → Option B) (counted : A → Bool)
    → ((x : A) (y : B) → f x ≡ some y → counted x ≡ false)
    → length (filter xs counted) + length (filter_map xs f) ≤ length xs
length-filter-add-filter_map [] f counted h = omega arith
length-filter-add-filter_map (x ∷ xs) f counted h = elim (Option-cases (f x)) [
  | inl e ↦ ground (arith, e, length-filter-add-filter_map xs f counted h)
  | inr (y, e) ↦ ground (arith, e, h x y e, length-filter-add-filter_map xs f counted h)
]

module _ ⦃J : Json⦄ where
  open J use {Value}

  -- The member is durably out of the event: the relay holds an exit mark that was not left again, the
  -- member never verified, and every report of it that is listed proves the exit, one of them fresh.
  pub record DurablyOut (status : Value) (co : Coordination) (me : String × String)
      (mem : FleetMemory) (event : String) (h : ℕ) (rm : RosterMember) : Type 0 where
    pub other : is_me me rm ≡ false
    pub entry : Value
    pub listed : entry_of (producers status co.network) rm.producer ≡ some entry
    pub exited : (exit_mark entry event).exited ≡ true
    pub stayed_out : (exit_mark entry event).reentered ≡ false
    pub never : never_verified (exit_mark entry event) ≡ true
    pub unremembered : contains mem.verified_peers rm.producer ≡ false
    pub unseen : contains (peers_seen_verified status co (some me)) rm.producer ≡ false
    pub fresh :
        any
          (event_reports entry event rm)
          (λ b. is_some_and b.age_ms (λ a. leb a (mul_u64 co.report_max_age_secs 1000)))
        ≡ true
    pub unconflicted : any (event_reports entry event rm) (λ b. b.conflict) ≡ false
    pub proved : All (λ b. not_out b.report event h ≡ none) (event_reports entry event rm)

  none_fail :
      (bs : List Beacon) (event : String) (h : ℕ)
      → any bs (λ b. is_some (not_out b.report event h)) ≡ false
      → All (λ b. not_out b.report event h ≡ none) bs
  none_fail [] event h e = tt
  none_fail (b ∷ bs) event h e = (ground arith, none_fail bs event h (ground arith))

  module _ (status : Value) (co : Coordination) (me : String × String) (mem : FleetMemory)
      (event : String) (h : ℕ) (rm : RosterMember) where
    out_by_entry-DurablyOut :
        (p : Value) (o : Out)
        → is_me me rm ≡ false
        → entry_of (producers status co.network) rm.producer ≡ some p
        → out_by_entry co mem (peers_seen_verified status co (some me)) event h rm p ≡ some o
        → DurablyOut status co me mem event h rm
    unfolding out_by_entry reports_fail
    out_by_entry-DurablyOut p o other listed e =
        let reports = event_reports p event rm in
        record {
          other = other;
          entry = p;
          listed = listed;
          exited = ground arith;
          stayed_out = ground arith;
          never = ground arith;
          unremembered = ground arith;
          unseen = ground arith;
          fresh = ground arith;
          unconflicted = ground arith;
          proved = none_fail reports event h (ground arith);
        }

    durably_out-DurablyOut :
        (o : Out)
        → durably_out
            (producers status co.network)
            co
            me
            mem
            (peers_seen_verified status co (some me))
            event
            h
            rm
          ≡ some o
        → DurablyOut status co me mem event h rm
    unfolding durably_out
    durably_out-DurablyOut o e = elim (Bool-cases (is_me me rm)) [
      | inl k ↦ cc (rw k at e)
      | inr k ↦ elim (Option-cases (entry_of (producers status co.network) rm.producer)) [
        | inl n ↦ cc (rw (k, n) at e)
        | inr (p, l) ↦ out_by_entry-DurablyOut p o k l (rw (k, l) at e)
      ]
    ]

  -- The facts that the code tests before it counts.
  pub record Grounds (status : Value) (co : Coordination) (me : Option (String × String)) (h : ℕ)
      (mem : FleetMemory) (proof : Unreachable) : Type 0 where
    pub who : String × String
    pub who_eq : me ≡ some who
    pub event : String
    pub event_eq : co.event_id ≡ some event
    pub marks : is_err (marks_trusted status co mem) ≡ false
    pub reachable : quorum_of co ≤ length co.roster
    pub visible : own_report_visible status co who ≡ true
    pub fit : any (members status co) agent_unfit ≡ false
    pub nobody_past : any (others (some who) (members status co)) (λ m. is_some m.max_past) ≡ false
    pub counted :
        conclude (length co.roster) (quorum_of co) (
          filter_map co.roster (
            durably_out
              (producers status co.network)
              co
              who
              mem
              (peers_seen_verified status co (some who))
              event
              h))
        ≡ some proof

  pub quorum_unreachable-Grounds :
      (status : Value) (co : Coordination) (me : Option (String × String)) (h : ℕ)
      (mem : FleetMemory) {proof : Unreachable}
      → quorum_unreachable_with status co me h mem ≡ some proof
      → Grounds status co me h mem proof
  unfolding quorum_unreachable_with unreachable_for
  quorum_unreachable-Grounds status co none h mem e = ground (arith, Option-cases co.event_id)
  quorum_unreachable-Grounds status co (some who) h mem {proof} e =
      elim (Option-cases co.event_id) [
        | inl n ↦ ground arith
        | inr (event, ev) ↦ record {
          who = who;
          who_eq = refl;
          event = event;
          event_eq = ev;
          marks = ground arith;
          reachable = ground arith;
          visible = ground arith;
          fit = ground arith;
          nobody_past = ground arith;
          counted = ground arith;
        }
      ]

  conclude-lt :
      (n q : ℕ) (out : List Out) {proof : Unreachable}
      → conclude n q out ≡ some proof
      → n - min (length out) n < q
  unfolding conclude
  conclude-lt n q out e = ground arith

  -- No gate that leaves out every durably exited member counts a quorum of the roster.
  pub quorum_unreachable-lt :
      (status : Value) (co : Coordination) (me : Option (String × String)) (h : ℕ)
      (mem : FleetMemory) (proof : Unreachable) (counted : RosterMember → Bool)
      → quorum_unreachable_with status co me h mem ≡ some proof
      → ((who : String × String) (event : String) (rm : RosterMember)
          → me ≡ some who
          → co.event_id ≡ some event
          → DurablyOut status co who mem event h rm
          → counted rm ≡ false)
      → length (filter co.roster counted) < quorum_of co
  quorum_unreachable-lt status co me h mem proof counted e leaves_out =
      let g = quorum_unreachable-Grounds status co me h mem e in
      let f =
        durably_out (producers status co.network) co g.who mem
          (peers_seen_verified status co (some g.who)) g.event h in
      omega (
        arith,
        conclude-lt (length co.roster) (quorum_of co) (filter_map co.roster f) g.counted,
        length-filter-add-filter_map co.roster f counted (λ rm o k.
            leaves_out g.who g.event rm g.who_eq g.event_eq
              (durably_out-DurablyOut status co g.who mem g.event h rm o k)),
      )
