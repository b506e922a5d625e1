-- ===== src/Machine/Guard/Safe.antt =====
-- src/machine.rs, `resume_guard`: the view of the fleet behind a clear answer.
use pulse_cutover.Prelude.{
  ℕ, zero, suc, ◌≡◌, refl, sym, ◌∙◌, subst, ◌⊎◌, is_some, String, Bool, true, false, Option, none,
  some, inl, inr, unwrap_or, map_option, Option-cases, Bool-cases, is_empty, nat_eq, ◌||◌,
}
use Prim.Native.String.{◌++◌}
use pulse_cutover.Json.{Json}
use pulse_cutover.Fleet.Marks.{FleetMemory, default_memory}
use pulse_cutover.Fleet.Marks.Memory.{KnowsMore, default-KnowsMore}
use pulse_cutover.Fleet.Memory.{journaled_fleet_memory}
use pulse_cutover.Fleet.Memory.Grows.{merged-KnowsMore}
use pulse_cutover.Fleet.Result.{Refusal, is_err, err_of}
use pulse_cutover.Fleet.Resume.{resume_guard_with, quorum_of}
use pulse_cutover.Fleet.Resume.Safety.{ResumeSafe, resume_guard-ResumeSafe}
use pulse_cutover.Machine.Exec.{Result, ok, err, ◌>>=◌, on_option}
use pulse_cutover.Machine.Exec.Returns.{bind_ok, gets_ok, modify_ok, then_ok, pure_ok}
use pulse_cutover.Machine.Exec.Along.{
  Along, Same, Same-Preorder, along_rules, Along-bind, Along-on_option,
}
use pulse_cutover.Machine.Host.{Host, coordination_of}
use pulse_cutover.Machine.Core.{Machine, Action, ask, sleep_ms}
use pulse_cutover.Machine.View.{rewritten, fleet_status, note_view, note_fleet_view}
use pulse_cutover.Machine.Guard.{is_abort_signed, shows_abort, view_memory, resume_guard}

no_error :
    {A : Type 0} (r : pulse_cutover.Fleet.Result.Result A) (f : Refusal → String)
    → map_option f (err_of r) ≡ none
    → is_err r ≡ false
no_error (pulse_cutover.Fleet.Result.ok a) f h = refl
no_error (pulse_cutover.Fleet.Result.err e) f h = cc h

module _ ⦃J : Json⦄ ⦃H : Host⦄ where
  open J use {Value}
  open H use {cfg}

  abbrev coord_url : String
  coord_url = cfg.relay_url ++ "/api/coord/" ++ cfg.network

  -- What a flag for the coordinator's signed abort stands on: this node's tombstone of the event, or a
  -- document of the coordinator's that the relay serves and that is a signed abort. Without the flag there
  -- is neither.
  pub Attested : H.World → Bool → Type 0
  Attested w true =
      (H.is_tombstoned w ≡ true)
      ⊎ ((doc : Value) × ((H.get_json coord_url w).0 ≡ ok (some doc)) × (H.signed_abort doc ≡ true))
  Attested w false =
      (H.is_tombstoned w ≡ false)
      × ((doc : Value) → (H.get_json coord_url w).0 ≡ ok (some doc) → H.signed_abort doc ≡ false)

  shown-Attested :
      (r : Result (Option Value)) (w : H.World)
      → (H.get_json coord_url w).0 ≡ r
      → H.is_tombstoned w ≡ false
      → Attested w (shows_abort r)
  unfolding Attested
  shown-Attested (err e) w k alive = (alive, λ doc h. cc (k, h))
  shown-Attested (ok none) w k alive = (alive, λ doc h. cc (k, h))
  shown-Attested (ok (some doc)) w k alive = elim (Bool-cases (H.signed_abort doc)) [
    | inl y ↦ subst (Attested w) (sym y) (inr (doc, k, y))
    | inr n ↦ subst (Attested w) (sym n) (alive, λ other h. cc (k, h, n))
  ]

  signed-Attested : (m : Machine) (b : Bool) → (is_abort_signed m).0 ≡ ok b → Attested m.world b
  unfolding is_abort_signed ask ◌>>=◌ Attested
  signed-Attested m b h = elim (Bool-cases (H.is_tombstoned m.world)) [
    | inl y ↦ subst (Attested m.world) (pure_ok true b m (rw y at h)) (inl y)
    | inr n ↦
        subst (Attested m.world) (pure_ok _ b m (rw n at h))
          (shown-Attested (H.get_json coord_url m.world).0 m.world refl n)
  ]

  -- The view that the guard reads from a machine: the relay answered, and with a memory that knows all
  -- that the machine remembered it is safe to resume.
  pub record SafeView (m : Machine) : Type 0 where
    pub document : Value
    pub signed : Bool
    pub attested : Attested (fleet_status 5 m).1.world signed
    pub memory : FleetMemory
    pub read : (fleet_status 5 m).0 ≡ ok (some document)
    pub remembers : KnowsMore (unwrap_or m.fleet_mem default_memory) memory
    pub safe : ResumeSafe document (coordination_of cfg) cfg.me signed memory

  abbrev Recalls : {A : Type 0} → Action A → Type 0
  Recalls a = Along (Same (λ (m : Machine). m.fleet_mem)) a

  ask-Recalls : {A : Type 0} (f : H.World → Result A × H.World) → Recalls (ask f)
  unfolding ask
  ask-Recalls f = record { at = λ m. refl }

  sleep-Recalls : (ms : ℕ) → Recalls (sleep_ms ms)
  unfolding sleep_ms
  sleep-Recalls ms = record { at = λ m. refl }

  rewritten-Recalls : (doc : Value) → Recalls (rewritten doc)
  unfolding rewritten
  rewritten-Recalls doc = search along_rules depth 30

  status-Recalls : (n : ℕ) → Recalls (fleet_status n)
  unfolding fleet_status
  status-Recalls zero = search along_rules
  status-Recalls (suc n) = Along-bind _ _ (search (along_rules, ask-Recalls)) λ r.
      Along-on_option _ _ _
        (Along-bind _ _ (search (along_rules, sleep-Recalls)) λ done. status-Recalls n)
        rewritten-Recalls

  signed-Recalls : Recalls is_abort_signed
  unfolding is_abort_signed
  signed-Recalls = search (along_rules, ask-Recalls) depth 30

  noted_memory :
      (ev : String) (doc : Value) (m : Machine) (mem : FleetMemory)
      → (note_view ev doc m).0 ≡ ok mem
      → KnowsMore (unwrap_or m.fleet_mem (journaled_fleet_memory (H.journal_data m.world) ev)) mem
  unfolding note_view
  noted_memory ev doc m mem h =
      let old = unwrap_or m.fleet_mem (journaled_fleet_memory (H.journal_data m.world) ev) in
      let h1 = gets_ok _ _ _ _ (modify_ok _ _ m mem h) in
      let (s2, h2) = then_ok _ _ _ _ h1 in
      let (s3, h3) = then_ok _ _ _ _ h2 in
      let (s4, h4) = then_ok _ _ _ _ h3 in
      let (s5, h5) = then_ok _ _ _ _ h4 in
      let new = pure_ok _ mem _ (modify_ok _ _ s5 mem h5) in
      subst (KnowsMore old) new (merged-KnowsMore (coordination_of cfg) cfg.me doc old)

  more_of_default :
      (o : Option FleetMemory) (from mem : FleetMemory)
      → KnowsMore (unwrap_or o from) mem
      → KnowsMore (unwrap_or o default_memory) mem
  more_of_default none from mem k = default-KnowsMore mem
  more_of_default (some old) from mem k = k

  viewed_memory :
      (doc : Value) (m : Machine) (mem : FleetMemory)
      → is_some cfg.event_id ≡ true
      → (view_memory (some doc) m).0 ≡ ok mem
      → KnowsMore (unwrap_or m.fleet_mem default_memory) mem
  unfolding view_memory note_fleet_view on_option
  viewed_memory doc m mem e h = elim (Option-cases cfg.event_id) [
    | inl n ↦ cc (rw n at e)
    | inr (ev, k) ↦ more_of_default m.fleet_mem _ mem (noted_memory ev doc m mem (rw k at h))
  ]

  silent_refused :
      (signed : Bool) (mem : FleetMemory)
      → is_err (resume_guard_with none (coordination_of cfg) cfg.me signed mem) ≡ true
  unfolding resume_guard_with
  silent_refused signed mem =
      let co = coordination_of cfg in
      elim (Bool-cases (is_empty co.roster || nat_eq (quorum_of co) 0)) [
        | inl y ↦ rw y refl
        | inr n ↦ rw n refl
      ]

  clear_view :
      (m : Machine) (status : Option Value) (signed : Bool) (mem : FleetMemory) (s : Machine)
      → is_some cfg.event_id ≡ true
      → (fleet_status 5 m).0 ≡ ok status
      → Attested (fleet_status 5 m).1.world signed
      → s.fleet_mem ≡ m.fleet_mem
      → (view_memory status s).0 ≡ ok mem
      → is_err (resume_guard_with status (coordination_of cfg) cfg.me signed mem) ≡ false
      → SafeView m
  clear_view m none signed mem s e r a k v h = cc (h, silent_refused signed mem)
  clear_view m (some doc) signed mem s e r a k v h = record {
    document = doc;
    signed = signed;
    attested = a;
    memory = mem;
    read = r;
    remembers =
        subst (λ o. KnowsMore (unwrap_or o default_memory) mem) k (viewed_memory doc s mem e v);
    safe = resume_guard-ResumeSafe doc (coordination_of cfg) cfg.me signed mem h;
  }

  -- A clear answer of the guard comes from a view that the relay served, in which it is safe to resume.
  pub resume_guard-SafeView :
      (m : Machine) → is_some cfg.event_id ≡ true → (resume_guard m).0 ≡ ok none → SafeView m
  unfolding resume_guard
  resume_guard-SafeView m e h =
      let (status, r, h1) = bind_ok _ _ m none h in
      let s1 = (fleet_status 5 m).1 in
      let (signed, r2, h2) = bind_ok _ _ s1 none h1 in
      let s2 = (is_abort_signed s1).1 in
      let (mem, r3, h3) = bind_ok _ _ s2 none h2 in
      let answer = resume_guard_with status (coordination_of cfg) cfg.me signed mem in
      let (s4, h4) = then_ok _ _ _ none h3 in
      let kept = signed-Recalls.at s1 ∙ (status-Recalls 5).at m in
      clear_view m status signed mem s2 e r (signed-Attested s1 signed r2) kept r3
        (no_error answer H.refusal_text (pure_ok _ none s4 h4))
