-- ===== src/Fleet/Resume/Memory.antt =====
-- src/fleet.rs, `resume_guard_with` under two memories of the fleet.
use pulse_cutover.Prelude.{
  ◌<◌, ◌≡◌, String, Bool, true, false, Option, some, arith, length, filter, length-filter_mono,
}
use pulse_cutover.Json.{Json}
use pulse_cutover.Config.{Coordination}
use pulse_cutover.Fleet.Members.{MemberView, members}
use pulse_cutover.Fleet.Marks.{FleetMemory}
use pulse_cutover.Fleet.Marks.Memory.{KnowsMore, marks_not_lost_mono}
use pulse_cutover.Fleet.Result.{is_err}
use pulse_cutover.Fleet.Resume.{verified, others, in_ceremony, quorum_of, resume_guard_with}
use pulse_cutover.Fleet.Resume.Accounting.{stays}
use pulse_cutover.Fleet.Resume.Safety.{ResumeSafe, resume_guard-ResumeSafe, ResumeSafe-resume_guard}

module _ ⦃J : Json⦄ where
  open J use {Value}

  verified_mono :
      {less more : FleetMemory} (m : MemberView)
      → KnowsMore less more
      → verified less m ≡ true
      → verified more m ≡ true
  verified_mono m k h = ground (arith, k.peers m.producer)

  stays_mono :
      {less more : FleetMemory} (m : MemberView)
      → KnowsMore less more
      → stays false less m ≡ true
      → stays false more m ≡ true
  unfolding in_ceremony
  stays_mono {less} {more} m k h = ground (arith, verified_mono m k)

  still_out :
      {less more : FleetMemory} (status : Value) (co : Coordination) (me : Option (String × String))
      (signed_abort : Bool)
      → KnowsMore less more
      → signed_abort ≡ false
      → length (filter (others me (members status co)) (stays signed_abort more)) < quorum_of co
      → length (filter (others me (members status co)) (stays signed_abort less)) < quorum_of co
  still_out status co me true k e h = cc
  still_out {less} {more} status co me false k e h = omega (
    arith,
    h,
    length-filter_mono (others me (members status co)) (stays false less) (stays false more)
        (λ m. stays_mono m k),
  )

  pub ResumeSafe-mono :
      {less more : FleetMemory} (status : Value) (co : Coordination) (me : Option (String × String))
      (signed_abort : Bool)
      → KnowsMore less more
      → ResumeSafe status co me signed_abort more
      → ResumeSafe status co me signed_abort less
  ResumeSafe-mono {less} {more} status co me signed_abort k s = record {
    rostered = s.rostered;
    quorum_pos = s.quorum_pos;
    marks_kept = marks_not_lost_mono status co k s.marks_kept;
    own_visible = s.own_visible;
    accounted = s.accounted;
    unreported_past = s.unreported_past;
    same_h = s.same_h;
    out_of_reach = λ e. still_out status co me signed_abort k e (s.out_of_reach e);
    unverified = λ e. omega (
      arith,
      s.unverified e,
      length-filter_mono (members status co) (verified less) (verified more)
          (λ m. verified_mono m k),
    );
  }

  -- An agent that remembers more never resumes where one that remembers less would not.
  pub resume_guard_mono :
      {less more : FleetMemory} (status : Value) (co : Coordination) (me : Option (String × String))
      (signed_abort : Bool)
      → KnowsMore less more
      → is_err (resume_guard_with (some status) co me signed_abort more) ≡ false
      → is_err (resume_guard_with (some status) co me signed_abort less) ≡ false
  resume_guard_mono {less} {more} status co me signed_abort k h =
      ResumeSafe-resume_guard status co me signed_abort less (
        ResumeSafe-mono status co me signed_abort k
          (resume_guard-ResumeSafe status co me signed_abort more h))
