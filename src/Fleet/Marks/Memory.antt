-- ===== src/Fleet/Marks/Memory.antt =====
-- src/fleet.rs, `marks_trusted` and `marks_not_lost` under two memories of the fleet.
use pulse_cutover.Prelude.{
  ℕ, ◌≤◌, ◌≡◌, refl, String, Bool, true, false, Option, none, some, contains, arith, eq_iff,
}
use pulse_cutover.Json.{Json}
use pulse_cutover.Config.{Coordination}
use pulse_cutover.Fleet.Result.{is_err}
use pulse_cutover.Fleet.Marks.{
  FleetMemory, default_memory, went_back, marks_state, marks_trusted, trusted_state,
  marks_identified, marks_not_lost, kept_state, generation_kept,
}

abbrev pub StateLe : Option (String × ℕ) → Option (String × ℕ) → Type 0
StateLe none t = Unit
StateLe (some s) none = ⊥
StateLe (some (i, g)) (some (j, k)) = (i ≡ j) × (g ≤ k)

-- `more` remembers all that `less` does.
pub record KnowsMore (less more : FleetMemory) : Type 0 where
  pub peers :
      (n : String) → contains less.verified_peers n ≡ true → contains more.verified_peers n ≡ true
  pub regressed : less.relay_regressed ≡ true → more.relay_regressed ≡ true
  pub state : StateLe less.relay_state more.relay_state

pub default-KnowsMore : (mem : FleetMemory) → KnowsMore default_memory mem
default-KnowsMore mem = record { peers = λ n h. cc h; regressed = λ h. cc h; state = tt }

went_back_mono :
    (s t : Option (String × ℕ)) (id : String) (g : ℕ)
    → StateLe s t
    → is_err (went_back t id g) ≡ false
    → is_err (went_back s id g) ≡ false
unfolding went_back
went_back_mono none t id g l h = refl
went_back_mono (some s) none id g l h = absurd l
went_back_mono (some (i, a)) (some (j, b)) id g l h = ground (arith, eq_iff i id, eq_iff j id)

regressed_mono : (a b : Bool) → (a ≡ true → b ≡ true) → b ≡ false → a ≡ false
regressed_mono true b f h = cc (f refl)
regressed_mono false b f h = refl

module _ ⦃J : Json⦄ where
  open J use {Value, index, as_str, as_u64}

  generation_kept_mono :
      {less more : FleetMemory} (id : Option String) (g : Option ℕ)
      → KnowsMore less more
      → is_err (generation_kept id g more) ≡ false
      → is_err (generation_kept id g less) ≡ false
  unfolding generation_kept
  generation_kept_mono none g k h = refl
  generation_kept_mono (some id) none k h = refl
  generation_kept_mono (some id) (some g) k h = went_back_mono _ _ id g k.state h

  marks_identified_mono :
      {less more : FleetMemory} (id : Option String) (g : Option ℕ)
      → KnowsMore less more
      → is_err (marks_identified id g more) ≡ false
      → is_err (marks_identified id g less) ≡ false
  unfolding marks_identified
  marks_identified_mono none g k h = h
  marks_identified_mono (some id) none k h = h
  marks_identified_mono (some id) (some g) k h = went_back_mono _ _ id g k.state h

  kept_state_mono :
      {less more : FleetMemory} (m : Option Value)
      → KnowsMore less more
      → is_err (kept_state m more) ≡ false
      → is_err (kept_state m less) ≡ false
  unfolding kept_state
  kept_state_mono none k h = refl
  kept_state_mono (some m) k h =
      ground (
        arith,
        generation_kept_mono (as_str (index m "state_id")) (as_u64 (index m "generation")) k,
      )

  trusted_state_mono :
      {less more : FleetMemory} (m : Option Value)
      → KnowsMore less more
      → is_err (trusted_state m more) ≡ false
      → is_err (trusted_state m less) ≡ false
  unfolding trusted_state
  trusted_state_mono none k h = h
  trusted_state_mono (some m) k h =
      ground (
        arith,
        marks_identified_mono (as_str (index m "state_id")) (as_u64 (index m "generation")) k,
      )

  pub marks_not_lost_mono :
      {less more : FleetMemory} (status : Value) (co : Coordination)
      → KnowsMore less more
      → is_err (marks_not_lost status co more) ≡ false
      → is_err (marks_not_lost status co less) ≡ false
  unfolding marks_not_lost
  marks_not_lost_mono {less} {more} status co k h = ground (
    arith,
    kept_state_mono (marks_state status co) k,
    regressed_mono less.relay_regressed more.relay_regressed k.regressed,
  )

  -- An agent that remembers more never trusts the relay's marks where one that remembers less would not.
  pub marks_trusted_mono :
      {less more : FleetMemory} (status : Value) (co : Coordination)
      → KnowsMore less more
      → is_err (marks_trusted status co more) ≡ false
      → is_err (marks_trusted status co less) ≡ false
  unfolding marks_trusted
  marks_trusted_mono {less} {more} status co k h = ground (
    arith,
    trusted_state_mono (marks_state status co) k,
    regressed_mono less.relay_regressed more.relay_regressed k.regressed,
  )
