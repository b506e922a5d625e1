-- ===== src/Machine/Effects/Withheld.antt =====
-- src/machine.rs, `unstage`: it touches neither the pause nor the admission.
use pulse_cutover.Prelude.{String, Bool, true, false, refl}
use pulse_cutover.Json.{Json}
use pulse_cutover.Machine.Exec.Along.{Same-Preorder}
use pulse_cutover.Machine.Host.{
  Host, Effect, wrote, unwritten, saw_producer, paused, resumed, ran, paged, saw_whitelist,
  set_whitelist, moved_aside, remembered,
}
use pulse_cutover.Machine.Core.{call}
use pulse_cutover.Machine.Steps.{Progress, unstage}
use pulse_cutover.Machine.Effects.Rules.{Ignores, Spares, spare_rules, call-Spares}
use pulse_cutover.Machine.Effects.Stopped.{gate-Spares}

module _ ⦃J : Json⦄ where
  -- A pause, a resume, a hook but the paging one, a change of the producer's whitelist.
  abbrev pub reopens : Effect → Bool
  reopens (paused r) = true
  reopens (resumed r) = true
  reopens (ran cmd r) = true
  reopens (set_whitelist l r) = true
  reopens (moved_aside to r) = false
  reopens (wrote l) = false
  reopens (unwritten l) = false
  reopens (saw_producer r) = false
  reopens (paged cmd r) = false
  reopens (saw_whitelist r) = false
  reopens (remembered e) = false

  reopens-Ignores : Ignores reopens
  reopens-Ignores = record {
    wrote_line = λ l. refl;
    unwritten_line = λ l. refl;
    read_producer = λ r. refl;
    read_whitelist = λ r. refl;
    page_human = λ cmd r. refl;
    recall = λ e. refl;
  }

module _ ⦃J : Json⦄ ⦃H : Host⦄ where
  open J use {Value}

  moved-Spares : (to : String) → Spares reopens (call (H.rename_staged to) (moved_aside to))
  moved-Spares to = call-Spares (H.rename_staged to) (moved_aside to) λ r. refl

  pub unstage-Spares : (any : Bool) (p : Progress Value) → Spares reopens (unstage any p)
  unfolding unstage
  unstage-Spares any p =
      search (spare_rules, reopens-Ignores, gate-Spares, moved-Spares) depth 40 fits 4000
