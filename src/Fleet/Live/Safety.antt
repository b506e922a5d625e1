-- ===== src/Fleet/Live/Safety.antt =====
-- src/fleet.rs, `live_view` against the members.
use pulse_cutover.Prelude.{
  ℕ, suc, ◌≤◌, ◌≡◌, refl, ap, String, Bool, true, false, Option, none, some, List, [], ◌∷◌, ◌++◌,
  not, length, arith, Bool-cases, is_some_and, is_none_or, inl, inr, nat_eq, eq_iff,
  eq_ignore_ascii_case,
}
use pulse_cutover.Json.{Json}
use pulse_cutover.Config.{Coordination}
use pulse_cutover.Fleet.Members.{members}
use pulse_cutover.Fleet.Resume.{quorum_of}
use pulse_cutover.Fleet.Groups.{Group, size, unique_best}
use pulse_cutover.Fleet.Groups.Counts.{Lawful}
use pulse_cutover.Fleet.Groups.Gathered.{count_for, best_gathered}
use pulse_cutover.Fleet.Live.{
  text_order, pair_order, live_member, live_groups, judge_live, live_view, add_live,
}

pub text_order-Lawful : Lawful text_order
text_order-Lawful a b = eq_iff a b

pub pair_order-Lawful : Lawful pair_order
pair_order-Lawful (a, b) (c, d) = ground (arith, eq_iff a c, eq_iff b d)

pub length-snoc : (xs : List String) (x : String) → length (xs ++ (x ∷ [])) ≡ suc (length xs)
length-snoc [] x = refl
length-snoc (y ∷ ys) x = ap suc (length-snoc ys x)

module _ ⦃J : Json⦄ where
  open J use {Value}

  -- How many members of the fleet are on a live target chain with the block `k` after the cut.
  abbrev pub on_block : Value → Coordination → ℕ → Option String → String → ℕ
  on_block status co cut our_bid k =
      count_for text_order (live_member cut our_bid) k (members status co)

  agrees :
      (our : Option String) (g : Group String ℕ)
      → is_some_and our (λ ours. not (eq_ignore_ascii_case ours g.key)) ≡ false
      → is_none_or our (λ ours. eq_ignore_ascii_case ours g.key) ≡ true
  agrees none g h = refl
  agrees (some ours) g h = ground arith

  judge_live-healthy :
      (q : ℕ) (our : Option String) (best : Option (Group String ℕ × Bool))
      → (judge_live q our best).healthy ≡ true
      → (g : Group String ℕ) × (best ≡ some (g, true))
        × (q ≤ size g)
        × ((judge_live q our best).after_cut_id ≡ some g.key)
        × (is_none_or our (λ ours. eq_ignore_ascii_case ours g.key) ≡ true)
  unfolding judge_live
  judge_live-healthy q our none h = cc
  judge_live-healthy q our (some (g, false)) h = cc
  judge_live-healthy q our (some (g, true)) h =
      (g, refl, ground arith, ground arith, agrees our g (ground arith))

  -- A healthy view names one block after the cut on which a quorum of the fleet is, and no other block
  -- has a quorum; this node's own block after the cut, if it has one, is that block up to ASCII case.
  pub live_view-quorum :
      (status : Value) (co : Coordination) (cut : ℕ) (our_bid our_after_cut : Option String)
      → (live_view (some status) co cut our_bid our_after_cut).healthy ≡ true
      → (k : String) × ((live_view (some status) co cut our_bid our_after_cut).after_cut_id
          ≡ some k)
        × (quorum_of co ≤ on_block status co cut our_bid k)
        × ((j : String) → quorum_of co ≤ on_block status co cut our_bid j → j ≡ k)
        × (is_none_or our_after_cut (λ ours. eq_ignore_ascii_case ours k) ≡ true)
  unfolding live_view live_groups
  live_view-quorum status co cut our_bid our_after_cut h =
      elim (Bool-cases (nat_eq (quorum_of co) 0)) [
        | inl z ↦ cc (rw z at h)
        | inr z ↦
            let q = quorum_of co in
            let best = unique_best (live_groups cut our_bid (members status co)) q in
            let (g, e, big, id, same) = judge_live-healthy q our_after_cut best (rw z at h) in
            let b =
              best_gathered text_order text_order-Lawful (live_member cut our_bid) 0
                (λ m head. add_live m.producer head) (λ m x g. refl)
                (λ m x g. length-snoc g.members m.producer) q (members status co) g true
                (ground (arith, z)) e in
            (g.key, rw z id, omega (arith, big, b.0), b.1 refl big, same)
      ]
