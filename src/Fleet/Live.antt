-- ===== src/Fleet/Live.antt =====
-- src/fleet.rs: `live_view`, what the fleet shows about the target chain after ignition, and
-- `join_view`, the chain that a `join` may track. The text of `why` is not modelled: each text belongs
-- to one constructor of `Why`.
pub mod Safety
pub mod Join
use Prim.Native.Nat.{Ordering}
use Prim.Native.String.{compare}
use pulse_cutover.Prelude.{
  ℕ, String, Bool, true, false, Option, none, some, List, [], ◌∷◌, ◌++◌, map, not, ◌&&◌, ◌||◌, ◌==◌,
  length, if◌then◌else◌, unwrap_or, is_some_and, is_none_or, is_none, leb, ltb, nat_eq, contains,
  and_then, map_option, max, to_ascii_lowercase, filter_map, eq_ignore_ascii_case, is_empty,
  or_else,
}
use pulse_cutover.Json.{Json}
use pulse_cutover.Config.{Coordination}
use pulse_cutover.Version.{then_cmp}
use pulse_cutover.Fleet.Reports.{is_text}
use pulse_cutover.Fleet.Members.{MemberView, members}
use pulse_cutover.Fleet.Resume.{quorum_of}
use pulse_cutover.Fleet.Groups.{Group, KeyOrder, gather, unique_best}
use pulse_cutover.Fleet.Result.{
  Result, ok, err, Refusal, ◌>>=◌, ◌>>◌, refuse_if, relay_silent, no_roster_or_quorum,
  no_live_member, split_quorum, too_few_live, evidence_differs,
}

pub data Why : Type 0 where
  relay_unanswered no_quorum no_target_block split other_chain quorum_on_chain too_few : Why

pub record LiveView : Type 0 where
  pub healthy : Bool
  pub why : Why
  pub members : List String
  pub after_cut_id : Option String
  pub max_head : ℕ
  pub hard : Bool

abbrev pub unread_grace_ms : ℕ
unread_grace_ms = 60000

abbrev pub text_order : KeyOrder String
text_order = record { cmp = compare; same_key = ◌==◌ }

abbrev pub pair_order : KeyOrder (String × String)
pair_order = record {
  cmp = λ a b. then_cmp (compare a.0 b.0) (compare a.1 b.1);
  same_key = λ a b. (a.0 == b.0) && (a.1 == b.1);
}

abbrev no_view : Why → LiveView
no_view why = record {
  healthy = false;
  why = why;
  members = [];
  after_cut_id = none;
  max_head = 0;
  hard = false;
}

module _ ⦃J : Json⦄ where
  open J use {Value, index, as_str, as_u64, is_null, same}

  -- The head that counts: past the cut, or unreadable for a bounded time (then 0).
  unfoldable pub counted_head : ℕ → Value → Option ℕ
  counted_head cut t = elim (as_u64 (index t "head")) [
    | some h ↦ if leb h cut then none else some h
    | none ↦
        if is_some_and (as_u64 (index t "unread_for_ms")) (λ ms. leb ms unread_grace_ms)
        then some 0
        else none
  ]

  -- On another chain, if both chain ids are known.
  abbrev other_chain_id : Option String → Option String → Bool
  other_chain_id our_bid theirs =
      is_some_and our_bid (λ ours. is_some_and theirs (λ t. not (ours == t)))

  -- The block after the cut (lower case) and the head by which a member counts.
  unfoldable pub live_member : ℕ → Option String → MemberView → Option (String × ℕ)
  live_member cut our_bid m = and_then m.report λ r.
      let c = index r "ceremony" in
      let t = index c "target" in
      if not (
        is_some_and (as_str (index c "state"))
          (contains ("IGNITED" ∷ "FLIPPED" ∷ "LIVE" ∷ "HALTED" ∷ [])))
      then none
      else and_then (as_str (index t "after_cut_id")) λ first. and_then (counted_head cut t) λ head.
        if other_chain_id our_bid (as_str (index t "blockchain_id"))
        then none
        else some (to_ascii_lowercase first, head)

  abbrev pub add_live : String → ℕ → Group String ℕ → Group String ℕ
  add_live producer head g = record g {
    members = g.members ++ (producer ∷ []);
    value = max g.value head;
  }

  unfoldable pub live_groups : ℕ → Option String → List MemberView → List (Group String ℕ)
  live_groups cut our_bid ms =
      gather text_order (live_member cut our_bid) 0 (λ m head. add_live m.producer head) ms []

  abbrev found : Group String ℕ → Bool → Why → Bool → LiveView
  found g healthy why hard = record {
    healthy = healthy;
    why = why;
    members = g.members;
    after_cut_id = some g.key;
    max_head = g.value;
    hard = hard;
  }

  unfoldable pub judge_live : ℕ → Option String → Option (Group String ℕ × Bool) → LiveView
  judge_live q our_after_cut none = no_view no_target_block
  judge_live q our_after_cut (some (g, unique)) =
      if not unique
      then found g false split true
      else if is_some_and our_after_cut (λ ours. not (eq_ignore_ascii_case ours g.key))
      then found g false other_chain true
      else if leb q (length g.members)
      then found g true quorum_on_chain false
      else found g false too_few false

  unfoldable pub live_view :
      Option Value → Coordination → ℕ → Option String → Option String → LiveView
  live_view none co cut our_bid our_after_cut = no_view relay_unanswered
  live_view (some status) co cut our_bid our_after_cut =
      if nat_eq (quorum_of co) 0
      then no_view no_quorum
      else judge_live (quorum_of co) our_after_cut
          (unique_best (live_groups cut our_bid (members status co)) (quorum_of co))

  -- What `join_view` keeps of a group: the subnet, and the evidence that differs from ours.
  pub record JoinFacts : Type 0 where
    pub subnet : Option String
    pub mismatches : List (String × String)

  abbrev pub compared : List String
  compared =
      "snapshot_sha256" ∷ "fingerprints_digest" ∷ "boot_genesis_sha256" ∷ "compare_allowed_digest"
      ∷ "protocol_schedule_hash" ∷ []

  -- The entries of our evidence that a member's evidence does not equal.
  unfoldable pub mismatches_of : Value → String → Value → List (String × String)
  mismatches_of ours producer evidence = filter_map compared λ k.
      if not (is_null (index ours k)) && not (same (index ours k) (index evidence k))
      then some (producer, k)
      else none

  -- A member LIVE on a target chain: the chain, the block after the cut, its report's ceremony.
  unfoldable pub join_member : MemberView → Option ((String × String) × Value)
  join_member m = and_then m.report λ r.
      let c = index r "ceremony" in
      let t = index c "target" in
      if not (is_text (as_str (index c "state")) "LIVE")
      then none
      else and_then (as_str (index t "blockchain_id")) λ bid.
        map_option (λ first. ((bid, to_ascii_lowercase first), c)) (as_str (index t "after_cut_id"))

  abbrev pub add_join :
      Value → String → Value → Group (String × String) JoinFacts → Group (String × String) JoinFacts
  add_join ours producer c g = record g {
    members = g.members ++ (producer ∷ []);
    value = record {
      subnet = or_else g.value.subnet (as_str (index (index c "target") "subnet_id"));
      mismatches = g.value.mismatches ++ mismatches_of ours producer (index c "evidence");
    };
  }

  abbrev pub no_facts : JoinFacts
  no_facts = record { subnet = none; mismatches = [] }

  unfoldable pub join_groups : Value → List MemberView → List (Group (String × String) JoinFacts)
  join_groups ours ms =
      gather pair_order join_member no_facts (λ m c. add_join ours m.producer c) ms []

  abbrev pub Joined : Type 0
  Joined = String × Option String × List String

  unfoldable pub judge_join : ℕ → Option (Group (String × String) JoinFacts × Bool) → Result Joined
  judge_join q none = err no_live_member
  judge_join q (some (g, unique)) = do
    refuse_if (not unique) split_quorum
    refuse_if (ltb (length g.members) q) (too_few_live g.members q)
    refuse_if (not (is_empty g.value.mismatches)) (evidence_differs g.value.mismatches)
    ok (g.key.0, g.value.subnet, g.members)

  unfoldable pub join_view : Option Value → Coordination → Value → Result Joined
  join_view none co ours = err relay_silent
  join_view (some status) co ours = do
    refuse_if (nat_eq (quorum_of co) 0) no_roster_or_quorum
    judge_join (quorum_of co) (unique_best (join_groups ours (members status co)) (quorum_of co))
