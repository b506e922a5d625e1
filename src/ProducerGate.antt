-- ===== src/ProducerGate.antt =====
-- src/producer_gate.rs: the all-producers gate. sha2 and hex are not under src/: the hex digest of a
-- text is the parameter `digest`. Sets of names are lists.
pub mod Schedule
pub mod Relay
pub mod Ready
pub mod Checked
pub mod Cover
pub mod Agents
pub mod Mainnet
use pulse_cutover.Prelude.Decimal.{show_u64, join, sort_texts}
use Prim.Native.String.{◌++◌ as concat}
use pulse_cutover.Prelude.{
  ℕ, String, Bool, true, false, not, ◌&&◌, ◌||◌, Option, none, some, List, [], ◌∷◌, ◌++◌, map,
  if◌then◌else◌, ltb, leb, nat_eq, ◌==◌, codes, length, filter, find, any, is_empty, is_none,
  map_or, map_option, contains, eq_ignore_ascii_case, unwrap_or,
}
use pulse_cutover.Config.{RosterMember}
use pulse_cutover.Version.{parse_version, version_at_least, is_alphanumeric}

abbrev pub min_agent_version : String
min_agent_version = "0.5.0-rc.33"

abbrev pub gate_max_report_age_secs : ℕ
gate_max_report_age_secs = 45

abbrev pub freeze_states : List String
freeze_states = "ARMED" ∷ "FROZEN" ∷ []

pub record Sched : Type 0 where
  pub version : ℕ
  pub producers : List String

pub record Gate : Type 0 where
  pub v : ℕ
  pub required : List String
  pub cover : List (String × String)
  pub active : Sched
  pub pending : Option Sched
  pub proposed : Option Sched
  pub standby : List String
  pub min_version : String
  pub event_id : String
  pub h : ℕ
  pub sha256 : String

unfoldable pub all_codes : (ℕ → Bool) → List ℕ → Bool
all_codes p [] = true
all_codes p (c ∷ cs) = p c && all_codes p cs

unfoldable pub valid_name : String → Bool
unfolding all_codes
valid_name n =
    not (is_empty (codes n))
    && leb (length (codes n)) 12
    && all_codes (λ b. (leb b'a' b && leb b b'z') || (leb b'1' b && leb b b'5') || nat_eq b b'.')
        (codes n)

unfoldable pub valid_event_id : String → Bool
unfolding all_codes
valid_event_id e =
    not (is_empty (codes e))
    && leb (length (codes e)) 64
    && all_codes
        (λ b. is_alphanumeric b || nat_eq b b'_' || nat_eq b b'.' || nat_eq b b':' || nat_eq b b'-')
        (codes e)

abbrev pub lookup : String → List (String × String) → Option String
lookup k [] = none
lookup k ((j, v) ∷ m) = if j == k then some v else lookup k m

-- The roster member that runs the agent of `name`.
unfoldable pub member_of : Gate → String → String
member_of g name = unwrap_or (lookup name g.cover) name

infixr 65 ◌<>◌
abbrev ◌<>◌ : String → String → String
s <> t = concat s t

abbrev show_sched : Option Sched → String
show_sched none = "-"
show_sched (some s) = show_u64 s.version <> ":" <> join "," s.producers

-- The text that the digest covers.
unfoldable pub canonical : Gate → String
unfolding show_u64 join sort_texts member_of
canonical g = join "\n" (
    "pulse-cutover producer gate v1"
    ∷ ("event_id=" <> g.event_id)
    ∷ ("h=" <> show_u64 g.h)
    ∷ ("required=" <> join "," (map (λ n. n <> ":" <> member_of g n) (sort_texts g.required)))
    ∷ ("active=" <> show_sched (some g.active))
    ∷ ("pending=" <> show_sched g.pending)
    ∷ ("proposed=" <> show_sched g.proposed)
    ∷ ("standby=" <> join "," (sort_texts g.standby))
    ∷ ("min_agent_version=" <> g.min_version)
    ∷ [])

pub data GateError : Type 0 where
  unknown_version : ℕ → GateError
  hash_mismatch bad_event_id zero_h bad_min_version old_min_version : GateError
  required_twice required_not_union empty_active : GateError
  bad_name bad_cover_member cover_not_required : String → GateError
  uncovered : List (String × String) → GateError

abbrev pub producers_of : Option Sched → List String
producers_of none = []
producers_of (some s) = s.producers

-- active ∪ pending ∪ proposed ∪ standby
abbrev pub union_of : Gate → List String
union_of g =
    g.active.producers ++ (producers_of g.pending ++ (producers_of g.proposed ++ g.standby))

unfoldable pub repeats : List String → Bool
repeats [] = false
repeats (s ∷ ss) = contains ss s || repeats ss

-- Every name of the first list is in the second.
unfoldable pub subset : List String → List String → Bool
subset [] ts = true
subset (s ∷ ss) ts = contains ts s && subset ss ts

-- `if test { return Err(e) }`, for a check whose `Ok` carries nothing.
infixr 4 ◌otherwise◌
abbrev pub ◌otherwise◌ : Bool × GateError → Option GateError → Option GateError
(test, e) otherwise rest = if test then some e else rest

-- `if let Some(bad) = xs.find(…) { return Err(…) }`.
abbrev pub find_error : Option String → (String → GateError) → Option GateError → Option GateError
find_error none e rest = rest
find_error (some s) e rest = some (e s)

abbrev pub roster_names : List RosterMember → List String
roster_names roster = map (λ m. m.producer) roster

-- The required names whose agent no roster member runs.
abbrev pub uncovered_names : Gate → List RosterMember → List String
uncovered_names g roster =
    filter g.required (λ n. not (contains (roster_names roster) (member_of g n)))

-- The first name, in the set's order, that is no account name; and so for the cover's two columns.
unfoldable pub bad_required : Gate → Option String
unfolding sort_texts valid_name
bad_required g = find (sort_texts g.required) (λ n. not (valid_name n))

unfoldable pub bad_member : Gate → Option String
unfolding valid_name
bad_member g = find (map (λ (kv : String × String). kv.1) g.cover) (λ m. not (valid_name m))

unfoldable pub stray_cover : Gate → Option String
stray_cover g =
    find (map (λ (kv : String × String). kv.0) g.cover) (λ k. not (contains g.required k))

-- The end of the check: the names, and the roster.
unfoldable pub check_names : Gate → List RosterMember → Option GateError
check_names g roster = find_error (bad_required g) bad_name (
    find_error (bad_member g) bad_cover_member (
      find_error (stray_cover g) cover_not_required (
        (
          not (is_empty (uncovered_names g roster)),
          uncovered (map (λ n. (n, member_of g n)) (uncovered_names g roster)),
        )
        otherwise none)))

-- `none` is `Ok`.
unfoldable pub check : (String → String) → Gate → List RosterMember → Option GateError
check digest g roster =
    (not (nat_eq g.v 1), unknown_version g.v)
    otherwise (not (eq_ignore_ascii_case g.sha256 (digest (canonical g))), hash_mismatch)
    otherwise (not (valid_event_id g.event_id), bad_event_id)
    otherwise (nat_eq g.h 0, zero_h)
    otherwise (is_none (parse_version g.min_version), bad_min_version)
    otherwise (not (version_at_least g.min_version min_agent_version), old_min_version)
    otherwise (repeats g.required, required_twice)
    otherwise (
      not (subset g.required (union_of g) && subset (union_of g) g.required),
      required_not_union,
    )
    otherwise (is_empty g.active.producers, empty_active)
    otherwise check_names g roster
