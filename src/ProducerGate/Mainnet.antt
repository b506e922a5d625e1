-- ===== src/ProducerGate/Mainnet.antt =====
-- src/producer_gate.rs, `mainnet_cover_problem`, and src/config.rs, `is_xpr_mainnet`.
pub mod Own
use pulse_cutover.Prelude.{
  ℕ, ◌+◌, String, Bool, true, false, not, ◌&&◌, Option, none, some, List, [], ◌∷◌, map, filter,
  is_empty, is_some_and, then_some, leb, nat_eq, if◌then◌else◌, codes, ◌==◌,
}
use pulse_cutover.Version.{trim}
use pulse_cutover.ProducerGate.{Gate}

abbrev pub xpr_mainnet_chain_id : String
xpr_mainnet_chain_id = "384da888112027f0321850a169f737c33e53b388aad48b5adace4bab97f437e0"

lower_code : ℕ → ℕ
lower_code c = if leb b'A' c && leb c b'Z' then c + 32 else c

same_codes : List ℕ → List ℕ → Bool
same_codes [] [] = true
same_codes [] (d ∷ ds) = false
same_codes (c ∷ cs) [] = false
same_codes (c ∷ cs) (d ∷ ds) = nat_eq c d && same_codes cs ds

unfoldable pub is_xpr_mainnet : String → Bool
unfolding lower_code same_codes trim
is_xpr_mainnet chain_id =
    same_codes (map lower_code (trim (codes chain_id)))
      (map lower_code (codes xpr_mainnet_chain_id))

-- The names that are mapped onto another member.
abbrev pub mapped : List (String × String) → List (String × String)
mapped cover = filter cover (λ (kv : String × String). not (kv.0 == kv.1))

-- `none` is allowed; the error names the mapped producers.
unfoldable pub mainnet_cover_problem : Gate → Option String → Bool → Option (List (String × String))
unfolding is_xpr_mainnet
mainnet_cover_problem g chain_id rehearsal_or_shadow =
    then_some
      (is_some_and chain_id is_xpr_mainnet
        && not rehearsal_or_shadow
        && not (is_empty (mapped g.cover)))
      (mapped g.cover)
