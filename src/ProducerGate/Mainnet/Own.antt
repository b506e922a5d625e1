-- ===== src/ProducerGate/Mainnet/Own.antt =====
-- src/producer_gate.rs, `mainnet_cover_problem`, and the members that it leaves to the names.
use pulse_cutover.Prelude.{
  ◌≡◌, refl, sym, ◌∙◌, String, true, false, none, some, List, [], ◌∷◌, is_empty, unwrap_or,
  Bool-cases, inl, inr, ◌==◌, eq_iff,
}
use pulse_cutover.ProducerGate.{Gate, lookup, member_of}
use pulse_cutover.ProducerGate.Mainnet.{is_xpr_mainnet, mapped, mainnet_cover_problem}

lookup_own :
    (cover : List (String × String)) (n : String)
    → is_empty (mapped cover) ≡ true
    → unwrap_or (lookup n cover) n ≡ n
lookup_own [] n h = refl
lookup_own ((k, m) ∷ cover) n h = elim (Bool-cases (k == m)) [
  | inr e ↦ cc (rw e at h)
  | inl e ↦ elim (Bool-cases (k == n)) [
    | inl f ↦ rw f (sym ((eq_iff k m).0 e) ∙ (eq_iff k n).0 f)
    | inr f ↦ rw f (lookup_own cover n (rw e at h))
  ]
]

-- On XPR mainnet, outside a rehearsal or a shadow, an allowed gate leaves every name to its own agent.
pub mainnet_own_agents :
    (g : Gate) (chain_id n : String)
    → is_xpr_mainnet chain_id ≡ true
    → mainnet_cover_problem g (some chain_id) false ≡ none
    → member_of g n ≡ n
unfolding mainnet_cover_problem member_of
mainnet_own_agents g chain_id n main allowed =
    lookup_own g.cover n (elim (Bool-cases (is_empty (mapped g.cover))) [
      | inl e ↦ e
      | inr e ↦ cc (rw (main, e) at allowed)
    ])
