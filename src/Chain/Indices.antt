-- ===== src/Chain/Indices.antt =====
-- The indices that the rules of a chain get.
use bpfilter.Prelude.{
  ℕ, zero, suc, ◌+◌, ◌<◌, ◌≡◌, refl, ap, ◌∙◌, List, [], ◌∷◌, some, length, get_elem?, length-append,
  get_elem?-length, get_elem?-append_left, arith, lt→ltb, some_injective,
}
use bpfilter.Result.{Gives}
use bpfilter.Rule.{Rule}
use bpfilter.Set.{KeySet}
use bpfilter.Hook.{no_opts}
use bpfilter.Chain.{Chain, chain_add_rule, chain_add_rules, chain_new, terminal_verdict_max}

length-add_rules :
    (chain : Chain) (rules : List Rule)
    → length (chain_add_rules chain rules).rules ≡ length chain.rules + length rules
unfolding chain_add_rules chain_add_rule
length-add_rules chain [] = omega arith
length-add_rules chain (rule ∷ rules) = omega (
  arith,
  length-add_rules (chain_add_rule chain rule) rules,
  length-append chain.rules (record rule { index = length chain.rules } ∷ []),
)

-- What is there stays where it is.
kept :
    (chain : Chain) (rules : List Rule) (i : ℕ)
    → i < length chain.rules
    → get_elem? (chain_add_rules chain rules).rules i ≡ get_elem? chain.rules i
unfolding chain_add_rules chain_add_rule
kept chain [] i h = refl
kept chain (rule ∷ rules) i h =
    let last = record rule { index = length chain.rules } ∷ [] in
    kept (chain_add_rule chain rule) rules i (omega (arith, h, length-append chain.rules last))
    ∙ get_elem?-append_left chain.rules last i h

numbered :
    (chain : Chain) (rules : List Rule) (i n : ℕ) (rule : Rule)
    → n ≡ length chain.rules + i
    → get_elem? rules i ≡ some rule
    → get_elem? (chain_add_rules chain rules).rules n ≡ some (record rule { index = n })
unfolding chain_add_rules chain_add_rule
numbered chain [] i n rule e h = cc
numbered chain (first ∷ rules) zero n rule e h =
    let last = record first { index = length chain.rules } in
    let at : n ≡ length chain.rules = omega (arith, e) in
    let same : first ≡ rule = some_injective h in
    let there : get_elem? (chain_add_rule chain first).rules (length chain.rules) ≡ some last =
      get_elem?-length chain.rules [] last in
    rw at (
      kept (chain_add_rule chain first) rules (length chain.rules)
        (omega (arith, length-append chain.rules (last ∷ [])))
      ∙ there
      ∙ ap {A = Rule} (λ r. some (record r { index = length chain.rules })) same)
numbered chain (first ∷ rules) (suc i) n rule e h =
    let last = record first { index = length chain.rules } ∷ [] in
    numbered (chain_add_rule chain first) rules i n rule
      (omega (arith, e, length-append chain.rules last)) h

-- bf_chain_new with a terminal policy succeeds, keeps the rules in their order and gives each one its
-- place as its index.
pub chain_new-index :
    (hook policy : ℕ) (sets : List KeySet) (rules : List Rule) (i : ℕ) (rule : Rule)
    → policy < terminal_verdict_max
    → get_elem? rules i ≡ some rule
    → Gives (chain_new hook policy sets rules) (λ chain.
      (length chain.rules ≡ length rules)
      × (get_elem? chain.rules i ≡ some (record rule { index = i })))
unfolding chain_new
chain_new-index hook policy sets rules i rule known h =
    let empty : Chain = record {
      hook = hook;
      hook_opts = no_opts;
      policy = policy;
      sets = sets;
      rules = [];
    } in
    (
      chain_add_rules empty rules,
      rw (lt→ltb policy 2 known) refl,
      (omega (arith, length-add_rules empty rules), numbered empty rules i i rule (omega arith) h),
    )
