-- ===== src/Chain.antt =====
-- src/core/chain.c: a chain is a hook with its options, a policy, sets and rules.
use bpfilter.Prelude.{
  ℕ, ◌+◌, Bool, true, false, not, ◌++◌, List, [], ◌∷◌, Option, none, some, ltb, ◌==◌, length,
  if◌then◌else◌,
}
use bpfilter.Result.{Result, ok, err, fault, ◌>>=◌, ◌>>◌, assert, e2big, einval}
use bpfilter.Bytes.{le, load_string}
use bpfilter.Marsh.{
  Marsh, header_size, marsh_new, add_child_raw, add_child_obj, require_child, next_child, load_uint,
  data_len, is_empty, all_children, list_marsh,
}
use bpfilter.Rule.{Rule, bool_byte, rule_marsh, rule_unmarsh}
use bpfilter.Set.{KeySet, set_marsh, set_new_from_marsh}
use bpfilter.Hook.{HookOpts, no_opts}
pub mod RoundTrip
pub mod Indices

-- _BF_TERMINAL_VERDICT_MAX
abbrev pub terminal_verdict_max : ℕ
terminal_verdict_max = 2

-- `struct bf_chain`
pub record Chain : Type 0 where
  pub hook : ℕ
  pub hook_opts : HookOpts
  pub policy : ℕ
  pub sets : List KeySet
  pub rules : List Rule

unfoldable pub chain_add_rule : Chain → Rule → Chain
chain_add_rule chain rule = record chain {
  rules = chain.rules ++ record rule { index = length chain.rules } ∷ [];
}

-- The loop of bf_chain_new over the rules it is given.
unfoldable pub chain_add_rules : Chain → List Rule → Chain
unfolding chain_add_rule
chain_add_rules chain [] = chain
chain_add_rules chain (rule ∷ rules) = chain_add_rules (chain_add_rule chain rule) rules

-- A NULL list is an empty one.
unfoldable pub chain_new : ℕ → ℕ → List KeySet → List Rule → Result Chain
unfolding chain_add_rules
chain_new hook policy sets rules = do
  assert (ltb policy terminal_verdict_max)
  ok (
      chain_add_rules
        (record { hook = hook; hook_opts = no_opts; policy = policy; sets = sets; rules = [] })
        rules)

-- A string is stored with its final 0, a NULL string as an empty child.
abbrev pub string_bytes : Option (List ℕ) → List ℕ
string_bytes none = []
string_bytes (some s) = s ++ 0 ∷ []

-- `if (list_elem->data_len) x = strdup(list_elem->data);`
unfoldable pub load_option : List ℕ → ℕ → Result (Option (List ℕ))
unfolding is_empty
load_option b c = is_empty b c >>= λ empty.
    if empty then ok none else do s ← load_string b (c + header_size); ok (some s)

-- The block of bf_chain_new_from_marsh under "Unmarsh bf_chain.hook_opts".
unfoldable pub opts_from_marsh : List ℕ → ℕ → Result HookOpts
unfolding load_option
opts_from_marsh b m = do
  c ← require_child b m none
  used ← load_uint b c 4
  c ← require_child b m (some c)
  ifindex ← load_uint b c 4
  c ← require_child b m (some c)
  cgroup ← load_option b c
  c ← require_child b m (some c)
  name ← load_option b c
  c ← require_child b m (some c)
  attach ← load_uint b c 1
  next ← next_child b m (some c)
  elim next [
    | none ↦ ok (record {
      used_opts = used;
      ifindex = ifindex;
      cgroup = cgroup;
      name = name;
      attach = not (attach == 0);
    })
    | some extra ↦ err e2big
  ]

unfoldable pub chain_new_from_marsh : List ℕ → ℕ → Result Chain
unfolding chain_new opts_from_marsh
chain_new_from_marsh b m = do
  c ← require_child b m none
  hook ← load_uint b c 4
  c ← require_child b m (some c)
  policy ← load_uint b c 4
  chain ← chain_new hook policy [] []
  c ← require_child b m (some c)
  opts ← opts_from_marsh b c
  c ← require_child b m (some c)
  sets ← all_children (set_new_from_marsh b) b c
  c ← require_child b m (some c)
  rules ← all_children (rule_unmarsh b) b c
  ok (record chain { hook_opts = opts; sets = chain.sets ++ sets; rules = chain.rules ++ rules })

-- The block of bf_chain_marsh under "Serialize bf_chain.hook_opts".
unfoldable pub opts_marsh : HookOpts → Marsh
opts_marsh opts =
    let a = add_child_raw (marsh_new []) (le 4 opts.used_opts) in
    let b = add_child_raw a (le 4 opts.ifindex) in
    let c = add_child_raw b (string_bytes opts.cgroup) in
    let d = add_child_raw c (string_bytes opts.name) in
    add_child_raw d (le 1 (bool_byte opts.attach))

unfoldable pub chain_marsh : Chain → Marsh
unfolding opts_marsh
chain_marsh chain =
    let a = add_child_raw (marsh_new []) (le 4 chain.hook) in
    let b = add_child_raw a (le 4 chain.policy) in
    let c = add_child_obj b (opts_marsh chain.hook_opts) in
    let d = add_child_obj c (list_marsh set_marsh chain.sets (marsh_new [])) in
    add_child_obj d (list_marsh rule_marsh chain.rules (marsh_new []))
