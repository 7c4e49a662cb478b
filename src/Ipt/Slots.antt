-- ===== src/Ipt/Slots.antt =====
-- The hooks of the chains that are translated from iptables.
use bpfilter.Prelude.{
  ℕ, zero, suc, ◌+◌, ◌-◌, ◌≡◌, refl, ap, ◌∙◌, subst, Bool, true, false, List, [], Option, none,
  some, All, ltb, Bool-cases, inl, inr, get_elem?, if◌then◌else◌,
}
use bpfilter.Result.{Result, ok, fault, ◌>>=◌, >>=-eq-ok, ok_injective}
use bpfilter.Hook.{has_flag}
use bpfilter.Hook.Types.{nf_hook_to_hook}
use bpfilter.Chain.{Chain, chain_new, chain_add_rule, chain_add_rules}
use bpfilter.Prog.Ident.{by_netfilter}
use bpfilter.Ipt.{Sizes, target_to_verdict, entry_to_rule}
use bpfilter.Ipt.Ruleset.{
  IptBlock, IptReplace, attach_opts, get_target, read, num_hooks, add_entries, entries_to_chain,
  xlate_hooks, xlate_ruleset_set,
}

-- A chain at a hook of Netfilter.
abbrev pub AtNetfilter : Option Chain → Type 0
AtNetfilter none = Unit {0}
AtNetfilter (some chain) = by_netfilter chain.hook ≡ true

nf_hook_to_hook-by_netfilter :
    (ipt_hook hook : ℕ) → nf_hook_to_hook ipt_hook ≡ ok hook → by_netfilter hook ≡ true
unfolding nf_hook_to_hook
nf_hook_to_hook-by_netfilter zero hook e = subst (λ x. by_netfilter x ≡ true) (ok_injective e) refl
nf_hook_to_hook-by_netfilter (suc zero) hook e =
    subst (λ x. by_netfilter x ≡ true) (ok_injective e) refl
nf_hook_to_hook-by_netfilter (suc (suc zero)) hook e =
    subst (λ x. by_netfilter x ≡ true) (ok_injective e) refl
nf_hook_to_hook-by_netfilter (suc (suc (suc zero))) hook e =
    subst (λ x. by_netfilter x ≡ true) (ok_injective e) refl
nf_hook_to_hook-by_netfilter (suc (suc (suc (suc zero)))) hook e =
    subst (λ x. by_netfilter x ≡ true) (ok_injective e) refl
nf_hook_to_hook-by_netfilter (suc (suc (suc (suc (suc n))))) hook e = cc

fault_not_ok : {c : Chain} → fault ≡ ok c → ⊥
fault_not_ok f = cc

module _ (sizes : Sizes) (block : IptBlock) where
  add_entries-hook :
      (rounds : ℕ) (chain made : Chain) (first last : ℕ)
      → add_entries sizes block rounds chain first last ≡ ok made
      → chain.hook ≡ made.hook
  unfolding add_entries chain_add_rule
  add_entries-hook zero chain made first last e = elim (Bool-cases (ltb first last)) [
    | inl a ↦ absurd (fault_not_ok (rw a at e))
    | inr a ↦ ap (λ c. c.hook) (ok_injective (rw a at e))
  ]
    where
      fault_not_ok : {c : Chain} → fault ≡ ok c → ⊥
      fault_not_ok f = cc
  add_entries-hook (suc rounds) chain made first last e = elim (Bool-cases (ltb first last)) [
    | inl a ↦
        let (entry, f, g) = >>=-eq-ok (read (block.entry_at first)) _ (rw a at e) in
        let (rule, h, k) =
          >>=-eq-ok (entry_to_rule sizes entry (get_target block first entry)) _ g in
        add_entries-hook rounds (chain_add_rule chain rule) made (first + entry.next_offset) last k
    | inr a ↦ ap (λ c. c.hook) (ok_injective (rw a at e))
  ]

  entries_to_chain-AtNetfilter :
      (ipt_hook first last : ℕ) (made : Chain)
      → entries_to_chain sizes block ipt_hook first last ≡ ok made
      → AtNetfilter (some made)
  unfolding entries_to_chain chain_new chain_add_rules
  entries_to_chain-AtNetfilter ipt_hook first last made e =
      let (entry, a, b) = >>=-eq-ok (read (block.entry_at last)) _ e in
      let (target, c, d) = >>=-eq-ok (read (get_target block last entry)) _ b in
      let (policy, f, g) = >>=-eq-ok (target_to_verdict target) _ d in
      let (hook, h, i) = >>=-eq-ok (nf_hook_to_hook ipt_hook) _ g in
      let (chain, j, k) = >>=-eq-ok (chain_new hook policy [] []) _ i in
      let same : hook ≡ made.hook =
        new_hook hook policy chain j
        ∙ add_entries-hook (last - first) (record chain { hook_opts = attach_opts }) made first last
            k in
      subst (λ x. by_netfilter x ≡ true) same (nf_hook_to_hook-by_netfilter ipt_hook hook h)
    where
      new_hook :
          (hook policy : ℕ) (chain : Chain)
          → chain_new hook policy [] [] ≡ ok chain
          → hook ≡ chain.hook
      new_hook hook policy chain e = elim (Bool-cases (ltb policy 2)) [
        | inl a ↦ ap (λ c. c.hook) (ok_injective (rw a at e))
        | inr a ↦ absurd (fault_not_ok (rw a at e))
      ]

  chain_at : ℕ → IptReplace → Bool → Result (Option Chain)
  chain_at i ipt enabled =
      if enabled
      then (do
        first ← read (get_elem? ipt.hook_entry i)
        last ← read (get_elem? ipt.underflow i)
        made ← entries_to_chain sizes block i first last
        ok (some made))
      else ok none

  chain_at-AtNetfilter :
      (i : ℕ) (ipt : IptReplace) (enabled : Bool) (chain : Option Chain)
      → chain_at i ipt enabled ≡ ok chain
      → AtNetfilter chain
  unfolding chain_at
  chain_at-AtNetfilter i ipt true chain e =
      let (first, a, b) = >>=-eq-ok (read (get_elem? ipt.hook_entry i)) _ e in
      let (last, c, d) = >>=-eq-ok (read (get_elem? ipt.underflow i)) _ b in
      let (made, f, g) = >>=-eq-ok (entries_to_chain sizes block i first last) _ d in
      subst AtNetfilter (ok_injective g) (entries_to_chain-AtNetfilter i first last made f)
  chain_at-AtNetfilter i ipt false chain e = subst AtNetfilter (ok_injective e) tt

  xlate_hooks-AtNetfilter :
      (hooks i : ℕ) (ipt : IptReplace) (chains : List (Option Chain))
      → xlate_hooks sizes block hooks i ipt ≡ ok chains
      → All AtNetfilter chains
  unfolding xlate_hooks chain_at
  xlate_hooks-AtNetfilter zero i ipt chains e = subst (All AtNetfilter) (ok_injective e) tt
  xlate_hooks-AtNetfilter (suc hooks) i ipt chains e =
      let (chain, a, b) = >>=-eq-ok (chain_at i ipt (has_flag ipt.valid_hooks i)) _ e in
      let (others, c, d) = >>=-eq-ok (xlate_hooks sizes block hooks (suc i) ipt) _ b in
      subst (All AtNetfilter) (ok_injective d) (
        chain_at-AtNetfilter i ipt (has_flag ipt.valid_hooks i) chain a,
        xlate_hooks-AtNetfilter hooks (suc i) ipt others c,
      )

  pub xlate_ruleset_set-AtNetfilter :
      (ipt : IptReplace) (chains : List (Option Chain))
      → xlate_ruleset_set sizes block ipt ≡ ok chains
      → All AtNetfilter chains
  unfolding xlate_ruleset_set
  xlate_ruleset_set-AtNetfilter ipt chains e = xlate_hooks-AtNetfilter num_hooks 0 ipt chains e
