-- ===== src/Ipt/Ruleset.antt =====
-- src/bpfilter/xlate/ipt/ipt.c, from the table of iptables to chains: _bf_ipt_entries_to_chain and
-- _bf_ipt_xlate_ruleset_set, with the macros of src/bpfilter/xlate/ipt/helpers.h.
use bpfilter.Prelude.{
  ℕ, zero, suc, ◌+◌, ◌-◌, true, List, [], ◌∷◌, Option, none, some, ltb, if◌then◌else◌, get_elem?,
}
use bpfilter.Result.{Result, ok, fault, ◌>>=◌}
use bpfilter.Hook.{HookOpts, no_opts, has_flag}
use bpfilter.Hook.Types.{nf_hook_to_hook}
use bpfilter.Chain.{Chain, chain_new, chain_add_rule}
use bpfilter.Ipt.{Sizes, IptEntry, IptTarget, target_to_verdict, entry_to_rule}

-- What the memory of the entries holds at an offset, read as one struct or the other; `none` is outside
-- of the memory.
pub record IptBlock : Type 0 where
  pub entry_at : ℕ → Option IptEntry
  pub target_at : ℕ → Option IptTarget

-- `struct ipt_replace`, the header of a table.
pub record IptReplace : Type 0 where
  pub valid_hooks : ℕ
  pub hook_entry : List ℕ
  pub underflow : List ℕ
  pub num_entries : ℕ
  pub num_counters : ℕ
  pub size : ℕ

-- NF_INET_NUMHOOKS
abbrev pub num_hooks : ℕ
num_hooks = 5

abbrev pub read {ℓ} : {A : Type ℓ} → Option A → Result A
read none = fault
read (some x) = ok x

-- ipt_get_target
unfoldable pub get_target : IptBlock → ℕ → IptEntry → Option IptTarget
get_target block at entry = block.target_at (at + entry.target_offset)

-- `(struct bf_hook_opts)` with `used_opts = 1 << BF_HOOK_OPT_ATTACH` and `attach = true`.
abbrev pub attach_opts : HookOpts
attach_opts = record no_opts { used_opts = 8; attach = true }

module _ (sizes : Sizes) (block : IptBlock) where
  -- The loop over the rules of a chain; each round goes on to `next_offset` behind the entry. An entry
  -- whose `next_offset` is 0 makes the loop endless; then the rounds run out, and this is a fault.
  unfoldable pub add_entries : ℕ → Chain → ℕ → ℕ → Result Chain
  unfolding get_target
  add_entries zero chain first last = if ltb first last then fault else ok chain
  add_entries (suc rounds) chain first last =
      if ltb first last
      then (do
        entry ← read (block.entry_at first)
        rule ← entry_to_rule sizes entry (get_target block first entry)
        add_entries rounds (chain_add_rule chain rule) (first + entry.next_offset) last)
      else ok chain

  -- _bf_ipt_entries_to_chain
  unfoldable pub entries_to_chain : ℕ → ℕ → ℕ → Result Chain
  unfolding add_entries get_target
  entries_to_chain ipt_hook first last = do
    entry ← read (block.entry_at last)
    target ← read (get_target block last entry)
    policy ← target_to_verdict target
    hook ← nf_hook_to_hook ipt_hook
    chain ← chain_new hook policy [] []
    add_entries (last - first) (record chain { hook_opts = attach_opts }) first last

  -- The loop of _bf_ipt_xlate_ruleset_set from the hook `i` on, with `hooks` hooks left: a chain for
  -- each hook that is enabled.
  unfoldable pub xlate_hooks : ℕ → ℕ → IptReplace → Result (List (Option Chain))
  unfolding entries_to_chain
  xlate_hooks zero i ipt = ok []
  xlate_hooks (suc hooks) i ipt = do
    chain ←
        if has_flag ipt.valid_hooks i
        then (do
          first ← read (get_elem? ipt.hook_entry i)
          last ← read (get_elem? ipt.underflow i)
          made ← entries_to_chain i first last
          ok (some made))
        else ok none
    others ← xlate_hooks hooks (suc i) ipt
    ok (chain ∷ others)

  unfoldable pub xlate_ruleset_set : IptReplace → Result (List (Option Chain))
  unfolding xlate_hooks
  xlate_ruleset_set ipt = xlate_hooks num_hooks 0 ipt
