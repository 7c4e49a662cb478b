-- ===== src/Ipt/Replace.antt =====
-- src/bpfilter/xlate/ipt/ipt.c, from the chains of the front to a table of iptables:
-- _bf_ipt_gen_get_ruleset and _bf_ipt_gen_ipt_replace.
use Prim.Native.Nat.{bit_or}
use bpfilter.Prelude.{
  ℕ, zero, suc, ◌+◌, ◌*◌, ◌^◌, Bool, List, [], ◌∷◌, ◌++◌, Option, none, some, length, set,
  get_elem?, if◌then◌else◌,
}
use bpfilter.Result.{Result, ok, fault, ◌>>=◌}
use bpfilter.Strings.{codes}
use bpfilter.Hook.Types.{to_nf_hook, nf_hook_to_hook}
use bpfilter.Rule.{Rule}
use bpfilter.Chain.{Chain, chain_new}
use bpfilter.Codegen.{Codegen, counter_policy, counter_index}
use bpfilter.Prog.Stored.{StoredProgram}
use bpfilter.Ctx.{Ctx, ctx_get_cgens_for_front}
use bpfilter.Request.{front_ipt}
use bpfilter.Ipt.{Sizes, IptEntry, IptTarget, verdict_accept, rule_to_entry, verdict_to_target}
use bpfilter.Ipt.Ruleset.{IptReplace, read}

-- `struct bf_ipt_gen_ruleset_entry` of a hook that has a chain; a dummy chain has no codegen.
pub record RulesetEntry : Type 0 where
  pub cgen : Option Codegen
  pub chain : Chain

-- The array `ruleset`: `none` is the zeros of an entry without a chain.
abbrev pub Ruleset : Type 0
Ruleset = List (Option RulesetEntry)

-- The loop over the codegens of the front: the table, and the number of rules and policies.
unfoldable pub put_codegens : List Codegen → Ruleset → ℕ → Result (Ruleset × ℕ)
put_codegens [] table nrules = ok (table, nrules)
put_codegens (cgen ∷ cgens) table nrules = do
  hook ← to_nf_hook cgen.chain.hook
  put_codegens cgens (set table hook (some (record { cgen = some cgen; chain = cgen.chain })))
      (nrules + (length cgen.chain.rules + 1))

abbrev has_codegen : Option RulesetEntry → Option Codegen
has_codegen none = none
has_codegen (some entry) = entry.cgen

-- The loop that makes the chains that iptables wants, from the hook `hook` on.
unfoldable pub put_dummies : ℕ → ℕ → Ruleset → ℕ → Result (Ruleset × ℕ)
put_dummies zero hook table nrules = ok (table, nrules)
put_dummies (suc hooks) hook table nrules = do
  entry ← read (get_elem? table hook)
  elim (has_codegen entry) [
    | some cgen ↦ put_dummies hooks (suc hook) table nrules
    | none ↦ do
      our_hook ← nf_hook_to_hook hook
      chain ← chain_new our_hook verdict_accept [] []
      put_dummies hooks (suc hook) (set table hook (some (record { cgen = none; chain = chain })))
          (nrules + 1)
  ]

-- NF_INET_LOCAL_IN to NF_INET_LOCAL_OUT
unfoldable pub gen_get_ruleset : Ctx → Result (Ruleset × ℕ)
unfolding put_codegens put_dummies
gen_get_ruleset ctx = do
  (table, nrules) ←
      put_codegens (ctx_get_cgens_for_front ctx front_ipt) (none ∷ none ∷ none ∷ none ∷ none ∷ []) 0
  put_dummies 3 1 table nrules

-- An entry of the table with its target. They stand behind each other in the memory.
pub record Slot : Type 0 where
  pub entry : IptEntry
  pub target : IptTarget

-- The zeros of `calloc`.
abbrev pub zero_entry : IptEntry
zero_entry = record {
  src = 0;
  smsk = 0;
  dst = 0;
  dmsk = 0;
  iniface = [];
  outiface = [];
  proto = 0;
  invflags = 0;
  target_offset = 0;
  next_offset = 0;
  bcnt = 0;
  pcnt = 0;
}

abbrev pub zero_target : IptTarget
zero_target = record { name = []; verdict = 0; target_size = 0 }

-- `struct bf_counter`
pub record Counter : Type 0 where
  pub packets : ℕ
  pub bytes : ℕ

-- bf_program_get_counter and bf_cgen_get_counter (src/bpfilter/cgen/); `lookup` is BPF_MAP_LOOKUP_ELEM of
-- a map at a key.
unfoldable pub program_get_counter :
    (Option ℕ → ℕ → Result Counter) → Option StoredProgram → ℕ → Result Counter
program_get_counter lookup none index = fault
program_get_counter lookup (some p) index = lookup p.cmap.fd index

unfoldable pub cgen_get_counter : (Option ℕ → ℕ → Result Counter) → Codegen → ℕ → Result Counter
unfolding counter_index program_get_counter
cgen_get_counter lookup cgen counter_idx =
    counter_index cgen counter_idx >>= program_get_counter lookup cgen.program

module _ (sizes : Sizes) where
  abbrev pub rule_size : ℕ
  rule_size = sizes.entry + sizes.standard

  abbrev pub err_size : ℕ
  err_size = sizes.entry + sizes.error

  -- The offsets of an entry with a standard target.
  abbrev pub standard_entry : IptEntry
  standard_entry = record zero_entry { target_offset = sizes.entry; next_offset = rule_size }

  -- The counters of a rule or of the policy, which bf_cgen_get_counter reads from a map.
  module _ (lookup : Option ℕ → ℕ → Result Counter) (with_counters : Bool) where
    unfoldable pub counted : Option Codegen → ℕ → IptEntry → Result IptEntry
    unfolding cgen_get_counter
    counted none index entry = ok entry
    counted (some cgen) index entry =
        if with_counters
        then (cgen_get_counter lookup cgen index >>= λ counter.
            ok (record entry { bcnt = counter.bytes; pcnt = counter.packets }))
        else ok entry

    -- The loop over the rules of a chain.
    unfoldable pub gen_rules : Option Codegen → List Rule → Result (List Slot)
    unfolding counted
    gen_rules cgen [] = ok []
    gen_rules cgen (rule ∷ rules) = do
      (entry, target) ← rule_to_entry sizes rule standard_entry zero_target
      full ← counted cgen rule.index entry
      slots ← gen_rules cgen rules
      ok (record { entry = full; target = target } ∷ slots)

    -- The rules of a chain, and its policy.
    unfoldable pub gen_chain : RulesetEntry → Result (List Slot)
    unfolding gen_rules counted
    gen_chain e = do
      slots ← gen_rules e.cgen e.chain.rules
      entry ← counted e.cgen counter_policy standard_entry
      target ← verdict_to_target sizes e.chain.policy zero_target
      ok (slots ++ record { entry = entry; target = target } ∷ [])

    -- The loop over the hooks, from `hook` on: the header, and the entries.
    unfoldable pub gen_hooks : ℕ → ℕ → Ruleset → IptReplace → Result (IptReplace × List Slot)
    unfolding gen_chain
    gen_hooks hook next_chain_off [] replace = ok (replace, [])
    gen_hooks hook next_chain_off (none ∷ table) replace =
        gen_hooks (suc hook) next_chain_off table replace
    gen_hooks hook next_chain_off (some e ∷ table) replace = do
      slots ← gen_chain e
      (done, others) ←
          gen_hooks (suc hook) (next_chain_off + (length e.chain.rules + 1) * rule_size) table
            (record replace {
              valid_hooks = bit_or replace.valid_hooks (2 ^ hook);
              hook_entry = set replace.hook_entry hook next_chain_off;
              underflow =
                  set replace.underflow hook (next_chain_off + length e.chain.rules * rule_size);
            })
      ok (done, slots ++ others)

    -- The last entry, for the error target.
    abbrev pub error_slot : Slot
    error_slot = record {
      entry = record zero_entry { target_offset = sizes.entry; next_offset = err_size };
      target = record { name = codes "ERROR"; verdict = 0; target_size = sizes.error };
    }

    abbrev pub no_offsets : List ℕ
    no_offsets = 0 ∷ 0 ∷ 0 ∷ 0 ∷ 0 ∷ []

    -- The header before the hooks.
    abbrev pub empty_replace : ℕ → IptReplace
    empty_replace nrules = record {
      valid_hooks = 0;
      hook_entry = no_offsets;
      underflow = no_offsets;
      num_entries = nrules + 1;
      num_counters = nrules + 1;
      size = nrules * rule_size + err_size;
    }

    -- _bf_ipt_gen_ipt_replace of a table
    unfoldable pub gen_replace : Ruleset → ℕ → Result (IptReplace × List Slot)
    unfolding gen_hooks
    gen_replace table nrules = do
      (replace, slots) ← gen_hooks 0 0 table (empty_replace nrules)
      ok (replace, slots ++ error_slot ∷ [])

    unfoldable pub gen_ipt_replace : Ctx → Result (IptReplace × List Slot)
    unfolding gen_get_ruleset gen_replace
    gen_ipt_replace ctx = do (table, nrules) ← gen_get_ruleset ctx; gen_replace table nrules
