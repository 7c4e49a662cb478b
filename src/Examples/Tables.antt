-- ===== src/Examples/Tables.antt =====
-- A table of iptables in which one hook has a chain: packets of TCP that do not come from a network are
-- dropped, and all others accepted.
use bpfilter.Prelude.{
  ℕ, ◌≡◌, refl, sym, ap, ◌∙◌, subst, true, false, List, [], ◌∷◌, Option, none, some, ◌==◌,
  if◌then◌else◌, arith,
}
use bpfilter.Result.{Result, ok, Gives, ok_injective}
use bpfilter.Bytes.{load, le, of_le}
use bpfilter.Hook.Types.{nf_hook_to_hook}
use bpfilter.Ipt.{rule_to_entry, Sizes, IptEntry, IptTarget}
use bpfilter.Ipt.Ruleset.{IptBlock, IptReplace, xlate_ruleset_set, get_target}
use bpfilter.Ipt.Replace.{
  Ruleset, Counter, Slot, gen_replace, gen_hooks, gen_chain, gen_rules, counted, standard_entry,
  error_slot,
}
use bpfilter.Ipt.Filter.{Filter, IsFilter, entry_of, target_of}
use bpfilter.Ipt.Walk.{chain_of, Stand}
use bpfilter.Ipt.Table.{IsTable, chains_of, HoldsTable, xlate_ruleset_set-gen_replace}
use bpfilter.Examples.Saved.{web_cgen}

abbrev sizes : Sizes
sizes = record { entry = 112; standard = 40; error = 64 }

-- 10.0.0.0/8
abbrev outsiders : Filter
outsiders = record {
  src = 10;
  smsk = 255;
  not_src = true;
  dst = 0;
  dmsk = 0;
  not_dst = false;
  proto = 6;
  verdict = 1;
}

abbrev lookup : Option ℕ → ℕ → Result Counter
lookup fd index = ok (record { packets = 3; bytes = 180 })

-- NF_INET_LOCAL_IN
abbrev table : Ruleset
table =
    none
    ∷ some (record { cgen = some web_cgen; chain = chain_of 3 0 (outsiders ∷ []) })
    ∷ none
    ∷ none
    ∷ none
    ∷ []

outsiders-IsFilter : IsFilter outsiders
outsiders-IsFilter = record {
  src_fits = omega arith;
  smsk_fits = omega arith;
  dst_fits = omega arith;
  dmsk_fits = omega arith;
  proto_fits = omega arith;
  verdict_known = omega arith;
  src_given = λ e. cc;
  dst_given = λ e. refl;
}

table-IsTable : IsTable sizes lookup false 0 table
unfolding nf_hook_to_hook counted
table-IsTable = (
  record {
    hook = 3;
    policy = 0;
    filters = outsiders ∷ [];
    known = refl;
    is_chain = refl;
    are_filters = (outsiders-IsFilter, tt);
    policy_known = omega arith;
    countable = record { reads = λ index entry h. (entry.bcnt, entry.pcnt, refl) };
  },
  tt,
)

abbrev slots : List Slot
slots =
    record { entry = entry_of sizes outsiders; target = target_of sizes 1 }
    ∷ record { entry = standard_entry sizes; target = target_of sizes 0 }
    ∷ error_slot sizes lookup false
    ∷ []

-- The first two entries, and no other memory.
abbrev entry_at : ℕ → Option IptEntry
entry_at at =
    if at == 0
    then some (entry_of sizes outsiders)
    else if at == 152
    then some (standard_entry sizes)
    else if at == 304
    then some ((error_slot sizes lookup false).entry)
    else none

abbrev target_at : ℕ → Option IptTarget
target_at at =
    if at == 112
    then some (target_of sizes 1)
    else if at == 264
    then some (target_of sizes 0)
    else if at == 416
    then some ((error_slot sizes lookup false).target)
    else none

abbrev block : IptBlock
block = record { entry_at = entry_at; target_at = target_at }

stand : Stand sizes block 0 slots
unfolding get_target
stand = (refl, refl, (refl, refl, (refl, refl, tt)))

abbrev header : IptReplace
header = record {
  valid_hooks = 2;
  hook_entry = 0 ∷ 0 ∷ 0 ∷ 0 ∷ 0 ∷ [];
  underflow = 0 ∷ 152 ∷ 0 ∷ 0 ∷ 0 ∷ [];
  num_entries = 3;
  num_counters = 3;
  size = 480;
}

computed : gen_replace sizes lookup false table 2 ≡ ok (header, slots)
unfolding gen_replace gen_hooks gen_chain gen_rules counted rule_to_entry load le of_le
computed = refl

written : (x : IptReplace × List Slot) → gen_replace sizes lookup false table 2 ≡ ok x → slots ≡ x.1
written x e = ap (λ y. y.1) (ok_injective (sym computed ∙ e))

block-HoldsTable : HoldsTable sizes lookup false (omega arith) table 2 refl table-IsTable block
block-HoldsTable x e = subst (Stand sizes block 0) (written x e) stand

xlate_ruleset_set-gen_replace_example :
    Gives
      (gen_replace sizes lookup false table 2)
      (λ x. xlate_ruleset_set sizes block x.0 ≡ ok (chains_of sizes lookup false table))
xlate_ruleset_set-gen_replace_example =
    xlate_ruleset_set-gen_replace sizes lookup false (omega arith) table 2 refl table-IsTable block
      block-HoldsTable
