-- ===== src/Ipt/Placed.antt =====
-- A chain that is written to a table of iptables, and read from it.
use bpfilter.Prelude.{
  ℕ, suc, ◌+◌, ◌<◌, ◌≤◌, ◌≡◌, refl, Bool, true, List, [], ◌∷◌, ◌++◌, Option, some, ltb, length,
  arith, ◌⊎◌, inl, inr,
}
use bpfilter.Result.{Result, ok, ◌>>=◌, Gives}
use bpfilter.Hook.Types.{nf_hook_to_hook}
use bpfilter.Chain.{chain_new, chain_add_rules}
use bpfilter.Codegen.{Codegen, counter_policy}
use bpfilter.Ipt.{Sizes, IptEntry}
use bpfilter.Ipt.Ruleset.{IptBlock, get_target, entries_to_chain}
use bpfilter.Ipt.Replace.{Slot, Counter, standard_entry, rule_size, counted, gen_rules, gen_chain}
use bpfilter.Ipt.Filter.{
  Filter, entry_of, target_of, target_to_verdict-target_of, verdict_to_target-target_of,
}
use bpfilter.Ipt.Agree.{counted_entry, rule_to_entry-rule_of}
use bpfilter.Ipt.Walk.{
  rules_of, chain_of, AreFilters, StandsFor, IsPolicy, AreSlots, Stand, span, read_slot,
  add_entries-slots,
}

module _ (sizes : Sizes) (block : IptBlock) (pos : 0 < rule_size sizes) where
  -- The policy stands behind the rules.
  policy_slot :
      (first : ℕ) (slots : List Slot) (fs : List Filter) (policy : ℕ)
      → AreSlots sizes slots fs policy
      → Stand sizes block first slots
      → (bcnt : ℕ) × (pcnt : ℕ) × (block.entry_at (first + span sizes fs)
          ≡ some (record (standard_entry sizes) { bcnt = bcnt; pcnt = pcnt }))
        × (get_target block
              (first + span sizes fs)
              (record (standard_entry sizes) { bcnt = bcnt; pcnt = pcnt })
            ≡ some (target_of sizes policy))
  unfolding span
  policy_slot first [] fs policy s m = elim s [ ]
  policy_slot first (slot ∷ slots) [] policy s m =
      let (bcnt, pcnt, e, t) = s.0 in
      let (here, there, rest) = read_slot sizes block pos first slot slots _ _ e t m in
      let at : first + 0 ≡ first = omega arith in (bcnt, pcnt, rw at here, rw at there)
  policy_slot first (slot ∷ slots) (f ∷ fs) policy s m =
      let (bcnt, pcnt, e, t) = s.0 in
      let (here, there, rest) = read_slot sizes block pos first slot slots _ _ e t m in
      let (b, p, x, y) = policy_slot (first + rule_size sizes) slots fs policy s.1 rest in
      let at : first + (rule_size sizes + span sizes fs) ≡ first + rule_size sizes + span sizes fs =
        omega arith in
      (b, p, rw at x, rw at y)

  enough : (fs : List Filter) → length fs ≤ span sizes fs
  unfolding span
  enough [] = omega arith
  enough (f ∷ fs) = omega (arith, enough fs, pos)

  -- The chain is read from the slots that stand for it.
  pub entries_to_chain-slots :
      (ipt_hook hook first : ℕ) (slots : List Slot) (fs : List Filter) (policy : ℕ)
      → nf_hook_to_hook ipt_hook ≡ ok hook
      → policy < 2
      → AreFilters fs
      → AreSlots sizes slots fs policy
      → Stand sizes block first slots
      → entries_to_chain sizes block ipt_hook first (first + span sizes fs)
        ≡ ok (chain_of hook policy fs)
  unfolding entries_to_chain chain_new chain_add_rules
  entries_to_chain-slots ipt_hook hook first slots fs policy known p v s m =
      let (bcnt, pcnt, here, there) = policy_slot first slots fs policy s m in
      let below : ltb policy 2 ≡ true = ground (arith, p) in
      rw (here, ◌>>=◌, there, target_to_verdict-target_of sizes policy p, known, below)
        (add_entries-slots sizes block pos _ (chain_of hook policy []) first _ slots fs policy v s m
          (omega (arith, enough fs)) refl)

module _ (sizes : Sizes) (lookup : Option ℕ → ℕ → Result Counter) (with_counters : Bool) where
  -- The counters of a codegen can be read: those of its rules, and that of its policy.
  pub record Countable (cgen : Option Codegen) (rules : ℕ) : Type 0 where
    pub reads :
        (index : ℕ) (entry : IptEntry)
        → (index < rules) ⊎ (index ≡ counter_policy)
        → (bcnt : ℕ) × (pcnt : ℕ) × (counted sizes lookup with_counters cgen index entry
            ≡ ok (record entry { bcnt = bcnt; pcnt = pcnt }))

  -- The slots of rules.
  AreRules : List Slot → List Filter → Type 0
  AreRules [] [] = Unit {0}
  AreRules [] (f ∷ fs) = ⊥
  AreRules (slot ∷ slots) [] = ⊥
  AreRules (slot ∷ slots) (f ∷ fs) = StandsFor sizes slot f × AreRules slots fs

  AreSlots-append :
      (slots : List Slot) (fs : List Filter) (slot : Slot) (policy : ℕ)
      → AreRules slots fs
      → IsPolicy sizes slot policy
      → AreSlots sizes (slots ++ slot ∷ []) fs policy
  unfolding AreRules
  AreSlots-append [] [] slot policy h p = (p, refl)
  AreSlots-append [] (f ∷ fs) slot policy h p = absurd h
  AreSlots-append (x ∷ slots) [] slot policy h p = absurd h
  AreSlots-append (x ∷ slots) (f ∷ fs) slot policy h p =
      (h.0, AreSlots-append slots fs slot policy h.1 p)

  module _ (cgen : Option Codegen) (rules : ℕ) (c : Countable cgen rules) where
    gen_rules-slots :
        (index : ℕ) (fs : List Filter)
        → AreFilters fs
        → index + length fs ≤ rules
        → Gives
            (gen_rules sizes lookup with_counters cgen (rules_of index fs))
            (λ slots. AreRules slots fs)
    unfolding gen_rules AreRules
    gen_rules-slots index [] v h = ([], refl, tt)
    gen_rules-slots index (f ∷ fs) v h =
        let (bcnt, pcnt, e) = c.reads index (entry_of sizes f) (inl (omega (arith, h))) in
        let (slots, g, r) = gen_rules-slots (suc index) fs v.1 (omega (arith, h)) in
        (
          record { entry = counted_entry sizes f bcnt pcnt; target = target_of sizes f.verdict }
              ∷ slots,
          rw (rule_to_entry-rule_of sizes f v.0 index, ◌>>=◌, e, g) refl,
          ((bcnt, pcnt, refl, refl), r),
        )

    -- A chain whose rules stand for filters is written as slots that stand for them and for its policy.
    pub gen_chain-slots :
        (hook policy : ℕ) (fs : List Filter)
        → AreFilters fs
        → policy < 2
        → length fs ≤ rules
        → Gives
            (gen_chain sizes lookup with_counters
              (record { cgen = cgen; chain = chain_of hook policy fs }))
            (λ slots. AreSlots sizes slots fs policy)
    unfolding gen_chain
    gen_chain-slots hook policy fs v p h =
        let (bcnt, pcnt, e) = c.reads counter_policy (standard_entry sizes) (inr refl) in
        let (slots, g, r) = gen_rules-slots 0 fs v (omega (arith, h)) in
        let last : Slot = record {
          entry = record (standard_entry sizes) { bcnt = bcnt; pcnt = pcnt };
          target = target_of sizes policy;
        } in
        (
          slots ++ last ∷ [],
          rw (g, ◌>>=◌, e, verdict_to_target-target_of sizes policy p) refl,
          AreSlots-append slots fs last policy r (bcnt, pcnt, refl, refl),
        )
