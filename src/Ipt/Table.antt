-- ===== src/Ipt/Table.antt =====
-- The whole table of iptables, written for the chains of the front and read again.
use bpfilter.Prelude.{
  ℕ, suc, ◌+◌, ◌*◌, ◌<◌, ◌≤◌, ◌≡◌, refl, sym, ap, ◌∙◌, subst, Bool, List, [], ◌∷◌, ◌++◌,
  append_assoc, Option, none, some, length, get_elem?-set_self, arith,
}
use bpfilter.Result.{Result, ok, ◌>>=◌, Gives}
use bpfilter.Hook.Types.{nf_hook_to_hook}
use bpfilter.Chain.{Chain}
use bpfilter.Ipt.{Sizes}
use bpfilter.Ipt.Ruleset.{IptBlock, IptReplace, entries_to_chain, xlate_hooks, xlate_ruleset_set}
use bpfilter.Ipt.Replace.{
  RulesetEntry, Ruleset, Slot, Counter, rule_size, gen_chain, gen_hooks, gen_replace, error_slot,
  empty_replace,
}
use bpfilter.Ipt.Filter.{Filter}
use bpfilter.Ipt.Walk.{chain_of, AreFilters, AreSlots, Stand, span, length-span, length-rules_of}
use bpfilter.Ipt.Placed.{entries_to_chain-slots, Countable, gen_chain-slots}
use bpfilter.Ipt.Bits.{bit_or_self, has_flag-above}
use bpfilter.Ipt.Header.{
  SameBelow, IsPartial, IsPartial-suc, below_suc, with_hook, with_hook-IsPartial,
  with_hook-SameBelow,
}

module _ (sizes : Sizes) (lookup : Option ℕ → ℕ → Result Counter) (with_counters : Bool) where
  -- The chain of a hook is one that iptables can have, and its counters can be read.
  pub record IsIptChain (ipt_hook : ℕ) (e : RulesetEntry) : Type 0 where
    pub hook : ℕ
    pub policy : ℕ
    pub filters : List Filter
    pub known : nf_hook_to_hook ipt_hook ≡ ok hook
    pub is_chain : e.chain ≡ chain_of hook policy filters
    pub are_filters : AreFilters filters
    pub policy_known : policy < 2
    pub countable : Countable sizes lookup with_counters e.cgen (length filters)

  abbrev pub IsTable : ℕ → Ruleset → Type 0
  IsTable hook [] = Unit {0}
  IsTable hook (none ∷ table) = IsTable (suc hook) table
  IsTable hook (some e ∷ table) = IsIptChain hook e × IsTable (suc hook) table

  abbrev pub chains_of : Ruleset → List (Option Chain)
  chains_of [] = []
  chains_of (none ∷ table) = none ∷ chains_of table
  chains_of (some e ∷ table) = some e.chain ∷ chains_of table

  -- The bytes of the slots of a chain.
  Stand-append :
      (block : IptBlock) (first : ℕ) (slots others : List Slot) (fs : List Filter) (policy : ℕ)
      → AreSlots sizes slots fs policy
      → Stand sizes block first (slots ++ others)
      → Stand sizes block first slots
        × Stand sizes block (first + (span sizes fs + rule_size sizes)) others
  unfolding span
  Stand-append block first [] others fs policy s m = elim s [ ]
  Stand-append block first (slot ∷ slots) others [] policy s m =
      let (bcnt, pcnt, e, t) = s.0 in
      let next : first + slot.entry.next_offset ≡ first + (0 + rule_size sizes) =
        ap (λ x. first + x.next_offset) e ∙ omega arith in
      let rest =
        subst (λ l. Stand sizes block (first + slot.entry.next_offset) (l ++ others)) s.1 m.2 in
      (
        (m.0, m.1, subst (λ l. Stand sizes block (first + slot.entry.next_offset) l) (sym s.1) tt),
        subst (λ n. Stand sizes block n others) next rest,
      )
  Stand-append block first (slot ∷ slots) others (f ∷ fs) policy s m =
      let (bcnt, pcnt, e, t) = s.0 in
      let next : first + slot.entry.next_offset ≡ first + rule_size sizes =
        ap (λ x. first + x.next_offset) e in
      let (own, rest) =
        Stand-append block (first + rule_size sizes) slots others fs policy s.1
          (subst (λ n. Stand sizes block n (slots ++ others)) next m.2) in
      let end : first + rule_size sizes + (span sizes fs + rule_size sizes)
          ≡ first + (rule_size sizes + span sizes fs + rule_size sizes) =
        omega arith in
      (
        (m.0, m.1, subst (λ n. Stand sizes block n slots) (sym next) own),
        subst (λ n. Stand sizes block n others) end rest,
      )

  one_more :
      (n size bytes first : ℕ) → n * size ≡ bytes → first + (bytes + size) ≡ first + (n + 1) * size
  one_more n size bytes first h = rw (← h) (omega arith)

  -- From the hook `hook` on, the header and the slots behind `first` are read as the chains of the table.
  abbrev ReadsAs : ℕ → ℕ → Ruleset → IptReplace → List Slot → Type 0
  ReadsAs hook first table done slots =
      (block : IptBlock) (rest : List Slot)
      → Stand sizes block first (slots ++ rest)
      → xlate_hooks sizes block (length table) hook done ≡ ok (chains_of table)

  -- A hook that has a chain.
  read_hook :
      (hook first : ℕ) (e : RulesetEntry) (table : Ruleset) (replace done : IptReplace)
      (slots others : List Slot) (c : IsIptChain hook e)
      → 0 < rule_size sizes
      → hook < 5
      → IsPartial hook replace
      → AreSlots sizes slots c.filters c.policy
      → SameBelow (suc hook) (with_hook sizes hook first (length e.chain.rules) replace) done
      → ReadsAs (suc hook) (first + (length e.chain.rules + 1) * rule_size sizes) table done others
      → ReadsAs hook first (some e ∷ table) done (slots ++ others)
  unfolding xlate_hooks
  read_hook hook first e table replace done slots others c pos h p s below reads block rest m =
      let n : length e.chain.rules ≡ length c.filters =
        ap (λ x. length x.rules) c.is_chain ∙ length-rules_of 0 c.filters in
      let bytes : length e.chain.rules * rule_size sizes ≡ span sizes c.filters =
        ap (λ k. k * rule_size sizes) n ∙ length-span sizes c.filters in
      let (own, behind) =
        Stand-append block first slots (others ++ rest) c.filters c.policy s
          (subst (Stand sizes block first) (append_assoc slots others rest) m) in
      let flag =
        below.flags hook (omega arith) ∙ bit_or_self hook replace.valid_hooks h p.flags_below in
      let start =
        below.firsts hook (omega arith)
        ∙ get_elem?-set_self replace.hook_entry hook first (omega (arith, h, p.five_firsts)) in
      let end =
        below.lasts hook (omega arith)
        ∙ get_elem?-set_self replace.underflow hook _ (omega (arith, h, p.five_lasts)) in
      let made : entries_to_chain sizes block hook first
            (first + length e.chain.rules * rule_size sizes)
          ≡ ok e.chain =
        rw bytes (
          entries_to_chain-slots sizes block pos hook c.hook first slots c.filters c.policy c.known
            c.policy_known c.are_filters s own
          ∙ ap ok (sym c.is_chain)) in
      let next : first + (span sizes c.filters + rule_size sizes)
          ≡ first + (length e.chain.rules + 1) * rule_size sizes =
        one_more (length e.chain.rules) (rule_size sizes) (span sizes c.filters) first bytes in
      let others_read =
        reads block rest (subst (λ k. Stand sizes block k (others ++ rest)) next behind) in
      rw (flag, start, ◌>>=◌, end, made, others_read) refl

  module _ (pos : 0 < rule_size sizes) where
    gen_hooks-ReadsAs :
        (hook first : ℕ) (table : Ruleset) (replace : IptReplace)
        → hook + length table ≤ 5
        → IsTable hook table
        → IsPartial hook replace
        → Gives
            (gen_hooks sizes lookup with_counters hook first table replace)
            (λ x. SameBelow hook replace x.0 × ReadsAs hook first table x.0 x.1)
    unfolding gen_hooks xlate_hooks
    gen_hooks-ReadsAs hook first [] replace n v p = (
      (replace, []),
      refl,
      (
        record { flags = λ l b. refl; firsts = λ l b. refl; lasts = λ l b. refl },
        λ block rest m. refl,
      ),
    )
    gen_hooks-ReadsAs hook first (none ∷ table) replace n v p =
        let (x, e, (below, reads)) =
          gen_hooks-ReadsAs (suc hook) first table replace (omega (arith, n)) v
            (IsPartial-suc hook replace p) in
        let flag =
          below.flags hook (omega arith)
          ∙ has_flag-above hook replace.valid_hooks (omega (arith, n)) p.flags_below in
        (x, e, (below_suc below, λ block rest m. rw (flag, reads block rest m) refl))
    gen_hooks-ReadsAs hook first (some e ∷ table) replace n v p =
        let c = v.0 in
        let known : hook < 5 = omega (arith, n) in
        let (slots, f, s) =
          gen_chain-slots sizes lookup with_counters e.cgen (length c.filters) c.countable c.hook
            c.policy c.filters c.are_filters c.policy_known (omega arith) in
        let here : gen_chain sizes lookup with_counters e ≡ ok slots =
          ap (λ x. gen_chain sizes lookup with_counters (record { cgen = e.cgen; chain = x }))
            c.is_chain
          ∙ f in
        let (x, g, (below, reads)) =
          gen_hooks-ReadsAs (suc hook) (first + (length e.chain.rules + 1) * rule_size sizes) table
            (with_hook sizes hook first (length e.chain.rules) replace) (omega (arith, n)) v.1
            (with_hook-IsPartial sizes hook first (length e.chain.rules) replace known p) in
        (
          (x.0, slots ++ x.1),
          rw (here, ◌>>=◌, g) refl,
          (
            with_hook-SameBelow sizes hook first (length e.chain.rules) replace x.0 known p below,
            read_hook hook first e table replace x.0 slots x.1 c pos known p s below reads,
          ),
        )

    module _ (table : Ruleset) (nrules : ℕ) (five : length table ≡ 5) (v : IsTable 0 table)
        (block : IptBlock) where
      -- The block holds the entries that are written, from its start on.
      abbrev pub HoldsTable : Type 0
      HoldsTable =
          (x : IptReplace × List Slot)
          → gen_replace sizes lookup with_counters table nrules ≡ ok x
          → Stand sizes block 0 x.1

      -- A table of iptables that is written for chains is read as these chains: when the chains are ones
      -- that iptables can have, their counters can be read, and an entry with its target takes some
      -- bytes, then the table is written, and what is translated back from a memory block that holds its
      -- entries is the same chain, or none, for each hook.
      pub xlate_ruleset_set-gen_replace :
          HoldsTable
          → Gives
              (gen_replace sizes lookup with_counters table nrules)
              (λ x. xlate_ruleset_set sizes block x.0 ≡ ok (chains_of table))
      unfolding gen_replace xlate_ruleset_set
      xlate_ruleset_set-gen_replace holds =
          let (x, e, (below, reads)) =
            gen_hooks-ReadsAs 0 0 table (empty_replace sizes lookup with_counters nrules)
              (omega (arith, five)) v
              (record { flags_below = omega arith; five_firsts = refl; five_lasts = refl }) in
          let error = error_slot sizes lookup with_counters in
          let made : gen_replace sizes lookup with_counters table nrules
              ≡ ok (x.0, x.1 ++ error ∷ []) =
            rw (e, ◌>>=◌) refl in
          (
            (x.0, x.1 ++ error ∷ []),
            made,
            subst (λ n. xlate_hooks sizes block n 0 x.0 ≡ ok (chains_of table)) five
                (reads block (error ∷ []) (holds _ made)),
          )
