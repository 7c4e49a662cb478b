-- ===== src/Ipt/Walk.antt =====
-- The entries of one chain, written and read again.
use bpfilter.Prelude.{
  ℕ, zero, suc, ◌+◌, ◌*◌, ◌<◌, ◌≤◌, ◌≡◌, refl, ap, ◌∙◌, subst, true, false, List, [], ◌∷◌, ◌++◌,
  append_assoc, append-nil, some, ltb, length, length-append, arith,
}
use bpfilter.Result.{ok, ◌>>=◌}
use bpfilter.Rule.{Rule}
use bpfilter.Chain.{Chain, chain_add_rule}
use bpfilter.Ipt.{Sizes, IptEntry, IptTarget}
use bpfilter.Ipt.Ruleset.{IptBlock, attach_opts, get_target, add_entries}
use bpfilter.Ipt.Replace.{Slot, standard_entry, rule_size}
use bpfilter.Ipt.Filter.{Filter, IsFilter, target_of, rule_of}
use bpfilter.Ipt.Agree.{counted_entry, entry_to_rule-entry_of}

-- The rules that stand for filters, from an index on, and the chain of them.
abbrev pub rules_of : ℕ → List Filter → List Rule
rules_of index [] = []
rules_of index (f ∷ fs) = rule_of index f ∷ rules_of (suc index) fs

abbrev pub chain_of : ℕ → ℕ → List Filter → Chain
chain_of hook policy fs = record {
  hook = hook;
  hook_opts = attach_opts;
  policy = policy;
  sets = [];
  rules = rules_of 0 fs;
}

abbrev pub AreFilters : List Filter → Type 0
AreFilters [] = Unit {0}
AreFilters (f ∷ fs) = IsFilter f × AreFilters fs

pub length-rules_of : (index : ℕ) (fs : List Filter) → length (rules_of index fs) ≡ length fs
length-rules_of index [] = refl
length-rules_of index (f ∷ fs) = ap suc (length-rules_of (suc index) fs)

module _ (sizes : Sizes) where
  -- A slot that stands for a filter, with any counters; slots that stand for filters.
  abbrev pub StandsFor : Slot → Filter → Type 0
  StandsFor slot f =
      (bcnt : ℕ) × (pcnt : ℕ) × (slot.entry ≡ counted_entry sizes f bcnt pcnt)
      × (slot.target ≡ target_of sizes f.verdict)

  -- The slot of a policy.
  abbrev pub IsPolicy : Slot → ℕ → Type 0
  IsPolicy slot policy =
      (bcnt : ℕ) × (pcnt : ℕ) × (slot.entry
        ≡ record (standard_entry sizes) { bcnt = bcnt; pcnt = pcnt })
      × (slot.target ≡ target_of sizes policy)

  -- The slots of a chain: its rules, then its policy.
  abbrev pub AreSlots : List Slot → List Filter → ℕ → Type 0
  AreSlots [] fs policy = ⊥
  AreSlots (slot ∷ slots) [] policy = IsPolicy slot policy × (slots ≡ [])
  AreSlots (slot ∷ slots) (f ∷ fs) policy = StandsFor slot f × AreSlots slots fs policy

  -- The slots stand behind each other in the memory.
  abbrev pub Stand : IptBlock → ℕ → List Slot → Type 0
  Stand block at [] = Unit {0}
  Stand block at (slot ∷ slots) =
      (block.entry_at at ≡ some slot.entry)
      × (get_target block at slot.entry ≡ some slot.target)
      × Stand block (at + slot.entry.next_offset) slots

  -- The bytes of the entries of filters.
  unfoldable pub span : List Filter → ℕ
  span [] = 0
  span (f ∷ fs) = rule_size sizes + span fs

  pub length-span : (fs : List Filter) → length fs * rule_size sizes ≡ span fs
  unfolding span
  length-span [] = omega arith
  length-span (f ∷ fs) = rw (← length-span fs) (omega arith)

  stop : (first last : ℕ) → last ≡ first + 0 → ltb first last ≡ false
  stop first last h = ground (arith, h)

  go_on :
      (first last more : ℕ)
      → 0 < rule_size sizes
      → last ≡ first + (rule_size sizes + more)
      → ltb first last ≡ true
  go_on first last more h e = ground (arith, h, e)

  -- The rules of a chain grow by the one that is added.
  grown :
      (rules : List Rule) (f : Filter) (fs : List Filter)
      → (rules ++ rule_of (length rules) f ∷ [])
          ++ rules_of (length (rules ++ rule_of (length rules) f ∷ [])) fs
        ≡ rules ++ rules_of (length rules) (f ∷ fs)
  grown rules f fs =
      let n : length (rules ++ rule_of (length rules) f ∷ []) ≡ suc (length rules) =
        omega (arith, length-append rules (rule_of (length rules) f ∷ [])) in
      rw n (append_assoc rules (rule_of (length rules) f ∷ []) _)

  module _ (block : IptBlock) (pos : 0 < rule_size sizes) where
    -- An entry and its target, as they are read.
    pub read_slot :
        (at : ℕ) (slot : Slot) (slots : List Slot) (entry : IptEntry) (target : IptTarget)
        → slot.entry ≡ entry
        → slot.target ≡ target
        → Stand block at (slot ∷ slots)
        → (block.entry_at at ≡ some entry)
          × (get_target block at entry ≡ some target)
          × Stand block (at + entry.next_offset) slots
    read_slot at slot slots entry target e t m =
        subst
          (λ x.
            (block.entry_at at ≡ some x)
            × (get_target block at x ≡ some target)
            × Stand block (at + x.next_offset) slots)
          e (m.0, m.1 ∙ ap some t, m.2)

    -- The walk from a chain's first entry to its policy.
    pub add_entries-slots :
        (rounds : ℕ) (chain : Chain) (first last : ℕ) (slots : List Slot) (fs : List Filter)
        (policy : ℕ)
        → AreFilters fs
        → AreSlots slots fs policy
        → Stand block first slots
        → length fs ≤ rounds
        → last ≡ first + span fs
        → add_entries sizes block rounds chain first last
          ≡ ok (record chain { rules = chain.rules ++ rules_of (length chain.rules) fs })
    unfolding add_entries span chain_add_rule
    add_entries-slots zero chain first last slots [] policy v s m n h =
        rw (stop first last h, append-nil chain.rules) refl
    add_entries-slots zero chain first last slots (f ∷ fs) policy v s m n h =
        absurd (omega (arith, n))
    add_entries-slots (suc rounds) chain first last slots [] policy v s m n h =
        rw (stop first last h, append-nil chain.rules) refl
    add_entries-slots (suc rounds) chain first last [] (f ∷ fs) policy v s m n h = elim s [ ]
    add_entries-slots (suc rounds) chain first last (slot ∷ slots) (f ∷ fs) policy v s m n h =
        let (bcnt, pcnt, e, t) = s.0 in
        let (here, there, rest) = read_slot first slot slots _ _ e t m in
        let walked =
          add_entries-slots rounds (chain_add_rule chain (rule_of 0 f)) (first + rule_size sizes)
            last slots fs policy v.1 s.1 rest (omega (arith, n)) (omega (arith, h)) in
        rw
          (
            go_on first last (span fs) pos h,
            here,
            ◌>>=◌,
            there,
            entry_to_rule-entry_of sizes f v.0 bcnt pcnt,
          )
          (walked ∙ ap (λ l. ok (record chain { rules = l })) (grown chain.rules f fs))
