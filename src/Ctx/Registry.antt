-- ===== src/Ctx/Registry.antt =====
-- The context as a registry: the codegens of each hook stand for different slots.
use bpfilter.Prelude.{
  ℕ, zero, suc, ◌<◌, ◌≡◌, ◌≢◌, refl, sym, ap, subst, ◌∙◌, false, List, [], ◌∷◌, ◌++◌, none, some,
  All, All-append, ◌⊎◌, inl, inr, arith, length, length-set, get_elem?, set, get_elem?-set_self,
  get_elem?-set_ne, some_injective,
}
use native.Mathlib.Decide.{ℕ_discrete}
use bpfilter.Result.{ok, ◌>>=◌, Gives, ok_injective}
use bpfilter.Hook.{HookOpts}
use bpfilter.Codegen.{Codegen}
use bpfilter.Ctx.{Ctx, hook_max, ctx_get_cgen, add_tail_at, ctx_set_cgen}
use bpfilter.Ctx.Slots.{
  same_slot, find_slot, HasSlot, get_from-find_slot, find_slot-none, find_slot-append_other,
  find_slot-append_new,
}

-- No codegen stands for a slot that an earlier one stands for.
abbrev pub IsDistinct : ℕ → List Codegen → Type 0
IsDistinct hook [] = Unit {0}
IsDistinct hook (cgen ∷ cgens) =
    All (λ other. same_slot hook cgen.chain.hook_opts other.chain.hook_opts ≡ false) cgens
    × IsDistinct hook cgens

-- The codegens of the hook: each belongs to it and has a slot, and the slots are different.
pub record IsSlotted (hook : ℕ) (cgens : List Codegen) : Type 0 where
  pub of_hook : All (λ cgen. cgen.chain.hook ≡ hook) cgens
  pub has_slots : All (λ cgen. HasSlot hook cgen.chain.hook_opts) cgens
  pub distinct : IsDistinct hook cgens

pub record IsValid (ctx : Ctx) : Type 0 where
  pub all_hooks : length ctx ≡ hook_max
  pub slotted :
      (hook : ℕ) (cgens : List Codegen) → get_elem? ctx hook ≡ some cgens → IsSlotted hook cgens

IsDistinct-append :
    (hook : ℕ) (cgens : List Codegen) (cgen : Codegen)
    → IsDistinct hook cgens
    → find_slot hook cgens cgen.chain.hook_opts ≡ none
    → IsDistinct hook (cgens ++ cgen ∷ [])
IsDistinct-append hook [] cgen d free = (tt, tt)
IsDistinct-append hook (x ∷ cgens) cgen d free =
    let (apart, rest) = find_slot-none hook x cgens cgen.chain.hook_opts free in
    (All-append _ cgens cgen d.0 apart, IsDistinct-append hook cgens cgen d.1 rest)

IsSlotted-append :
    (hook : ℕ) (cgens : List Codegen) (cgen : Codegen)
    → IsSlotted hook cgens
    → cgen.chain.hook ≡ hook
    → HasSlot hook cgen.chain.hook_opts
    → find_slot hook cgens cgen.chain.hook_opts ≡ none
    → IsSlotted hook (cgens ++ cgen ∷ [])
IsSlotted-append hook cgens cgen s h o free = record {
  of_hook = All-append _ cgens cgen s.of_hook h;
  has_slots = All-append _ cgens cgen s.has_slots o;
  distinct = IsDistinct-append hook cgens cgen s.distinct free;
}

list_at {ℓ} :
    {A : Type ℓ} (xs : List A) (i : ℕ) → i < length xs → (x : A) × (get_elem? xs i ≡ some x)
list_at [] i h = elim h [ ]
list_at (x ∷ xs) zero h = (x, refl)
list_at (x ∷ xs) (suc i) h = list_at xs i (omega arith)

ctx_get_cgen-same :
    (a b : Ctx) (hook : ℕ) (opts : HookOpts)
    → get_elem? a hook ≡ get_elem? b hook
    → ctx_get_cgen a hook opts ≡ ctx_get_cgen b hook opts
unfolding ctx_get_cgen
ctx_get_cgen-same a b hook opts e = rw (e, ctx_get_cgen) refl

module _ (ctx : Ctx) (v : IsValid ctx) where
  -- The codegens of a hook.
  pub cgens_of :
      (hook : ℕ) → hook < hook_max → (cgens : List Codegen) × (get_elem? ctx hook ≡ some cgens)
  cgens_of hook h = list_at ctx hook (omega (arith, v.all_hooks))

  pub ctx_get_cgen-find_slot :
      (hook : ℕ) (opts : HookOpts) (cgens : List Codegen)
      → get_elem? ctx hook ≡ some cgens
      → HasSlot hook opts
      → ctx_get_cgen ctx hook opts ≡ ok (find_slot hook cgens opts)
  unfolding ctx_get_cgen
  ctx_get_cgen-find_slot hook opts cgens e o =
      rw (e, ctx_get_cgen) (get_from-find_slot hook cgens opts (v.slotted hook cgens e).has_slots o)

-- A hook gets another list of codegens.
pub IsValid-set :
    (ctx : Ctx) (v : IsValid ctx) (at : ℕ) (cgens : List Codegen)
    → at < hook_max
    → IsSlotted at cgens
    → IsValid (set ctx at cgens)
IsValid-set ctx v at cgens known s = record {
  all_hooks = length-set ctx at cgens ∙ v.all_hooks;
  slotted = λ hook other f. elim (ℕ_discrete at hook) [
    | yes same ↦
        let there = get_elem?-set_self ctx at cgens (omega (arith, v.all_hooks, known)) in
        let here : cgens ≡ other =
          some_injective (sym there ∙ ap (get_elem? (set ctx at cgens)) same ∙ f) in
        subst (λ h. IsSlotted h other) same (subst (IsSlotted at) here s)
    | no ne ↦ v.slotted hook other (sym (get_elem?-set_ne ctx at hook cgens ne) ∙ f)
  ];
}

module _ (ctx : Ctx) (v : IsValid ctx) (cgen : Codegen) (known : cgen.chain.hook < hook_max)
    (slot : HasSlot cgen.chain.hook cgen.chain.hook_opts) where
  set-IsValid :
      (cgens : List Codegen)
      → get_elem? ctx cgen.chain.hook ≡ some cgens
      → find_slot cgen.chain.hook cgens cgen.chain.hook_opts ≡ none
      → IsValid (set ctx cgen.chain.hook (cgens ++ cgen ∷ []))
  set-IsValid cgens e free = IsValid-set ctx v cgen.chain.hook (cgens ++ cgen ∷ []) known (
      IsSlotted-append cgen.chain.hook cgens cgen (v.slotted cgen.chain.hook cgens e) refl slot
        free)

  abbrev with_cgen : List Codegen → Ctx
  with_cgen cgens = set ctx cgen.chain.hook (cgens ++ cgen ∷ [])

  with_cgen-there :
      (cgens : List Codegen)
      → get_elem? (with_cgen cgens) cgen.chain.hook ≡ some (cgens ++ cgen ∷ [])
  with_cgen-there cgens =
      get_elem?-set_self ctx cgen.chain.hook (cgens ++ cgen ∷ [])
        (omega (arith, v.all_hooks, known))

  other_slot :
      (cgens : List Codegen) (hook : ℕ) (opts : HookOpts)
      → get_elem? ctx cgen.chain.hook ≡ some cgens
      → IsValid (with_cgen cgens)
      → HasSlot hook opts
      → (cgen.chain.hook ≢ hook) ⊎ (same_slot hook cgen.chain.hook_opts opts ≡ false)
      → ctx_get_cgen (with_cgen cgens) hook opts ≡ ctx_get_cgen ctx hook opts
  other_slot cgens hook opts e w o (inl ne) =
      ctx_get_cgen-same (with_cgen cgens) ctx hook opts
        (get_elem?-set_ne ctx cgen.chain.hook hook _ ne)
  other_slot cgens hook opts e w o (inr apart) = elim (ℕ_discrete cgen.chain.hook hook) [
    | yes same ↦
        let before : get_elem? ctx hook ≡ some cgens =
          subst (λ i. get_elem? ctx i ≡ some cgens) same e in
        let there : get_elem? (with_cgen cgens) hook ≡ some (cgens ++ cgen ∷ []) =
          subst (λ i. get_elem? (with_cgen cgens) i ≡ some (cgens ++ cgen ∷ [])) same
            (with_cgen-there cgens) in
        ctx_get_cgen-find_slot (with_cgen cgens) w hook opts (cgens ++ cgen ∷ []) there o
        ∙ ap ok (find_slot-append_other hook cgens cgen opts apart)
        ∙ sym (ctx_get_cgen-find_slot ctx v hook opts cgens before o)
    | no ne ↦
        ctx_get_cgen-same (with_cgen cgens) ctx hook opts
          (get_elem?-set_ne ctx cgen.chain.hook hook _ ne)
  ]

  module _ (unused : ctx_get_cgen ctx cgen.chain.hook cgen.chain.hook_opts ≡ ok none) where
    no_slot :
        (cgens : List Codegen)
        → get_elem? ctx cgen.chain.hook ≡ some cgens
        → find_slot cgen.chain.hook cgens cgen.chain.hook_opts ≡ none
    no_slot cgens e = ok_injective (
        sym (ctx_get_cgen-find_slot ctx v cgen.chain.hook cgen.chain.hook_opts cgens e slot)
        ∙ unused)

    ctx_set_cgen-with_cgen :
        (cgens : List Codegen)
        → get_elem? ctx cgen.chain.hook ≡ some cgens
        → ctx_set_cgen ctx cgen ≡ ok (with_cgen cgens)
    unfolding ctx_set_cgen add_tail_at
    ctx_set_cgen-with_cgen cgens e = rw (unused, ◌>>=◌, add_tail_at, e) refl

    -- A codegen whose slot is free is stored in a valid context: bf_ctx_set_cgen succeeds, the context
    -- is valid again, and the codegen is found in its slot.
    pub ctx_set_cgen_lem : Gives (ctx_set_cgen ctx cgen) (λ new.
        IsValid new × (ctx_get_cgen new cgen.chain.hook cgen.chain.hook_opts ≡ ok (some cgen)))
    ctx_set_cgen_lem =
        let (cgens, e) = cgens_of ctx v cgen.chain.hook known in
        let w = set-IsValid cgens e (no_slot cgens e) in
        (
          with_cgen cgens,
          ctx_set_cgen-with_cgen cgens e,
          (
            w,
            ctx_get_cgen-find_slot (with_cgen cgens) w cgen.chain.hook cgen.chain.hook_opts
                  (cgens ++ cgen ∷ []) (with_cgen-there cgens) slot
                ∙ ap ok (find_slot-append_new cgen.chain.hook cgens cgen slot (no_slot cgens e)),
          ),
        )

    -- When a codegen is stored in a free slot of a valid context, every other slot of this hook and
    -- every slot of another hook is looked up as before.
    pub ctx_set_cgen-other_slot :
        (hook : ℕ) (opts : HookOpts)
        → HasSlot hook opts
        → (cgen.chain.hook ≢ hook) ⊎ (same_slot hook cgen.chain.hook_opts opts ≡ false)
        → Gives
            (ctx_set_cgen ctx cgen)
            (λ new. ctx_get_cgen new hook opts ≡ ctx_get_cgen ctx hook opts)
    ctx_set_cgen-other_slot hook opts o other =
        let (cgens, e) = cgens_of ctx v cgen.chain.hook known in
        (
          with_cgen cgens,
          ctx_set_cgen-with_cgen cgens e,
          other_slot cgens hook opts e (set-IsValid cgens e (no_slot cgens e)) o other,
        )
