-- ===== src/Ctx/Replace.antt =====
-- src/bpfilter/ctx.c: a codegen that was looked up is changed in place.
use bpfilter.Prelude.{
  ℕ, ◌≡◌, refl, ap, sym, subst, ◌∙◌, Bool, true, false, List, [], ◌∷◌, Option, none, some, set,
  get_elem?, get_elem?-set_self, ◌<◌, if◌then◌else◌, ◌==◌, All, Bool-cases, inl, inr, arith,
}
use bpfilter.Result.{Result, ok, fault, Gives, ok_injective}
use bpfilter.Hook.{HookOpts}
use bpfilter.Hook.Options.{streq}
use bpfilter.Printer.Packed.{streq_eq}
use bpfilter.Prog.Ident.{by_interface, by_netfilter}
use bpfilter.Codegen.{Codegen}
use bpfilter.Ctx.{Ctx, hook_max, ctx_get_cgen}
use bpfilter.Ctx.Registry.{
  IsDistinct, IsSlotted, IsValid, IsValid-set, cgens_of, ctx_get_cgen-find_slot,
}
use bpfilter.Ctx.Slots.{same_slot, same_text, find_slot, HasSlot, same_slot_refl}

-- The list of a hook, when the codegen in the slot of `new` changes to `new`.
unfoldable pub replace_in : ℕ → Codegen → List Codegen → List Codegen
unfolding same_slot
replace_in hook new [] = []
replace_in hook new (cgen ∷ cgens) =
    if same_slot hook cgen.chain.hook_opts new.chain.hook_opts
    then new ∷ cgens
    else cgen ∷ replace_in hook new cgens

unfoldable pub ctx_replace : Ctx → Codegen → Result Ctx
unfolding replace_in
ctx_replace ctx new = elim (get_elem? ctx new.chain.hook) [
  | none ↦ fault
  | some cgens ↦ ok (set ctx new.chain.hook (replace_in new.chain.hook new cgens))
]

same_text_apart :
    (a b c : Option (List ℕ)) → same_text a b ≡ true → same_text a c ≡ false → same_text b c ≡ false
same_text_apart none b c h k = cc
same_text_apart (some s) none c h k = cc
same_text_apart (some s) (some t) none h k = refl
same_text_apart (some s) (some t) (some u) h k = subst (λ x. streq x u ≡ false) (streq_eq s t h) k

-- What is apart from a slot is apart from all options of that slot.
same_slot_apart :
    (hook : ℕ) (a b c : HookOpts)
    → same_slot hook a b ≡ true
    → same_slot hook a c ≡ false
    → same_slot hook b c ≡ false
unfolding same_slot
same_slot_apart hook a b c h k = by_kind (by_interface hook) (by_netfilter hook) h k
  where
    by_kind :
        (i n : Bool)
        → (if i then a.ifindex == b.ifindex else if n then true else same_text a.cgroup b.cgroup)
          ≡ true
        → (if i then a.ifindex == c.ifindex else if n then true else same_text a.cgroup c.cgroup)
          ≡ false
        → (if i then b.ifindex == c.ifindex else if n then true else same_text b.cgroup c.cgroup)
          ≡ false
    by_kind true n h k = ground arith
    by_kind false true h k = cc
    by_kind false false h k = same_text_apart a.cgroup b.cgroup c.cgroup h k

module _ (hook : ℕ) (new : Codegen) where
  pub All-replace_in {κ} :
      (P : Codegen → Type κ) (cgens : List Codegen)
      → All P cgens
      → P new
      → All P (replace_in hook new cgens)
  unfolding replace_in
  All-replace_in P [] h p = tt
  All-replace_in P (cgen ∷ cgens) h p =
      elim (Bool-cases (same_slot hook cgen.chain.hook_opts new.chain.hook_opts)) [
        | inl t ↦ rw t (p, h.1)
        | inr f ↦ rw f (h.0, All-replace_in P cgens h.1 p)
      ]

  new_apart :
      (cgen : Codegen) (cgens : List Codegen)
      → same_slot hook cgen.chain.hook_opts new.chain.hook_opts ≡ true
      → All (λ other. same_slot hook cgen.chain.hook_opts other.chain.hook_opts ≡ false) cgens
      → All (λ other. same_slot hook new.chain.hook_opts other.chain.hook_opts ≡ false) cgens
  new_apart cgen [] same h = tt
  new_apart cgen (other ∷ cgens) same h = (
    same_slot_apart hook cgen.chain.hook_opts new.chain.hook_opts other.chain.hook_opts same h.0,
    new_apart cgen cgens same h.1,
  )

  IsDistinct-replace_in :
      (cgens : List Codegen) → IsDistinct hook cgens → IsDistinct hook (replace_in hook new cgens)
  unfolding replace_in
  IsDistinct-replace_in [] d = tt
  IsDistinct-replace_in (cgen ∷ cgens) d =
      elim (Bool-cases (same_slot hook cgen.chain.hook_opts new.chain.hook_opts)) [
        | inl t ↦ rw t (new_apart cgen cgens t d.0, d.1)
        | inr f ↦ rw f (All-replace_in _ cgens d.0 f, IsDistinct-replace_in cgens d.1)
      ]

  IsSlotted-replace_in :
      (cgens : List Codegen)
      → IsSlotted hook cgens
      → new.chain.hook ≡ hook
      → HasSlot hook new.chain.hook_opts
      → IsSlotted hook (replace_in hook new cgens)
  IsSlotted-replace_in cgens s h o = record {
    of_hook = All-replace_in _ cgens s.of_hook h;
    has_slots = All-replace_in _ cgens s.has_slots o;
    distinct = IsDistinct-replace_in cgens s.distinct;
  }

  -- The changed codegen is found where the old one was.
  find_slot-replace_in :
      (cgens : List Codegen) (old : Codegen)
      → HasSlot hook new.chain.hook_opts
      → find_slot hook cgens new.chain.hook_opts ≡ some old
      → find_slot hook (replace_in hook new cgens) new.chain.hook_opts ≡ some new
  unfolding replace_in find_slot
  find_slot-replace_in [] old o h = cc
  find_slot-replace_in (cgen ∷ cgens) old o h =
      elim (Bool-cases (same_slot hook cgen.chain.hook_opts new.chain.hook_opts)) [
        | inl t ↦ rw t (rw (same_slot_refl hook new.chain.hook_opts o) refl)
        | inr f ↦ rw f (rw f (find_slot-replace_in cgens old o (rw f at h)))
      ]

-- A codegen that is found in a valid context changes: the context is valid again, and the changed
-- codegen is found in the slot.
pub ctx_replace_lem :
    (ctx : Ctx) (v : IsValid ctx) (new old : Codegen)
    → new.chain.hook < hook_max
    → HasSlot new.chain.hook new.chain.hook_opts
    → ctx_get_cgen ctx new.chain.hook new.chain.hook_opts ≡ ok (some old)
    → Gives (ctx_replace ctx new) (λ after.
      IsValid after × (ctx_get_cgen after new.chain.hook new.chain.hook_opts ≡ ok (some new)))
unfolding ctx_replace
ctx_replace_lem ctx v new old known slot found =
    let hook = new.chain.hook in
    let opts = new.chain.hook_opts in
    let (cgens, e) = cgens_of ctx v hook known in
    let before : find_slot hook cgens opts ≡ some old =
      ok_injective (sym (ctx_get_cgen-find_slot ctx v hook opts cgens e slot) ∙ found) in
    let changed = replace_in hook new cgens in
    let w =
      IsValid-set ctx v hook changed known
        (IsSlotted-replace_in hook new cgens (v.slotted hook cgens e) refl slot) in
    let there : get_elem? (set ctx hook changed) hook ≡ some changed =
      get_elem?-set_self ctx hook changed (omega (arith, v.all_hooks, known)) in
    (
      set ctx hook changed,
      rw (e, ctx_replace) refl,
      (
        w,
        ctx_get_cgen-find_slot (set ctx hook changed) w hook opts changed there slot
            ∙ ap ok (find_slot-replace_in hook new cgens old slot before),
      ),
    )
