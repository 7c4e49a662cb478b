-- ===== src/Ctx/Sound.antt =====
-- The invariant of the context while the daemon runs: its slots are different, and every codegen has a
-- program with its links.
use bpfilter.Prelude.{
  ℕ, zero, suc, ◌<◌, ◌≡◌, refl, sym, ◌∙◌, subst, List, [], ◌∷◌, ◌++◌, Option, none, some, get_elem?,
  length, All, All-append, All-set, All-get_elem?, arith,
}
use bpfilter.Result.{Result, ok, err, eexist, >>=-eq-ok, ok_injective}
use bpfilter.Hook.{HookOpts}
use bpfilter.Codegen.{Codegen}
use bpfilter.Ctx.{Ctx, hook_max, ctx_new, empty_lists, ctx_get_cgen, ctx_set_cgen, add_tail_at}
use bpfilter.Ctx.Slots.{HasSlot}
use bpfilter.Ctx.Registry.{IsValid, IsSlotted, ctx_set_cgen_lem}
use bpfilter.Ctx.Replace.{ctx_replace, ctx_replace_lem, All-replace_in}
use bpfilter.Ctx.Flush.{IsLoaded}

pub record IsSound (ctx : Ctx) : Type 0 where
  pub valid : IsValid ctx
  pub loaded : All (All IsLoaded) ctx

get_elem?-lt {ℓ} :
    {A : Type ℓ} (xs : List A) (i : ℕ) {x : A} → get_elem? xs i ≡ some x → i < length xs
get_elem?-lt [] i e = cc
get_elem?-lt (y ∷ xs) zero e = omega arith
get_elem?-lt (y ∷ xs) (suc i) e = omega (arith, get_elem?-lt xs i e)

-- A lookup that does not fault is at one of the hooks.
pub known_hook :
    (ctx : Ctx) (hook : ℕ) (opts : HookOpts) {found : Option Codegen}
    → IsValid ctx
    → ctx_get_cgen ctx hook opts ≡ ok found
    → hook < hook_max
unfolding ctx_get_cgen
known_hook ctx hook opts v h = by_list (get_elem? ctx hook) refl
  where
    by_list : (cgens : Option (List Codegen)) → get_elem? ctx hook ≡ cgens → hook < hook_max
    by_list none e = cc (rw (ctx_get_cgen, e) at h)
    by_list (some cgens) e = omega (arith, v.all_hooks, get_elem?-lt ctx hook e)

add_tail_at-All :
    (P : Codegen → Type 0) (ctx : Ctx) (i : ℕ) (cgen : Codegen) {new : Ctx}
    → All (All P) ctx
    → P cgen
    → add_tail_at ctx i cgen ≡ ok new
    → All (All P) new
unfolding add_tail_at
add_tail_at-All P ctx i cgen {new} h p e = by_list (get_elem? ctx i) refl
  where
    by_list : (cgens : Option (List Codegen)) → get_elem? ctx i ≡ cgens → All (All P) new
    by_list none f = cc (rw (add_tail_at, f) at e)
    by_list (some cgens) f = subst (All (All P)) (ok_injective (rw (add_tail_at, f) at e)) (
        All-set (All P) ctx i (cgens ++ cgen ∷ []) h
          (All-append P cgens cgen (All-get_elem? (All P) ctx i h f) p))

ctx_set_cgen-All :
    (P : Codegen → Type 0) (ctx : Ctx) (cgen : Codegen) {new : Ctx}
    → All (All P) ctx
    → P cgen
    → ctx_set_cgen ctx cgen ≡ ok new
    → All (All P) new
unfolding ctx_set_cgen
ctx_set_cgen-All P ctx cgen {new} h p e =
    let (found, f, g) = >>=-eq-ok (ctx_get_cgen ctx cgen.chain.hook cgen.chain.hook_opts) _ e in
    by_found found g
  where
    by_found :
        (found : Option Codegen)
        → elim found as (λ _. Result Ctx) [
          | some old ↦ err eexist
          | none ↦ add_tail_at ctx cgen.chain.hook cgen
        ]
          ≡ ok new
        → All (All P) new
    by_found none g = add_tail_at-All P ctx cgen.chain.hook cgen h p g
    by_found (some old) g = cc

ctx_replace-All :
    (P : Codegen → Type 0) (ctx : Ctx) (cgen : Codegen) {new : Ctx}
    → All (All P) ctx
    → P cgen
    → ctx_replace ctx cgen ≡ ok new
    → All (All P) new
unfolding ctx_replace
ctx_replace-All P ctx cgen {new} h p e = by_list (get_elem? ctx cgen.chain.hook) refl
  where
    by_list :
        (cgens : Option (List Codegen)) → get_elem? ctx cgen.chain.hook ≡ cgens → All (All P) new
    by_list none f = cc (rw (ctx_replace, f) at e)
    by_list (some cgens) f = subst (All (All P)) (ok_injective (rw (ctx_replace, f) at e)) (
        All-set (All P) ctx cgen.chain.hook _ h (
          All-replace_in cgen.chain.hook cgen P cgens
            (All-get_elem? (All P) ctx cgen.chain.hook h f) p))

-- A codegen with a program goes to a free slot.
pub ctx_set_cgen-IsSound :
    (ctx : Ctx) (cgen : Codegen) {new : Ctx}
    → IsSound ctx
    → IsLoaded cgen
    → HasSlot cgen.chain.hook cgen.chain.hook_opts
    → ctx_get_cgen ctx cgen.chain.hook cgen.chain.hook_opts ≡ ok none
    → ctx_set_cgen ctx cgen ≡ ok new
    → IsSound new × (ctx_get_cgen new cgen.chain.hook cgen.chain.hook_opts ≡ ok (some cgen))
ctx_set_cgen-IsSound ctx cgen s l slot free e =
    let known = known_hook ctx cgen.chain.hook cgen.chain.hook_opts s.valid free in
    let (other, f, (v, found)) = ctx_set_cgen_lem ctx s.valid cgen known slot free in
    let same = ok_injective (sym f ∙ e) in
    (
      record {
        valid = subst IsValid same v;
        loaded = ctx_set_cgen-All IsLoaded ctx cgen s.loaded l e;
      },
      subst (λ c. ctx_get_cgen c cgen.chain.hook cgen.chain.hook_opts ≡ ok (some cgen)) same found,
    )

-- A codegen that was found changes to one with a program.
pub ctx_replace-IsSound :
    (ctx : Ctx) (cgen old : Codegen) {new : Ctx}
    → IsSound ctx
    → IsLoaded cgen
    → HasSlot cgen.chain.hook cgen.chain.hook_opts
    → ctx_get_cgen ctx cgen.chain.hook cgen.chain.hook_opts ≡ ok (some old)
    → ctx_replace ctx cgen ≡ ok new
    → IsSound new × (ctx_get_cgen new cgen.chain.hook cgen.chain.hook_opts ≡ ok (some cgen))
ctx_replace-IsSound ctx cgen old s l slot there e =
    let known = known_hook ctx cgen.chain.hook cgen.chain.hook_opts s.valid there in
    let (other, f, (v, found)) = ctx_replace_lem ctx s.valid cgen old known slot there in
    let same = ok_injective (sym f ∙ e) in
    (
      record {
        valid = subst IsValid same v;
        loaded = ctx_replace-All IsLoaded ctx cgen s.loaded l e;
      },
      subst (λ c. ctx_get_cgen c cgen.chain.hook cgen.chain.hook_opts ≡ ok (some cgen)) same found,
    )

nothing-IsSlotted : (hook : ℕ) → IsSlotted hook []
nothing-IsSlotted hook = record { of_hook = tt; has_slots = tt; distinct = tt }

empty-IsSlotted :
    (n i hook : ℕ) (cgens : List Codegen)
    → get_elem? (empty_lists n) i ≡ some cgens
    → IsSlotted hook cgens
empty-IsSlotted zero i hook cgens e = cc
empty-IsSlotted (suc n) zero hook cgens e = subst (IsSlotted hook) (cc) (nothing-IsSlotted hook)
empty-IsSlotted (suc n) (suc i) hook cgens e = empty-IsSlotted n i hook cgens e

pub ctx_new-IsSound : IsSound ctx_new
unfolding ctx_new
ctx_new-IsSound = record {
  valid = record {
    all_hooks = refl;
    slotted = λ hook cgens e. empty-IsSlotted hook_max hook hook cgens e;
  };
  loaded = (tt, (tt, (tt, (tt, (tt, (tt, (tt, (tt, (tt, (tt, tt))))))))));
}
