-- ===== src/Ctx.antt =====
-- src/bpfilter/ctx.c: the context of the daemon, a list of codegens for each hook. The global context
-- is passed to each operation and returned by it.
use bpfilter.Prelude.{
  ℕ, zero, suc, Bool, true, false, not, ◌&&◌, ◌||◌, List, [], ◌∷◌, ◌++◌, Option, none, some, ◌==◌,
  if◌then◌else◌, get_elem?, set, length,
}
use bpfilter.Result.{Result, ok, err, fault, ◌>>=◌, eexist}
use bpfilter.Marsh.{Marsh, marsh_new, list_marsh, fold_children}
use bpfilter.Hook.{HookOpts}
use bpfilter.Hook.Options.{streq}
use bpfilter.Prog.{System}
use bpfilter.Prog.Ident.{by_interface, by_netfilter}
use bpfilter.Codegen.{Codegen, cgen_marsh, cgen_new_from_marsh, cgen_unload}
pub mod Slots
pub mod Flush
pub mod Loaded
pub mod Replace
pub mod Sound
pub mod Registry
pub mod RoundTrip

-- _BF_HOOK_MAX
abbrev pub hook_max : ℕ
hook_max = 10

-- `struct bf_ctx`
abbrev pub Ctx : Type 0
Ctx = List (List Codegen)

abbrev pub empty_lists : ℕ → Ctx
empty_lists zero = []
empty_lists (suc n) = [] ∷ empty_lists n

unfoldable pub ctx_new : Ctx
ctx_new = empty_lists hook_max

-- _bf_ctx_get_xdp_cgen
unfoldable pub get_xdp_cgen : List Codegen → HookOpts → Option Codegen
get_xdp_cgen [] opts = none
get_xdp_cgen (cgen ∷ cgens) opts =
    if cgen.chain.hook_opts.ifindex == opts.ifindex then some cgen else get_xdp_cgen cgens opts

-- _bf_ctx_get_nf_cgen
unfoldable pub get_nf_cgen : List Codegen → HookOpts → Option Codegen
get_nf_cgen [] opts = none
get_nf_cgen (cgen ∷ cgens) opts = some cgen

-- `bf_streq` of two pointers; a NULL pointer is a fault.
unfoldable pub same_path : Option (List ℕ) → Option (List ℕ) → Result Bool
unfolding streq
same_path (some s) (some t) = ok (streq s t)
same_path none t = fault
same_path (some s) none = fault

-- _bf_ctx_get_cgroup_cgen
unfoldable pub get_cgroup_cgen : List Codegen → HookOpts → Result (Option Codegen)
unfolding same_path
get_cgroup_cgen [] opts = ok none
get_cgroup_cgen (cgen ∷ cgens) opts = same_path cgen.chain.hook_opts.cgroup opts.cgroup >>= λ same.
    elim same [ true ↦ ok (some cgen) | false ↦ get_cgroup_cgen cgens opts ]

-- The table `_bf_cgen_getters`.
unfoldable pub get_from : ℕ → List Codegen → HookOpts → Result (Option Codegen)
unfolding get_xdp_cgen get_nf_cgen get_cgroup_cgen
get_from hook cgens opts =
    if by_interface hook
    then ok (get_xdp_cgen cgens opts)
    else if by_netfilter hook
    then ok (get_nf_cgen cgens opts)
    else get_cgroup_cgen cgens opts

-- _bf_ctx_get_cgen; a hook behind the array is a fault.
unfoldable pub ctx_get_cgen : Ctx → ℕ → HookOpts → Result (Option Codegen)
unfolding get_from
ctx_get_cgen ctx hook opts = elim (get_elem? ctx hook) [
  | none ↦ fault
  | some cgens ↦ get_from hook cgens opts
]

-- `bf_list_add_tail(&ctx->cgens[i], cgen)`
unfoldable pub add_tail_at : Ctx → ℕ → Codegen → Result Ctx
add_tail_at ctx i cgen = elim (get_elem? ctx i) [
  | none ↦ fault
  | some cgens ↦ ok (set ctx i (cgens ++ cgen ∷ []))
]

-- _bf_ctx_set_cgen
unfoldable pub ctx_set_cgen : Ctx → Codegen → Result Ctx
unfolding ctx_get_cgen add_tail_at
ctx_set_cgen ctx cgen = ctx_get_cgen ctx cgen.chain.hook cgen.chain.hook_opts >>= λ found.
    elim found [ some old ↦ err eexist | none ↦ add_tail_at ctx cgen.chain.hook cgen ]

-- bf_ctx_is_empty
unfoldable pub ctx_is_empty : Ctx → Bool
ctx_is_empty [] = true
ctx_is_empty (cgens ∷ ctx) = length cgens == 0 && ctx_is_empty ctx

of_front : ℕ → List Codegen → List Codegen
of_front front [] = []
of_front front (cgen ∷ cgens) =
    if cgen.front == front then cgen ∷ of_front front cgens else of_front front cgens

-- _bf_ctx_get_cgens_for_front
unfoldable pub ctx_get_cgens_for_front : Ctx → ℕ → List Codegen
unfolding of_front
ctx_get_cgens_for_front [] front = []
ctx_get_cgens_for_front (cgens ∷ ctx) front =
    of_front front cgens ++ ctx_get_cgens_for_front ctx front

-- The loop of bf_ctx_flush over one list; `detach` is the system call that detaches a link, `e` is the
-- first error so far, or 0.
unfoldable pub unload_list : (Option ℕ → ℕ) → ℕ → List Codegen → Result ℕ
unfolding cgen_unload
unload_list detach e [] = ok e
unload_list detach e (cgen ∷ cgens) = do
  (r, old) ← cgen_unload detach cgen
  unload_list detach (if e == 0 then r else e) cgens

unfoldable pub unload_lists : (Option ℕ → ℕ) → ℕ → Ctx → Result ℕ
unfolding unload_list
unload_lists detach e [] = ok e
unload_lists detach e (cgens ∷ ctx) = do f ← unload_list detach e cgens; unload_lists detach f ctx

-- bf_ctx_flush: the errno that is returned, or 0, and the new context.
unfoldable pub ctx_flush : (Option ℕ → ℕ) → Ctx → Result (ℕ × Ctx)
unfolding unload_lists ctx_new
ctx_flush detach ctx = do e ← unload_lists detach 0 ctx; ok (e, ctx_new)

-- _bf_ctx_marsh; its loop over the hooks is that of bf_list_marsh.
unfoldable pub ctx_marsh : Ctx → Marsh
ctx_marsh ctx = list_marsh (λ cgens. list_marsh cgen_marsh cgens (marsh_new [])) ctx (marsh_new [])

-- The inner loop of _bf_ctx_new_from_marsh, for the list of the hook `i`.
unfoldable pub load_list : System → List ℕ → Ctx → ℕ → ℕ → Result Ctx
load_list sys b ctx i m =
    fold_children (λ s c. cgen_new_from_marsh sys b c >>= λ cgen. add_tail_at s i cgen) ctx b m

-- _bf_ctx_new_from_marsh; the outer loop does not compare `i` with the number of hooks.
unfoldable pub ctx_new_from_marsh : System → List ℕ → ℕ → Result Ctx
unfolding load_list ctx_new
ctx_new_from_marsh sys b m = do
  (i, ctx) ←
      fold_children (λ s c. load_list sys b s.1 s.0 c >>= λ t. ok (suc s.0, t))
        (let start : ℕ × Ctx = (0, ctx_new) in start) b m
  ok ctx
