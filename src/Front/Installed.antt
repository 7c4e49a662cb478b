-- ===== src/Front/Installed.antt =====
-- What the functions that put a chain into the context leave, however they end.
use bpfilter.Prelude.{ℕ, ◌≡◌, refl, sym, subst, Option, none, some}
use bpfilter.Result.{Result, ok, err, fault}
use bpfilter.Chain.{Chain}
use bpfilter.Prog.Calls.{◌>>=◌, continue}
use bpfilter.Codegen.{Codegen, cgen_new}
use bpfilter.Codegen.Up.{Env, cgen_up, cgen_update}
use bpfilter.Ctx.{Ctx, ctx_get_cgen, ctx_set_cgen}
use bpfilter.Ctx.Flush.{IsLoaded}
use bpfilter.Ctx.Slots.{HasSlot}
use bpfilter.Ctx.Replace.{ctx_replace}
use bpfilter.Ctx.Loaded.{cgen_up-IsLoaded, cgen_update-IsLoaded}
use bpfilter.Ctx.Sound.{IsSound, ctx_set_cgen-IsSound, ctx_replace-IsSound}
use bpfilter.Front.{Daemon, from_world, outside, stored, update_ctx, add_codegen, change_codegen}
use bpfilter.Front.Cli.{put_chain}

-- The context holds the chain, with a program.
pub record Holds (chain : Chain) (ctx : Ctx) : Type 0 where
  pub cgen : Codegen
  pub found : ctx_get_cgen ctx chain.hook chain.hook_opts ≡ ok (some cgen)
  pub has_chain : cgen.chain ≡ chain
  pub is_loaded : IsLoaded cgen

module _ {W : Type 0} where
  -- What a function leaves of a context, and what holds behind it if it succeeds.
  pub record Leaves {A : Type 0} (before : Ctx) (P : Ctx → Type 0) (x : Result A × Daemon W)
      : Type 0 where
    pub on_ok : (a : A) → x.0 ≡ ok a → P x.1.ctx
    pub on_err : (e : ℕ) → x.0 ≡ err e → x.1.ctx ≡ before

  -- A call outside, then a change of the context.
  outside_then :
      {A : Type 0} (s : Daemon W) (x : Result A × W) (f : A → Ctx → Result Ctx) (P : Ctx → Type 0)
      → ((a : A) (u : W) (new : Ctx) → x ≡ (ok a, u) → f a s.ctx ≡ ok new → P new)
      → Leaves s.ctx P (continue (from_world s x) (λ a. update_ctx (f a)))
  unfolding from_world update_ctx stored
  outside_then s (ok a, u) f P h = change (f a s.ctx) refl
    where
      change : (r : Result Ctx) → f a s.ctx ≡ r → Leaves s.ctx P (stored (record s { world = u }) r)
      change (ok new) e = record { on_ok = λ t o. h a u new refl e; on_err = λ n o. cc }
      change (err n) e = record { on_ok = λ t o. cc; on_err = λ n o. refl }
      change fault e = record { on_ok = λ t o. cc; on_err = λ n o. cc }
  outside_then s (err n, u) f P h = record { on_ok = λ t o. cc; on_err = λ n o. refl }
  outside_then s (fault, u) f P h = record { on_ok = λ t o. cc; on_err = λ n o. cc }

-- The same by the cases of the result.
abbrev pub Ends : {W A : Type 0} → Ctx → (Ctx → Type 0) → Result A × Daemon W → Type 0
Ends ctx P (ok a, s) = P s.ctx
Ends ctx P (err e, s) = s.ctx ≡ ctx
Ends ctx P (fault, s) = Unit {0}

Ends-Leaves :
    {W A : Type 0} {ctx : Ctx} {P : Ctx → Type 0} (x : Result A × Daemon W)
    → Leaves ctx P x
    → Ends ctx P x
Ends-Leaves (ok a, s) h = h.on_ok a refl
Ends-Leaves (err e, s) h = h.on_err e refl
Ends-Leaves (fault, s) h = tt

-- A valid context that holds the chain.
abbrev pub Holding : Chain → Ctx → Type 0
Holding chain ctx = IsSound ctx × Holds chain ctx

module _ {W : Type 0} (env : Env W) (s : Daemon W) (v : IsSound s.ctx) where
  found_as :
      (chain : Chain) (cgen : Codegen) (new : Ctx)
      → cgen.chain ≡ chain
      → IsLoaded cgen
      → IsSound new × (ctx_get_cgen new cgen.chain.hook cgen.chain.hook_opts ≡ ok (some cgen))
      → Holding chain new
  found_as chain cgen new same l (w, found) = (
    w,
    record {
      cgen = cgen;
      found = subst (λ c. ctx_get_cgen new c.hook c.hook_opts ≡ ok (some cgen)) same found;
      has_chain = same;
      is_loaded = l;
    },
  )

  module _ (front : ℕ) (chain : Chain) (slot : HasSlot chain.hook chain.hook_opts) where
    add_codegen-Leaves :
        ctx_get_cgen s.ctx chain.hook chain.hook_opts ≡ ok none
        → Leaves s.ctx (Holding chain) (add_codegen env (cgen_new front chain) s)
    unfolding add_codegen outside ◌>>=◌ cgen_new
    add_codegen-Leaves free =
        outside_then s (cgen_up env (cgen_new front chain) s.world)
          (λ loaded ctx. ctx_set_cgen ctx loaded) (Holding chain)
          λ loaded u new e f.
            let (l, same) =
              (cgen_up-IsLoaded env (cgen_new front chain)).holds s.world loaded u e in
            found_as chain loaded new same l (
              ctx_set_cgen-IsSound s.ctx loaded v l
                (subst (λ c. HasSlot c.hook c.hook_opts) (sym same) slot)
                (subst (λ c. ctx_get_cgen s.ctx c.hook c.hook_opts ≡ ok none) (sym same) free) f)

    change_codegen-Leaves :
        (old : Codegen)
        → ctx_get_cgen s.ctx chain.hook chain.hook_opts ≡ ok (some old)
        → Leaves s.ctx (Holding chain) (change_codegen env old chain s)
    unfolding change_codegen outside ◌>>=◌
    change_codegen-Leaves old there =
        outside_then s (cgen_update env old chain s.world) (λ changed ctx. ctx_replace ctx changed)
          (Holding chain)
          λ changed u new e f.
            let (l, same) = (cgen_update-IsLoaded env old chain).holds s.world changed u e in
            found_as chain changed new same l (
              ctx_replace-IsSound s.ctx changed old v l
                (subst (λ c. HasSlot c.hook c.hook_opts) (sym same) slot)
                (subst (λ c. ctx_get_cgen s.ctx c.hook c.hook_opts ≡ ok (some old)) (sym same)
                  there)
                f)

    pub put_chain-Leaves :
        (found : Option Codegen)
        → ctx_get_cgen s.ctx chain.hook chain.hook_opts ≡ ok found
        → Leaves s.ctx (Holding chain) (put_chain env front chain found s)
    unfolding put_chain
    put_chain-Leaves none free = add_codegen-Leaves free
    put_chain-Leaves (some old) there = change_codegen-Leaves old there

    -- A chain is put into a sound context, in the slot that its hook and options name: if this succeeds,
    -- the context is sound and holds the chain in this slot, and if it fails, the context is as it was.
    pub put_chain_lem :
        (found : Option Codegen)
        → ctx_get_cgen s.ctx chain.hook chain.hook_opts ≡ ok found
        → Ends s.ctx (Holding chain) (put_chain env front chain found s)
    put_chain_lem found e = Ends-Leaves _ (put_chain-Leaves found e)
