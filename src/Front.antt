-- ===== src/Front.antt =====
-- src/bpfilter/xlate/front.h and the part of src/bpfilter/xlate/ and src/bpfilter/main.c that handles
-- requests: the fronts put chains into the daemon's context and answer.
pub mod Cli
pub mod Process
pub mod Installed
pub mod Session
pub mod Table
pub mod Reach
use bpfilter.Prelude.{Option, none, some}
use bpfilter.Result.{Result, ok, err, fault}
use bpfilter.Chain.{Chain}
use bpfilter.Prog.Calls.{Io, ◌>>=◌, ret}
use bpfilter.Codegen.{Codegen, cgen_new}
use bpfilter.Codegen.Up.{Env, cgen_up, cgen_update}
use bpfilter.Ctx.{Ctx, ctx_get_cgen, ctx_set_cgen}
use bpfilter.Ctx.Replace.{ctx_replace}
use bpfilter.Request.{Request, Response}

-- What the daemon changes: its context, and what is outside of it.
pub record Daemon (W : Type 0) : Type 0 where
  pub ctx : Ctx
  pub world : W

-- The request handler of `struct bf_front_ops`.
abbrev pub Handler : Type 0 → Type 0
Handler W = Request → Io (Daemon W) Response

module _ {W : Type 0} where
  unfoldable pub from_world : {A : Type 0} → Daemon W → Result A × W → Result A × Daemon W
  from_world s (r, w) = (r, record s { world = w })

  -- A function that does not use the context.
  unfoldable pub outside : {A : Type 0} → Io W A → Io (Daemon W) A
  unfolding from_world
  outside m s = from_world s (m s.world)

  unfoldable pub stored : Daemon W → Result Ctx → Result (Unit {0}) × Daemon W
  stored s (ok ctx) = (ok tt, record s { ctx = ctx })
  stored s (err e) = (err e, s)
  stored s fault = (fault, s)

  -- A function that changes the context, if it succeeds.
  unfoldable pub update_ctx : (Ctx → Result Ctx) → Io (Daemon W) (Unit {0})
  unfolding stored
  update_ctx f s = stored s (f s.ctx)

  -- bf_ctx_get_cgen
  unfoldable pub get_cgen : Chain → Io (Daemon W) (Option Codegen)
  get_cgen chain s = (ctx_get_cgen s.ctx chain.hook chain.hook_opts, s)

  module _ (env : Env W) where
    -- The branch for a new codegen, in _bf_cli_set_rules and _bf_ipt_ruleset_set.
    unfoldable pub add_codegen : Codegen → Io (Daemon W) (Unit {0})
    unfolding outside update_ctx
    add_codegen cgen = do
      loaded ← outside (cgen_up env cgen)
      update_ctx (λ ctx. ctx_set_cgen ctx loaded)

    -- The branch for a codegen that exists, which changes in place.
    unfoldable pub change_codegen : Codegen → Chain → Io (Daemon W) (Unit {0})
    unfolding outside update_ctx
    change_codegen cgen chain = do
      changed ← outside (cgen_update env cgen chain)
      update_ctx (λ ctx. ctx_replace ctx changed)
