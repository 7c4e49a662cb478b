-- ===== src/Front/Cli.antt =====
-- src/bpfilter/xlate/cli.c: the front of the command line client.
use bpfilter.Prelude.{ℕ, Option, none, some, ◌==◌, ltb, if◌then◌else◌, length}
use bpfilter.Result.{Result, ok, err, fault, einval}
use bpfilter.Marsh.{header_size}
use bpfilter.Chain.{Chain, chain_new_from_marsh}
use bpfilter.Prog.Calls.{Io, ◌>>=◌, ◌>>◌, lift}
use bpfilter.Codegen.{Codegen, cgen_new}
use bpfilter.Codegen.Up.{Env}
use bpfilter.Ctx.{Ctx, ctx_flush}
use bpfilter.Request.{
  front_cli, ruleset_flush, rules_set, response_new_success, response_new_failure,
}
use bpfilter.Front.{Daemon, Handler, get_cgen, add_codegen, change_codegen}

module _ {W : Type 0} (env : Env W) where
  unfoldable pub flushed : Daemon W → Result (ℕ × Ctx) → Result (Unit {0}) × Daemon W
  flushed s (ok (e, ctx)) = (if e == 0 then ok tt else err e, record s { ctx = ctx })
  flushed s (err e) = (err e, s)
  flushed s fault = (fault, s)

  -- _bf_cli_ruleset_flush; an error is returned when the context is already empty.
  unfoldable pub cli_ruleset_flush : Handler W
  unfolding flushed
  cli_ruleset_flush request = do
    λ s. flushed s (ctx_flush env.detach s.ctx)
    lift (response_new_success none 0)

  unfoldable pub put_chain : ℕ → Chain → Option Codegen → Io (Daemon W) (Unit {0})
  unfolding add_codegen change_codegen
  put_chain front chain none = add_codegen env (cgen_new front chain)
  put_chain front chain (some cgen) = change_codegen env cgen chain

  -- _bf_cli_set_rules
  unfoldable pub cli_set_rules : Handler W
  unfolding get_cgen put_chain
  cli_set_rules request =
      if ltb (length request.data_bytes) header_size then lift (response_new_failure einval) else do
        chain ← lift (chain_new_from_marsh request.data_bytes 0)
        cgen ← get_cgen chain
        put_chain front_cli chain cgen
        lift (response_new_success none 0)

  -- _bf_cli_request_handler
  unfoldable pub cli_request_handler : Handler W
  unfolding cli_ruleset_flush cli_set_rules
  cli_request_handler request =
      if request.cmd == ruleset_flush
      then cli_ruleset_flush request
      else if request.cmd == rules_set
      then cli_set_rules request
      else lift (err einval)
