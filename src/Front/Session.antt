-- ===== src/Front/Session.antt =====
-- The context while the daemon handles requests, whatever they are and however the system calls end.
use bpfilter.Prelude.{
  ℕ, ◌≡◌, refl, sym, ap, subst, Bool, true, false, Option, none, ltb, ◌==◌, if◌then◌else◌, length,
  Bool-cases, inl, inr,
}
use bpfilter.Result.{Result, ok, err, fault, ok_injective, >>=-eq-ok}
use bpfilter.Marsh.{header_size}
use bpfilter.Chain.{Chain, chain_new_from_marsh}
use bpfilter.Prog.Calls.{Io, ◌>>=◌, continue, lift}
use bpfilter.Codegen.{Codegen}
use bpfilter.Codegen.Up.{Env}
use bpfilter.Ctx.{Ctx, ctx_flush, unload_lists, ctx_get_cgen}
use bpfilter.Ctx.Slots.{HasSlot}
use bpfilter.Ctx.Sound.{IsSound, ctx_new-IsSound}
use bpfilter.Request.{Request, Response, front_cli, ruleset_flush, rules_set, response_new_success}
use bpfilter.Front.{Daemon, from_world, outside, get_cgen}
use bpfilter.Front.Cli.{flushed, cli_ruleset_flush, put_chain, cli_set_rules, cli_request_handler}
use bpfilter.Front.Process.{FrontOps}
use bpfilter.Front.Installed.{Leaves, Holding, put_chain-Leaves}

-- If the data of the request is a chain, then the chain names what its hook needs. bf_hook_opts_init
-- checks this for the client; the daemon does not.
abbrev pub IsSensible : Request → Type 0
IsSensible request =
    (chain : Chain)
    → chain_new_from_marsh request.data_bytes 0 ≡ ok chain
    → HasSlot chain.hook chain.hook_opts

module _ {W : Type 0} where
  -- A function that ends, with success or an error, leaves a sound context.
  pub record IsSafe {A : Type 0} (x : Result A × Daemon W) : Type 0 where
    pub on_ok : (a : A) → x.0 ≡ ok a → IsSound x.1.ctx
    pub on_err : (e : ℕ) → x.0 ≡ err e → IsSound x.1.ctx

  pub at_rest : {A : Type 0} {r : Result A} {s : Daemon W} → IsSound s.ctx → IsSafe {A = A} (r, s)
  at_rest v = record { on_ok = λ a e. v; on_err = λ n e. v }

  pub IsSafe-continue :
      {A B : Type 0} (x : Result A × Daemon W) (rest : A → Io (Daemon W) B)
      → IsSafe x
      → ((a : A) (s : Daemon W) → IsSound s.ctx → IsSafe (rest a s))
      → IsSafe (continue x rest)
  IsSafe-continue (ok a, s) rest h k = k a s (h.on_ok a refl)
  IsSafe-continue (err n, s) rest h k = at_rest (h.on_err n refl)
  IsSafe-continue (fault, s) rest h k = record { on_ok = λ a e. cc; on_err = λ n e. cc }

  pub outside-IsSafe :
      {A : Type 0} (m : Io W A) (s : Daemon W) → IsSound s.ctx → IsSafe (outside m s)
  unfolding outside from_world
  outside-IsSafe m s v = at_rest v

  pub Leaves-IsSafe :
      {A : Type 0} {chain : Chain} {ctx : Ctx} {x : Result A × Daemon W}
      → IsSound ctx
      → Leaves ctx (Holding chain) x
      → IsSafe x
  Leaves-IsSafe v h = record {
    on_ok = λ a e. (h.on_ok a e).0;
    on_err = λ n e. subst IsSound (sym (h.on_err n e)) v;
  }

  IsSafe-either :
      {A : Type 0} (b : Bool) {x y : Result A × Daemon W}
      → IsSafe x
      → IsSafe y
      → IsSafe (if b then x else y)
  IsSafe-either true h k = h
  IsSafe-either false h k = k

  module _ (env : Env W) (s : Daemon W) (v : IsSound s.ctx) where
    flushed-IsSafe :
        (r : Result (ℕ × Ctx)) → ctx_flush env.detach s.ctx ≡ r → IsSafe (flushed env s r)
    unfolding flushed ctx_flush
    flushed-IsSafe (ok (e, ctx)) f =
        let (n, g, h) = >>=-eq-ok (unload_lists env.detach 0 s.ctx) _ f in
        at_rest (subst IsSound (ap (λ x. x.1) (ok_injective h)) ctx_new-IsSound)
    flushed-IsSafe (err e) f = at_rest v
    flushed-IsSafe fault f = at_rest v

    flush-IsSafe : (request : Request) → IsSafe (cli_ruleset_flush env request s)
    unfolding cli_ruleset_flush ◌>>=◌
    flush-IsSafe request =
        IsSafe-continue _ _ (flushed-IsSafe (ctx_flush env.detach s.ctx) refl) λ t u w. at_rest w

    module _ (request : Request) (sensible : IsSensible request) where
      with_chain :
          (chain : Chain) (found : Option Codegen)
          → HasSlot chain.hook chain.hook_opts
          → ctx_get_cgen s.ctx chain.hook chain.hook_opts ≡ ok found
          → IsSafe (
              continue
                (put_chain env front_cli chain found s)
                (λ t. lift (response_new_success none 0)))
      with_chain chain found slot e =
          IsSafe-continue _ _
            (Leaves-IsSafe v (put_chain-Leaves env s v front_cli chain slot found e))
            λ t u w. at_rest w

      with_found :
          (chain : Chain) (r : Result (Option Codegen))
          → HasSlot chain.hook chain.hook_opts
          → ctx_get_cgen s.ctx chain.hook chain.hook_opts ≡ r
          → IsSafe (
              continue {B = Response}
                (r, s)
                (λ found t.
                  continue
                    (put_chain env front_cli chain found t)
                    (λ u. lift (response_new_success none 0))))
      with_found chain (ok found) slot e = with_chain chain found slot e
      with_found chain (err n) slot e = at_rest v
      with_found chain fault slot e = record { on_ok = λ a f. cc; on_err = λ n f. cc }

      with_data :
          (r : Result Chain)
          → chain_new_from_marsh request.data_bytes 0 ≡ r
          → IsSafe (
              continue {B = Response}
                (r, s)
                (λ chain t. continue (get_cgen chain t) (λ found u.
                  continue
                    (put_chain env front_cli chain found u)
                    (λ done. lift (response_new_success none 0)))))
      unfolding get_cgen
      with_data (ok chain) e = with_found chain _ (sensible chain e) refl
      with_data (err n) e = at_rest v
      with_data fault e = record { on_ok = λ a f. cc; on_err = λ n f. cc }

      set_rules-IsSafe : IsSafe (cli_set_rules env request s)
      unfolding cli_set_rules ◌>>=◌
      set_rules-IsSafe = elim (Bool-cases (ltb (length request.data_bytes) header_size)) [
        | inl short ↦ rw short (at_rest v)
        | inr long ↦ rw long (with_data _ refl)
      ]

      handler-IsSafe : IsSafe (cli_request_handler env request s)
      unfolding cli_request_handler
      handler-IsSafe = elim (Bool-cases (request.cmd == ruleset_flush)) [
        | inl a ↦ rw a (flush-IsSafe request)
        | inr a ↦ elim (Bool-cases (request.cmd == rules_set)) [
          | inl b ↦ rw (a, b) set_rules-IsSafe
          | inr b ↦ rw (a, b) (at_rest v)
        ]
      ]

-- What a front promises of its request handler.
abbrev pub HandlesSafely : {W : Type 0} → FrontOps W → Type 0
HandlesSafely {W} ops =
    (request : Request) (s : Daemon W)
    → IsSensible request
    → IsSound s.ctx
    → IsSafe (ops.request_handler request s)

-- The front of the command line keeps the promise.
pub cli-HandlesSafely :
    {W : Type 0} (env : Env W) (ops : FrontOps W)
    → ops.request_handler ≡ cli_request_handler env
    → HandlesSafely ops
cli-HandlesSafely env ops e request s sensible v = rw e (handler-IsSafe env s v request sensible)
