-- ===== src/Front/Reach.antt =====
-- The states that the daemon reaches by handling requests.
use bpfilter.Prelude.{
  ◌≡◌, ◌≢◌, refl, sym, subst, Bool, true, false, not, ◌&&◌, ◌||◌, List, Option, none, some, ltb,
  ◌==◌, if◌then◌else◌, length, get_elem?, Bool-cases, inl, inr, zero, suc, ◌∙◌, some_injective, ℕ,
}
use bpfilter.Result.{Result, ok, err, fault, Gives}
use bpfilter.Prog.Calls.{◌>>=◌, ret}
use bpfilter.Codegen.Up.{Env}
use bpfilter.Ctx.{ctx_flush, ctx_is_empty, hook_max}
use bpfilter.Ctx.Flush.{ctx_flush_lem}
use bpfilter.Ctx.Sound.{IsSound}
use bpfilter.Request.{
  Request, Response, front_nft, front_max, ruleset_flush, rules_set, response_new_failure,
}
use bpfilter.Front.{Daemon, outside}
use bpfilter.Front.Process.{
  FrontOps, Files, is_front_enabled, save, answered, handled, process_enabled, process_request,
}
use bpfilter.Ipt.Replace.{Counter}
use bpfilter.Ipt.Handler.{IptLayout}
use bpfilter.Ipt.Safe.{ipt-HandlesSafely}
use bpfilter.Front.Table.{ipt_front, cli_front, front_ops}
use bpfilter.Front.Session.{
  HandlesSafely, cli-HandlesSafely, IsSensible, IsSafe, at_rest, IsSafe-continue, outside-IsSafe,
}

module _ {W : Type 0} (env : Env W) (files : Files W) (layout : IptLayout)
    (lookup : Option ℕ → ℕ → Result Counter) (nft : FrontOps W)
    (no_nft : is_front_enabled env.fronts front_nft ≡ false) where
  abbrev fronts : List (FrontOps W)
  fronts = front_ops env layout lookup nft

  -- The handlers of the fronts that are enabled.
  enabled-HandlesSafely :
      (front : ℕ) (ops : FrontOps W)
      → get_elem? fronts front ≡ some ops
      → is_front_enabled env.fronts front ≡ true
      → HandlesSafely ops
  enabled-HandlesSafely zero ops e on =
      subst HandlesSafely (some_injective e)
        (ipt-HandlesSafely env layout lookup (ipt_front env layout lookup) refl)
  enabled-HandlesSafely (suc zero) ops e on = absurd (true_not_false (sym on ∙ no_nft))
    where
      true_not_false : true ≡ false → ⊥
      true_not_false f = cc
  enabled-HandlesSafely (suc (suc zero)) ops e on =
      subst HandlesSafely (some_injective e) (cli-HandlesSafely env (cli_front env) refl)
  enabled-HandlesSafely (suc (suc (suc n))) ops e on = cc

  module _ (request : Request) (sensible : IsSensible request) (s : Daemon W)
      (v : IsSound s.ctx) where
    answered-IsSafe :
        (x : Result Response × Daemon W) → IsSafe x → IsSafe (answered env files fronts x)
    unfolding answered response_new_failure
    answered-IsSafe (ok response, t) h = at_rest (h.on_ok response refl)
    answered-IsSafe (err e, t) h = at_rest (h.on_err e refl)
    answered-IsSafe (fault, t) h = record { on_ok = λ a e. cc; on_err = λ n e. cc }

    handled-IsSafe :
        (ops : Option (FrontOps W))
        → get_elem? fronts request.front ≡ ops
        → is_front_enabled env.fronts request.front ≡ true
        → IsSafe (handled env files fronts ops request s)
    unfolding handled
    handled-IsSafe none e on = at_rest v
    handled-IsSafe (some ops) e on =
        answered-IsSafe _ (enabled-HandlesSafely request.front ops e on request s sensible v)

    saved :
        (b : Bool) (t : Daemon W)
        → IsSound t.ctx
        → IsSafe ((if b then (λ u. outside (save env files fronts u.ctx) u) else ret tt) t)
    saved true t w = outside-IsSafe _ t w
    saved false t w = at_rest w

    process_enabled-IsSafe :
        is_front_enabled env.fronts request.front ≡ true
        → IsSafe (process_enabled env files fronts request s)
    unfolding process_enabled ◌>>=◌
    process_enabled-IsSafe on = IsSafe-continue _ _ (handled-IsSafe _ refl on) λ response t w.
        IsSafe-continue _ (λ done. ret response)
          (saved (not env.transient && (request.cmd == ruleset_flush || request.cmd == rules_set)) t
            w)
          λ done u x. at_rest x

    pub process_request-IsSafe : IsSafe (process_request env files fronts request s)
    unfolding process_request ◌>>=◌ response_new_failure
    process_request-IsSafe = elim (Bool-cases (ltb request.front front_max)) [
      | inl a ↦ elim (Bool-cases (is_front_enabled env.fronts request.front)) [
        | inl b ↦ rw (a, b) (process_enabled-IsSafe b)
        | inr b ↦ rw (a, b) (at_rest v)
      ]
      | inr a ↦ rw a (record { on_ok = λ r e. cc; on_err = λ n e. cc })
    ]

  -- A request is handled, with any response or error but without a fault.
  pub data Step (s t : Daemon W) : Type 0 where
    handle :
        (request : Request)
        → IsSensible request
        → (process_request env files fronts request s).0 ≢ fault
        → t ≡ (process_request env files fronts request s).1
        → Step s t

  pub data Reaches (start : Daemon W) : Daemon W → Type 0 where
    here : Reaches start start
    next : {s t : Daemon W} → Reaches start s → Step s t → Reaches start t

  -- The end of a request that does not fault.
  ended : (x : Result Response × Daemon W) → IsSafe x → x.0 ≢ fault → IsSound x.1.ctx
  ended (ok response, t) h f = h.on_ok response refl
  ended (err e, t) h f = h.on_err e refl
  ended (fault, t) h f = absurd (f refl)

  -- In a daemon whose front of nftables is disabled, every state that is reached from a sound one, by
  -- requests whose chains name what their hooks need, is sound, whatever the system calls give: the slots
  -- of the context are different, and each codegen has a program, with a link if it is to be attached.
  pub Reaches-IsSound : (start s : Daemon W) → IsSound start.ctx → Reaches start s → IsSound s.ctx
  Reaches-IsSound start s v here = v
  Reaches-IsSound start s v (next {s = u} r (handle request sensible f e)) =
      subst (λ d. IsSound d.ctx) (sym e)
        (ended _ (process_request-IsSafe request sensible u (Reaches-IsSound start u v r)) f)

  -- In a daemon whose front of nftables is disabled, every state that is reached from a sound one, by
  -- requests whose chains name what their hooks need, can be flushed: bf_ctx_flush ends, and leaves an
  -- empty context.
  pub Reaches-flush :
      (start s : Daemon W)
      → IsSound start.ctx
      → Reaches start s
      → Gives
          (ctx_flush env.detach s.ctx)
          (λ x. (ctx_is_empty x.1 ≡ true) × (length x.1 ≡ hook_max))
  Reaches-flush start s v r =
      let (x, e, (first, empty, n)) =
        ctx_flush_lem env.detach s.ctx (Reaches-IsSound start s v r).loaded in
      (x, e, (empty, n))
