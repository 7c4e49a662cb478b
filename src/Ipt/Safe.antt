-- ===== src/Ipt/Safe.antt =====
-- The context while the daemon handles the requests of iptables.
use bpfilter.Prelude.{
  ℕ, ◌≡◌, refl, sym, ◌∙◌, Bool, true, false, not, List, [], ◌∷◌, Option, none, some, All, ◌==◌,
  if◌then◌else◌,
}
use bpfilter.Result.{Result, ok, err, fault}
use bpfilter.Chain.{Chain}
use bpfilter.Prog.Ident.{by_netfilter}
use bpfilter.Prog.Calls.{Io, ◌>>=◌, continue, lift}
use bpfilter.Codegen.{Codegen}
use bpfilter.Codegen.Up.{Env}
use bpfilter.Ctx.{ctx_get_cgen}
use bpfilter.Ctx.Slots.{HasSlot}
use bpfilter.Ctx.Sound.{IsSound}
use bpfilter.Request.{Request, front_ipt, rules_set, counters_set, custom}
use bpfilter.Front.{Daemon, get_cgen}
use bpfilter.Front.Cli.{put_chain}
use bpfilter.Front.Process.{FrontOps}
use bpfilter.Front.Installed.{put_chain-Leaves}
use bpfilter.Front.Session.{HandlesSafely, IsSafe, at_rest, IsSafe-continue, Leaves-IsSafe}
use bpfilter.Ipt.Ruleset.{xlate_ruleset_set}
use bpfilter.Ipt.Replace.{Counter}
use bpfilter.Ipt.Slots.{AtNetfilter, xlate_ruleset_set-AtNetfilter}
use bpfilter.Ipt.Handler.{
  IptLayout, caught, attempt, set_chains, ipt_ruleset_set, ipt_get_info, ipt_get_entries,
  ipt_set_counters, ipt_request_handler, table, get_info, get_entries,
}

module _ {W : Type 0} (env : Env W) where
  caught-IsSafe : (x : Result (Unit {0}) × Daemon W) → IsSafe x → IsSafe (caught env x)
  unfolding caught
  caught-IsSafe (ok t, s) h = at_rest (h.on_ok t refl)
  caught-IsSafe (err e, s) h = at_rest (h.on_err e refl)
  caught-IsSafe (fault, s) h = record { on_ok = λ a e. cc; on_err = λ n e. cc }

  slot_of : (chain : Chain) → by_netfilter chain.hook ≡ true → HasSlot chain.hook chain.hook_opts
  slot_of chain h a b e = true_not_false (sym h ∙ b)
    where
      true_not_false : true ≡ false → ⊥
      true_not_false f = cc

  -- One chain, whose error is noted.
  attempt-IsSafe :
      (s : Daemon W) (chain : Chain) (r : Result (Option Codegen))
      → IsSound s.ctx
      → by_netfilter chain.hook ≡ true
      → ctx_get_cgen s.ctx chain.hook chain.hook_opts ≡ r
      → (rest : ℕ → Io (Daemon W) ℕ) → ((e : ℕ) (t : Daemon W) → IsSound t.ctx → IsSafe (rest e t))
      → IsSafe (
          continue {B = ℕ}
            (r, s)
            (λ cgen t. continue (attempt env (put_chain env front_ipt chain cgen) t) rest))
  unfolding attempt
  attempt-IsSafe s chain (ok found) v h e rest k =
      IsSafe-continue _ rest
        (caught-IsSafe _
          (Leaves-IsSafe v (put_chain-Leaves env s v front_ipt chain (slot_of chain h) found e)))
        k
  attempt-IsSafe s chain (err n) v h e rest k = at_rest v
  attempt-IsSafe s chain fault v h e rest k = record { on_ok = λ a f. cc; on_err = λ n f. cc }

  set_chains-IsSafe :
      (r : ℕ) (chains : List (Option Chain)) (s : Daemon W)
      → All AtNetfilter chains
      → IsSound s.ctx
      → IsSafe (set_chains env r chains s)
  unfolding set_chains get_cgen ◌>>=◌
  set_chains-IsSafe r [] s h v = at_rest v
  set_chains-IsSafe r (none ∷ chains) s h v = set_chains-IsSafe r chains s h.1 v
  set_chains-IsSafe r (some chain ∷ chains) s h v =
      attempt-IsSafe s chain _ v h.0 refl (λ e. set_chains env e chains)
        (λ e t w. set_chains-IsSafe e chains t h.1 w)

  -- A function that keeps the context sound, in every state.
  record Safely {A : Type 0} (m : Io (Daemon W) A) : Type 0 where
    in_state : (s : Daemon W) → IsSound s.ctx → IsSafe (m s)

  Safely-lift : {A : Type 0} {r : Result A} → Safely (lift r)
  Safely-lift = record { in_state = λ s v. at_rest v }

  Safely-bind :
      {A B : Type 0} {m : Io (Daemon W) A} {rest : A → Io (Daemon W) B}
      → Safely m
      → ((a : A) → Safely (rest a))
      → Safely (m >>= rest)
  unfolding ◌>>=◌
  Safely-bind {m = m} {rest = rest} h k = record {
    in_state = λ s v. IsSafe-continue (m s) rest (h.in_state s v) λ a t w. (k a).in_state t w;
  }

  -- A result that is taken apart knows where it comes from.
  Safely-result :
      {A B : Type 0} (r : Result A) {rest : A → Io (Daemon W) B}
      → ((a : A) → r ≡ ok a → Safely (rest a))
      → Safely (lift r >>= rest)
  unfolding ◌>>=◌
  Safely-result (ok a) k = k a refl
  Safely-result (err n) k = record { in_state = λ s v. at_rest v }
  Safely-result fault k = record {
    in_state = λ s v. record { on_ok = λ a e. cc; on_err = λ n e. cc };
  }

  Safely-either :
      {A : Type 0} (b : Bool) {m n : Io (Daemon W) A}
      → Safely m
      → Safely n
      → Safely (if b then m else n)
  Safely-either true h k = h
  Safely-either false h k = k

  module _ (layout : IptLayout) (lookup : Option ℕ → ℕ → Result Counter) where
    Safely-table : (b : Bool) → Safely (table env layout lookup b)
    unfolding table
    Safely-table b = record { in_state = λ s v. at_rest v }

    set_chains-Safely :
        (chains : List (Option Chain)) → All AtNetfilter chains → Safely (set_chains env 0 chains)
    set_chains-Safely chains h = record { in_state = λ s v. set_chains-IsSafe 0 chains s h v }

    ruleset_set-Safely : (bytes : List ℕ) → Safely (ipt_ruleset_set env layout lookup bytes)
    unfolding ipt_ruleset_set
    ruleset_set-Safely bytes = Safely-bind Safely-lift λ (ipt, block). Safely-bind Safely-lift λ a.
        Safely-result (xlate_ruleset_set layout.sizes block ipt) λ chains e.
          Safely-bind
            (set_chains-Safely chains
              (xlate_ruleset_set-AtNetfilter layout.sizes block ipt chains e))
            λ e. Safely-lift

    get_info-Safely : (request : Request) → Safely (ipt_get_info env layout lookup request)
    unfolding ipt_get_info
    get_info-Safely request = Safely-bind Safely-lift λ a. Safely-bind Safely-lift λ name.
        Safely-bind Safely-lift
          λ b. Safely-bind (Safely-table false) λ (replace, slots). Safely-lift

    get_entries-Safely : (request : Request) → Safely (ipt_get_entries env layout lookup request)
    unfolding ipt_get_entries
    get_entries-Safely request = Safely-bind Safely-lift λ name. Safely-bind Safely-lift λ b.
        Safely-bind (Safely-table true) λ (replace, slots).
          Safely-bind Safely-lift
            λ room. Safely-bind Safely-lift λ c. Safely-bind Safely-lift λ d. Safely-lift

    request_handler-Safely :
        (request : Request) → Safely (ipt_request_handler env layout lookup request)
    unfolding ipt_request_handler ipt_set_counters
    request_handler-Safely request =
        Safely-either (request.cmd == rules_set)
          (Safely-bind (ruleset_set-Safely request.data_bytes) λ t. Safely-lift)
          (Safely-either (request.cmd == counters_set) Safely-lift (
            Safely-either (not (request.cmd == custom)) Safely-lift (
              Safely-either (request.ipt_cmd == get_info) (get_info-Safely request) (
                Safely-either (request.ipt_cmd == get_entries) (get_entries-Safely request)
                  Safely-lift))))

-- The front of iptables keeps the promise, for every request and however the structs of the kernel lie.
pub ipt-HandlesSafely :
    {W : Type 0} (env : Env W) (layout : IptLayout) (lookup : Option ℕ → ℕ → Result Counter)
    (ops : FrontOps W)
    → ops.request_handler ≡ ipt_request_handler env layout lookup
    → HandlesSafely ops
ipt-HandlesSafely env layout lookup ops e request s sensible v =
    rw e ((request_handler-Safely env layout lookup request).in_state s v)
