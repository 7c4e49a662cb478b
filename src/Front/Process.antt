-- ===== src/Front/Process.antt =====
-- src/bpfilter/main.c, _bf_process_request and _bf_save; bf_front_ops_get of src/bpfilter/xlate/front.c.
use bpfilter.Prelude.{
  ℕ, suc, Bool, not, ltb, ◌&&◌, ◌||◌, List, [], ◌∷◌, Option, none, some, ◌==◌, if◌then◌else◌,
  get_elem?,
}
use bpfilter.Result.{Result, ok, err, fault, assert, enotsup}
use bpfilter.Marsh.{Marsh, image, marsh_new, add_child_obj}
use bpfilter.Hook.{has_flag}
use bpfilter.Prog.Calls.{Io, ◌>>=◌, ◌>>◌, lift, ret}
use bpfilter.Codegen.Up.{Env}
use bpfilter.Ctx.{Ctx, ctx_is_empty, ctx_marsh}
use bpfilter.Request.{Request, Response, front_max, ruleset_flush, rules_set, response_new_failure}
use bpfilter.Front.{Daemon, Handler, outside}

-- `struct bf_front_ops`, as far as the requests and the saved context need it; `marsh` is the child
-- that a front stores.
pub record FrontOps (W : Type 0) : Type 0 where
  pub request_handler : Handler W
  pub marsh : Result Marsh

-- The calls on the file of the context: bf_write_file, and `unlink`, whose errors are ignored.
pub record Files (W : Type 0) : Type 0 where
  pub write_file : List ℕ → Io W (Unit {0})
  pub unlink : W → W

-- bf_opts_is_front_enabled
abbrev pub is_front_enabled : ℕ → ℕ → Bool
is_front_enabled fronts front = has_flag fronts front

module _ {W : Type 0} (env : Env W) (files : Files W) (fronts : List (FrontOps W)) where
  -- The loop of _bf_save over the fronts, from the front `i` on.
  unfoldable pub marsh_fronts : ℕ → List (FrontOps W) → Marsh → Io W Marsh
  marsh_fronts i [] m = ret m
  marsh_fronts i (ops ∷ others) m =
      if is_front_enabled env.fronts i
      then (lift ops.marsh >>= λ child. marsh_fronts (suc i) others (add_child_obj m child))
      else marsh_fronts (suc i) others m

  -- _bf_save
  unfoldable pub save : Ctx → Io W (Unit {0})
  unfolding marsh_fronts
  save ctx = if ctx_is_empty ctx then (λ w. (ok tt, files.unlink w)) else do
    m ← marsh_fronts 0 fronts (add_child_obj (marsh_new []) (ctx_marsh ctx))
    files.write_file (image m)

  -- A failure of the handler becomes a response.
  unfoldable pub answered : Result Response × Daemon W → Result Response × Daemon W
  answered (ok response, s) = (ok response, s)
  answered (err e, s) = (response_new_failure e, s)
  answered (fault, s) = (fault, s)

  unfoldable pub handled : Option (FrontOps W) → Request → Io (Daemon W) Response
  unfolding answered
  handled none request s = (fault, s)
  handled (some ops) request s = answered (ops.request_handler request s)

  -- The part of _bf_process_request for a front that is enabled.
  unfoldable pub process_enabled : Handler W
  unfolding handled save outside
  process_enabled request = do
    response ← handled (get_elem? fronts request.front) request
    (if not env.transient && (request.cmd == ruleset_flush || request.cmd == rules_set)
        then (λ s. outside (save s.ctx) s)
        else ret tt)
    ret response

  -- The assertion is bf_front_to_str's, which both branches call.
  unfoldable pub process_request : Handler W
  unfolding process_enabled
  process_request request =
      lift (assert (ltb request.front front_max))
      >> (if not (is_front_enabled env.fronts request.front)
          then lift (response_new_failure enotsup)
          else process_enabled request)
