-- ===== src/Ipt/Handler.antt =====
-- src/bpfilter/xlate/ipt/ipt.c, the requests of iptables: _bf_ipt_ruleset_set, the handlers of the other
-- commands, and _bf_ipt_request_handler.
use bpfilter.Prelude.{
  ℕ, ◌+◌, Bool, true, false, not, List, [], ◌∷◌, Option, none, some, ◌==◌, leb, if◌then◌else◌,
  length,
}
use bpfilter.Result.{Result, ok, err, fault, assert, require, einval, enotsup}
use bpfilter.Strings.{codes}
use bpfilter.Hook.Options.{streq}
use bpfilter.Chain.{Chain}
use bpfilter.Prog.Calls.{Io, ◌>>=◌, ◌>>◌, lift, ret}
use bpfilter.Codegen.Up.{Env}
use bpfilter.Request.{Response, front_ipt, rules_set, counters_set, custom, response_new_success}
use bpfilter.Front.{Daemon, Handler, get_cgen}
use bpfilter.Front.Cli.{put_chain}
use bpfilter.Ipt.{Sizes}
use bpfilter.Ipt.Ruleset.{IptReplace, IptBlock, xlate_ruleset_set}
use bpfilter.Ipt.Replace.{Counter, Slot, gen_ipt_replace}

-- How the structs of the kernel's headers lie in the data of a request and of a response.
pub record IptLayout : Type 0 where
  pub sizes : Sizes
  -- `struct ipt_replace`: its size without the entries, and how it is read with them
  pub replace_size : ℕ
  pub replace_of : List ℕ → Result (IptReplace × IptBlock)
  -- `struct ipt_getinfo`: its size, its name, and the data with the new members
  pub info_size : ℕ
  pub info_name : List ℕ → Result (List ℕ)
  pub with_info : IptReplace → List ℕ → List ℕ
  -- `struct ipt_get_entries`: its size without the entries, its name and `size`, and the data with the
  -- entries
  pub entries_size : ℕ
  pub entries_name : List ℕ → Result (List ℕ)
  pub room_of : List ℕ → Result ℕ
  pub with_entries : List Slot → List ℕ → List ℕ

abbrev pub filter_name : List ℕ
filter_name = codes "filter"

-- IPT_SO_GET_INFO, IPT_SO_GET_ENTRIES
abbrev pub get_info : ℕ
get_info = 64

abbrev pub get_entries : ℕ
get_entries = 65

module _ {W : Type 0} (env : Env W) where
  unfoldable pub caught : Result (Unit {0}) × Daemon W → Result ℕ × Daemon W
  caught (ok t, s) = (ok 0, s)
  caught (err e, s) = (ok e, s)
  caught (fault, s) = (fault, s)

  -- An error is noted, and the loop goes on.
  unfoldable pub attempt : Io (Daemon W) (Unit {0}) → Io (Daemon W) ℕ
  unfolding caught
  attempt m s = caught (m s)

  -- The loop of _bf_ipt_ruleset_set over the chains; `r` is the error of the last chain, or 0.
  unfoldable pub set_chains : ℕ → List (Option Chain) → Io (Daemon W) ℕ
  unfolding get_cgen put_chain attempt
  set_chains r [] = ret r
  set_chains r (none ∷ chains) = set_chains r chains
  set_chains r (some chain ∷ chains) = do
    cgen ← get_cgen chain
    e ← attempt (put_chain env front_ipt chain cgen)
    set_chains e chains

  module _ (layout : IptLayout) (lookup : Option ℕ → ℕ → Result Counter) where
    -- _bf_ipt_ruleset_set
    unfoldable pub ipt_ruleset_set : List ℕ → Io (Daemon W) (Unit {0})
    unfolding set_chains
    ipt_ruleset_set bytes = do
      (ipt, block) ← lift (layout.replace_of bytes)
      lift (assert (layout.replace_size + ipt.size == length bytes))
      chains ← lift (xlate_ruleset_set layout.sizes block ipt)
      r ← set_chains 0 chains
      lift (if r == 0 then ok tt else err r)

    -- The table of the daemon's context, which is not changed.
    unfoldable pub table : Bool → Io (Daemon W) (IptReplace × List Slot)
    table with_counters s = (gen_ipt_replace layout.sizes lookup with_counters s.ctx, s)

    -- A response with all of the bytes that it is made from.
    pub answer : List ℕ → Result Response
    answer bytes = response_new_success (some bytes) (length bytes)

    -- _bf_ipt_get_info_handler
    unfoldable pub ipt_get_info : Handler W
    unfolding table answer
    ipt_get_info request = do
      lift (assert (layout.info_size == length request.data_bytes))
      name ← lift (layout.info_name request.data_bytes)
      lift (require (streq name filter_name) einval)
      (replace, slots) ← table false
      lift (answer (layout.with_info replace request.data_bytes))

    -- _bf_ipt_get_entries_handler; the code does not check that the request is as long as its
    -- `size` says, and to write behind it is a fault.
    unfoldable pub ipt_get_entries : Handler W
    unfolding table
    ipt_get_entries request = do
      name ← lift (layout.entries_name request.data_bytes)
      lift (require (streq name filter_name) einval)
      (replace, slots) ← table true
      room ← lift (layout.room_of request.data_bytes)
      lift (require (room == replace.size) einval)
      lift (assert (leb (layout.entries_size + room) (length request.data_bytes)))
      lift (
          response_new_success (some (layout.with_entries slots request.data_bytes))
            (layout.entries_size + room))

    -- _bf_ipt_set_counters_handler does nothing, and its request is sent back.
    unfoldable pub ipt_set_counters : Handler W
    unfolding answer
    ipt_set_counters request = lift (answer request.data_bytes)

    -- _bf_ipt_request_handler
    unfoldable pub ipt_request_handler : Handler W
    unfolding ipt_ruleset_set ipt_get_info ipt_get_entries ipt_set_counters
    ipt_request_handler request =
        if request.cmd == rules_set
        then ipt_ruleset_set request.data_bytes >> lift (answer request.data_bytes)
        else if request.cmd == counters_set
        then ipt_set_counters request
        else if not (request.cmd == custom)
        then lift (err enotsup)
        else if request.ipt_cmd == get_info
        then ipt_get_info request
        else if request.ipt_cmd == get_entries
        then ipt_get_entries request
        else lift (err enotsup)
