-- ===== src/Front/Table.antt =====
-- src/bpfilter/xlate/front.c, the table of bf_front_ops_get, with the operations of the fronts of iptables
-- and of the command line. Neither stores anything. The front of nftables is a parameter.
use bpfilter.Prelude.{ℕ, List, [], ◌∷◌, Option}
use bpfilter.Result.{Result, ok}
use bpfilter.Marsh.{marsh_new}
use bpfilter.Codegen.Up.{Env}
use bpfilter.Front.Cli.{cli_request_handler}
use bpfilter.Front.Process.{FrontOps}
use bpfilter.Ipt.Replace.{Counter}
use bpfilter.Ipt.Handler.{IptLayout, ipt_request_handler}

module _ {W : Type 0} (env : Env W) where
  abbrev pub ipt_front : IptLayout → (Option ℕ → ℕ → Result Counter) → FrontOps W
  ipt_front layout lookup = record {
    request_handler = ipt_request_handler env layout lookup;
    marsh = ok (marsh_new []);
  }

  abbrev pub cli_front : FrontOps W
  cli_front = record { request_handler = cli_request_handler env; marsh = ok (marsh_new []) }

  -- BF_FRONT_IPT, BF_FRONT_NFT and BF_FRONT_CLI, in this order.
  abbrev pub front_ops :
      IptLayout → (Option ℕ → ℕ → Result Counter) → FrontOps W → List (FrontOps W)
  front_ops layout lookup nft = ipt_front layout lookup ∷ nft ∷ cli_front ∷ []
