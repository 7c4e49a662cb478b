-- ===== src/Cgen/Flavors.antt =====
-- src/bpfilter/cgen/xdp.c, tc.c, nf.c and cgroup.c: what the flavors generate before the rules, and the
-- return codes that stand for the verdicts. bf_flavor_ops_get of program.c chooses among them.
use bpfilter.Prelude.{
  ℕ, ◌%◌, ◌^◌, Bool, true, false, ◌||◌, List, [], ◌∷◌, Option, none, some, ◌==◌, if◌then◌else◌,
  get_elem?,
}
use bpfilter.Result.{Result, ok, fault, ◌>>=◌}
use bpfilter.Strings.{codes}
use bpfilter.Hook.{nf_pre_routing, nf_local_in, nf_forward}
use bpfilter.Cgen.{
  Insn, Program, byte, word, double_word, alu_add, alu_sub, ldx_mem, stx_mem, st_mem, mov64_imm,
  alu64_imm, alu64_reg,
}
use bpfilter.Cgen.Emit.{emit, emit_all}
use bpfilter.Cgen.Swich.{Swich, swich_add_option, swich_set_default, swich_generate}
use bpfilter.Cgen.Context.{
  ctx_off, ctx_pkt_size, ctx_l3_offset, ctx_ifindex, htobe16, eth_p_ip, eth_p_ipv6,
}
use bpfilter.Cgen.Stub.{
  Kernel, make_ctx_xdp_dynptr, make_ctx_skb_dynptr, parse_l2_ethhdr, parse_l3_hdr, parse_l4_hdr,
  no_swich,
}
use bpfilter.Cgen.Generate.{FlavorOps}
pub mod Prologues

-- A table of the return codes for BF_VERDICT_ACCEPT and BF_VERDICT_DROP; other verdicts fail the
-- assertion of the functions `get_verdict`.
abbrev pub verdict_code : List ℕ → ℕ → Result ℕ
verdict_code verdicts verdict = elim (get_elem? verdicts verdict) [
  | none ↦ fault
  | some code ↦ ok code
]

-- XDP_PASS, XDP_DROP; TC_ACT_OK, TC_ACT_SHOT; NF_ACCEPT, NF_DROP
abbrev pub xdp_verdicts : List ℕ
xdp_verdicts = 2 ∷ 1 ∷ []

abbrev pub tc_verdicts : List ℕ
tc_verdicts = 0 ∷ 2 ∷ []

abbrev pub nf_verdicts : List ℕ
nf_verdicts = 1 ∷ 0 ∷ []

abbrev pub cgroup_verdicts : List ℕ
cgroup_verdicts = 1 ∷ 0 ∷ []

-- `struct xdp_md`: data at 0, data_end at 4, ingress_ifindex at 12.
abbrev pub xdp_head : List Insn
xdp_head =
    ldx_mem word 2 1 0
    ∷ ldx_mem word 3 1 4
    ∷ alu64_reg alu_sub 3 2
    ∷ stx_mem double_word 10 3 (ctx_off ctx_pkt_size)
    ∷ ldx_mem word 2 1 12
    ∷ stx_mem word 10 2 (ctx_off ctx_ifindex)
    ∷ []

unfoldable pub xdp_prologue : Kernel → Program → Result Program
xdp_prologue kernel p = do
  a ← emit_all p xdp_head
  b ← make_ctx_xdp_dynptr kernel 2 1 a
  c ← parse_l2_ethhdr kernel 2 b
  d ← parse_l3_hdr kernel 2 c
  parse_l4_hdr kernel 2 d

-- `struct __sk_buff`: data at 76, data_end at 80.
abbrev pub tc_head : List Insn
tc_head =
    ldx_mem word 2 1 76
    ∷ ldx_mem word 3 1 80
    ∷ alu64_reg alu_sub 3 2
    ∷ stx_mem double_word 10 3 (ctx_off ctx_pkt_size)
    ∷ []

-- A field whose offset is given, cut off to 16 bits, and a store of the interface's index.
abbrev pub load_ifindex : ℕ → ℕ → ℕ → List Insn
load_ifindex dst src offset =
    ldx_mem word dst src (offset % 2 ^ 16) ∷ stx_mem word 10 dst (ctx_off ctx_ifindex) ∷ []

unfoldable pub tc_prologue : Kernel → Program → Result Program
tc_prologue kernel p = do
  a ← emit_all p tc_head
  ifindex ← kernel.field_off (codes "__sk_buff") (codes "ifindex")
  b ← emit_all a (load_ifindex 2 1 ifindex)
  c ← make_ctx_skb_dynptr kernel 0 1 b
  d ← parse_l2_ethhdr kernel 0 c
  e ← parse_l3_hdr kernel 0 d
  parse_l4_hdr kernel 0 e

-- The ethertype in r7 by the address family in a register: AF_INET is 2, AF_INET6 is 10.
abbrev pub family_swich : ℕ → Swich
family_swich reg =
    swich_set_default
      (swich_add_option (swich_add_option (no_swich reg) 2 (mov64_imm 7 (htobe16 eth_p_ip) ∷ [])) 10
        (mov64_imm 7 (htobe16 eth_p_ipv6) ∷ []))
      (mov64_imm 7 0 ∷ [])

-- _bf_nf_hook_is_ingress
abbrev pub nf_hook_is_ingress : ℕ → Bool
nf_hook_is_ingress hook = hook == nf_pre_routing || (hook == nf_local_in || hook == nf_forward)

-- The packet's size, with ETH_HLEN, which is 14.
abbrev pub nf_size : ℕ → List Insn
nf_size offset =
    ldx_mem word 2 1 (offset % 2 ^ 16)
    ∷ alu64_imm alu_add 2 14
    ∷ stx_mem double_word 10 2 (ctx_off ctx_pkt_size)
    ∷ []

unfoldable pub nf_prologue : Kernel → ℕ → Program → Result Program
unfolding swich_generate
nf_prologue kernel hook p = do
  state ← kernel.field_off (codes "bpf_nf_ctx") (codes "state")
  a ← emit p (ldx_mem double_word 2 1 (state % 2 ^ 16))
  device ←
      kernel.field_off (codes "nf_hook_state")
        (if nf_hook_is_ingress hook then codes "in" else codes "out")
  b ← emit a (ldx_mem double_word 3 2 (device % 2 ^ 16))
  ifindex ← kernel.field_off (codes "net_device") (codes "ifindex")
  c ← emit_all b (load_ifindex 4 3 ifindex)
  pf ← kernel.field_off (codes "nf_hook_state") (codes "pf")
  d ← emit c (ldx_mem byte 3 2 (pf % 2 ^ 16))
  e ← swich_generate d (family_swich 3)
  f ← emit e (st_mem word 10 (ctx_off ctx_l3_offset) 0)
  skb ← kernel.field_off (codes "bpf_nf_ctx") (codes "skb")
  g ← emit f (ldx_mem double_word 1 1 (skb % 2 ^ 16))
  len ← kernel.field_off (codes "sk_buff") (codes "len")
  h ← emit_all g (nf_size len)
  i ← make_ctx_skb_dynptr kernel 1 1 h
  j ← parse_l3_hdr kernel 1 i
  parse_l4_hdr kernel 1 j

abbrev pub cgroup_head : List Insn
cgroup_head =
    ldx_mem word 2 1 76
    ∷ ldx_mem word 3 1 80
    ∷ alu64_reg alu_sub 3 2
    ∷ alu64_imm alu_add 3 14
    ∷ stx_mem double_word 10 3 (ctx_off ctx_pkt_size)
    ∷ []

unfoldable pub cgroup_prologue : Kernel → Program → Result Program
unfolding swich_generate
cgroup_prologue kernel p = do
  a ← emit_all p cgroup_head
  ifindex ← kernel.field_off (codes "__sk_buff") (codes "ifindex")
  b ← emit_all a (load_ifindex 2 1 ifindex)
  family ← kernel.field_off (codes "__sk_buff") (codes "family")
  c ← emit b (ldx_mem word 2 1 (family % 2 ^ 16))
  d ← swich_generate c (family_swich 2)
  e ← emit d (st_mem word 10 (ctx_off ctx_l3_offset) 0)
  f ← make_ctx_skb_dynptr kernel 1 1 e
  g ← parse_l3_hdr kernel 1 f
  parse_l4_hdr kernel 1 g

-- The epilogues add nothing.
abbrev pub no_epilogue : Program → Result Program
no_epilogue p = ok p

abbrev pub flavor : (Program → Result Program) → List ℕ → FlavorOps
flavor prologue verdicts = record {
  gen_inline_prologue = prologue;
  gen_inline_epilogue = no_epilogue;
  get_verdict = verdict_code verdicts;
}

-- bf_flavor_ops_get by hook; the program is of the hook that the table is asked for.
abbrev pub flavor_table : Kernel → ℕ → List FlavorOps
flavor_table kernel hook =
    let xdp_ops = flavor (xdp_prologue kernel) xdp_verdicts in
    let tc_ops = flavor (tc_prologue kernel) tc_verdicts in
    let nf_ops = flavor (nf_prologue kernel hook) nf_verdicts in
    let cgroup_ops = flavor (cgroup_prologue kernel) cgroup_verdicts in
    xdp_ops ∷ tc_ops ∷ nf_ops ∷ nf_ops ∷ nf_ops ∷ cgroup_ops ∷ cgroup_ops ∷ nf_ops ∷ nf_ops ∷ tc_ops
    ∷ []

unfoldable pub flavor_ops : Kernel → ℕ → Result FlavorOps
flavor_ops kernel hook = elim (get_elem? (flavor_table kernel hook) hook) [
  | none ↦ fault
  | some ops ↦ ok ops
]
