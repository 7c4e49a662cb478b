-- ===== src/Cgen/Stub.antt =====
-- src/bpfilter/cgen/stub.c: the parts that the prologues of the flavors have in common.
use bpfilter.Prelude.{ℕ, ◌+◌, ◌-◌, ◌%◌, ◌^◌, Bool, List, [], ◌∷◌, none, ◌==◌, if◌then◌else◌}
use bpfilter.Result.{Result, ok, ◌>>=◌}
use bpfilter.Strings.{codes}
use bpfilter.Cgen.{
  Insn, Program, update_counters, byte, half, word, double_word, jeq, jne, alu_add, alu_and,
  alu_lsh, ldx_mem, stx_mem, st_mem, jmp_imm, mov32_imm, mov64_imm, mov64_reg, alu64_imm, alu64_reg,
  kfunc_call, exit_insn,
}
use bpfilter.Cgen.Emit.{emit, emit_all, emit_fixup_call, emit_print}
use bpfilter.Cgen.Jump.{jmpctx_get, jmpctx_cleanup}
use bpfilter.Cgen.Swich.{Swich, swich_add_option, swich_set_default, swich_generate}
use bpfilter.Cgen.Context.{
  ctx_off, ctx_imm, ctx_dynptr, ctx_pkt_size, ctx_l3_offset, ctx_l4_offset, ctx_l2_hdr, ctx_l3_hdr,
  ctx_l4_hdr, ctx_l2, ctx_l4, htobe16, eth_p_ip, eth_p_ipv6, ipproto_tcp, ipproto_udp, ipproto_icmp,
  ipproto_icmpv6,
}
pub mod Grows
pub mod Total

-- What the generation asks the kernel and the options of the daemon for.
pub record Kernel : Type 0 where
  -- bf_btf_get_id
  pub btf_id : List ℕ → Result ℕ
  -- bf_btf_get_field_off of a struct and a field
  pub field_off : List ℕ → List ℕ → Result ℕ
  -- bf_opts_is_verbose(BF_VERBOSE_BPF)
  pub verbose : Bool

-- bf_program_emit_kfunc_call
unfoldable pub emit_kfunc_call : Kernel → Program → List ℕ → Result Program
unfolding emit
emit_kfunc_call kernel p name = do id ← kernel.btf_id name; emit p (kfunc_call (id % 2 ^ 32))

-- "Update the error counter": its index, with the `- 1` of a size_t, and the size of the packet.
abbrev pub error_counter : ℕ → List Insn
error_counter num_counters =
    mov32_imm 1 ((num_counters + (2 ^ 64 - 1)) % 2 ^ 32)
    ∷ ldx_mem double_word 2 10 (ctx_off ctx_pkt_size)
    ∷ []

abbrev pub return_insns : ℕ → List Insn
return_insns verdict = mov64_imm 0 verdict ∷ exit_insn ∷ []

-- "If the function call failed, quit the program": the block behind the jump, which every stub has.
-- `verdict` is `ops->get_verdict(BF_VERDICT_ACCEPT)`.
unfoldable pub emit_quit : Kernel → ℕ → List ℕ → Program → Result Program
unfolding emit_all emit_fixup_call emit_print
emit_quit kernel verdict message p = do
  a ← emit_all p (error_counter p.num_counters)
  b ← emit_fixup_call a update_counters
  c ← if kernel.verbose then emit_print b message else ok b
  emit_all c (return_insns verdict)

-- A block of code behind a jump over it.
unfoldable pub jump_over : Insn → (Program → Result Program) → Program → Result Program
unfolding jmpctx_get jmpctx_cleanup
jump_over insn block p = do (jump, q) ← jmpctx_get p insn; r ← block q; jmpctx_cleanup r jump

-- The arguments of bpf_dynptr_from_xdp and bpf_dynptr_from_skb behind the first one.
abbrev pub dynptr_args : List Insn
dynptr_args = mov64_imm 2 0 ∷ mov64_reg 3 10 ∷ alu64_imm alu_add 3 (ctx_imm ctx_dynptr) ∷ []

-- _bf_stub_make_ctx_dynptr
unfoldable pub make_ctx_dynptr : Kernel → ℕ → ℕ → List ℕ → Program → Result Program
unfolding emit_all emit_kfunc_call emit_quit jump_over
make_ctx_dynptr kernel verdict arg_reg kfunc p = do
  a ← if arg_reg == 1 then ok p else emit p (mov64_imm 1 arg_reg)
  b ← emit_all a dynptr_args
  c ← emit_kfunc_call kernel b kfunc
  jump_over (jmp_imm jeq 0 0 0)
      (emit_quit kernel verdict (codes "failed to create a new dynamic pointer")) c

unfoldable pub make_ctx_xdp_dynptr : Kernel → ℕ → ℕ → Program → Result Program
unfolding make_ctx_dynptr
make_ctx_xdp_dynptr kernel verdict md_reg p =
    make_ctx_dynptr kernel verdict md_reg (codes "bpf_dynptr_from_xdp") p

unfoldable pub make_ctx_skb_dynptr : Kernel → ℕ → ℕ → Program → Result Program
unfolding make_ctx_dynptr
make_ctx_skb_dynptr kernel verdict skb_reg p =
    make_ctx_dynptr kernel verdict skb_reg (codes "bpf_dynptr_from_skb") p

-- The arguments of bpf_dynptr_slice for the L2 header.
abbrev pub l2_args : List Insn
l2_args =
    mov64_reg 1 10
    ∷ alu64_imm alu_add 1 (ctx_imm ctx_dynptr)
    ∷ mov64_imm 2 0
    ∷ mov64_reg 3 10
    ∷ alu64_imm alu_add 3 (ctx_imm ctx_l2)
    ∷ mov64_imm 4 14
    ∷ []

abbrev pub l2_stores : List Insn
l2_stores =
    stx_mem double_word 10 0 (ctx_off ctx_l2_hdr)
    ∷ ldx_mem half 7 0 12
    ∷ st_mem word 10 (ctx_off ctx_l3_offset) 14
    ∷ []

-- The arguments of bpf_dynptr_slice for a header at an offset that is in the context; its size is in r4.
abbrev pub slice_args : ℕ → ℕ → List Insn
slice_args offset buffer =
    mov64_reg 1 10
    ∷ alu64_imm alu_add 1 (ctx_imm ctx_dynptr)
    ∷ ldx_mem word 2 10 (ctx_off offset)
    ∷ mov64_reg 3 10
    ∷ alu64_imm alu_add 3 (ctx_imm buffer)
    ∷ []

abbrev pub store_hdr : ℕ → List Insn
store_hdr field = stx_mem double_word 10 0 (ctx_off field) ∷ []

-- bf_stub_parse_l2_ethhdr; a `struct ethhdr` has 14 bytes, the protocol is at 12.
unfoldable pub parse_l2_ethhdr : Kernel → ℕ → Program → Result Program
unfolding emit_all emit_kfunc_call emit_quit jump_over
parse_l2_ethhdr kernel verdict p = do
  a ← emit_all p l2_args
  b ← emit_kfunc_call kernel a (codes "bpf_dynptr_slice")
  c ←
      jump_over (jmp_imm jne 0 0 0)
        (emit_quit kernel verdict (codes "failed to create L2 dynamic pointer slice")) b
  emit_all c l2_stores

-- `bf_swich_get`
abbrev pub no_swich : ℕ → Swich
no_swich reg = record { reg = reg; options = []; default_opt = none }

-- The size of the L3 header, by the protocol in r7: 20 and 40 bytes.
abbrev pub l3_size_swich : Swich
l3_size_swich =
    swich_set_default
      (swich_add_option (swich_add_option (no_swich 7) (htobe16 eth_p_ip) (mov64_imm 4 20 ∷ []))
        (htobe16 eth_p_ipv6) (mov64_imm 4 40 ∷ []))
      (mov64_imm 7 0 ∷ [])

-- The offset and the protocol of the L4 header, which is at 9 in an IPv4 and at 6 in an IPv6 header.
abbrev pub l3_next_swich : Swich
l3_next_swich =
    swich_add_option
      (swich_add_option (no_swich 7) (htobe16 eth_p_ip) (
        ldx_mem byte 1 0 0
        ∷ alu64_imm alu_and 1 15
        ∷ alu64_imm alu_lsh 1 2
        ∷ ldx_mem word 2 10 (ctx_off ctx_l3_offset)
        ∷ alu64_reg alu_add 1 2
        ∷ stx_mem word 10 1 (ctx_off ctx_l4_offset)
        ∷ ldx_mem byte 8 0 9
        ∷ []))
      (htobe16 eth_p_ipv6)
      (mov64_imm 1 40
        ∷ ldx_mem word 2 10 (ctx_off ctx_l3_offset)
        ∷ alu64_reg alu_add 1 2
        ∷ stx_mem word 10 1 (ctx_off ctx_l4_offset)
        ∷ ldx_mem byte 8 0 6
        ∷ [])

-- What bf_stub_parse_l3_hdr jumps over for other protocols.
unfoldable pub l3_block : Kernel → ℕ → Program → Result Program
unfolding emit_all emit_kfunc_call emit_quit jump_over swich_generate
l3_block kernel verdict p = do
  a ← emit_all p (slice_args ctx_l3_offset ctx_l2)
  b ← emit_kfunc_call kernel a (codes "bpf_dynptr_slice")
  c ←
      jump_over (jmp_imm jne 0 0 0)
        (emit_quit kernel verdict (codes "failed to create L3 dynamic pointer slice")) b
  d ← emit_all c (store_hdr ctx_l3_hdr)
  swich_generate d l3_next_swich

-- bf_stub_parse_l3_hdr
unfoldable pub parse_l3_hdr : Kernel → ℕ → Program → Result Program
unfolding l3_block
parse_l3_hdr kernel verdict p = do
  a ← swich_generate p l3_size_swich
  jump_over (jmp_imm jeq 7 0 0) (l3_block kernel verdict) a

-- The size of the L4 header, by the protocol in r8.
abbrev pub l4_size_swich : Swich
l4_size_swich =
    swich_set_default
      (swich_add_option
        (swich_add_option
          (swich_add_option (swich_add_option (no_swich 8) ipproto_tcp (mov64_imm 4 20 ∷ []))
            ipproto_udp (mov64_imm 4 8 ∷ []))
          ipproto_icmp (mov64_imm 4 8 ∷ []))
        ipproto_icmpv6 (mov64_imm 4 8 ∷ []))
      (mov64_imm 8 0 ∷ [])

unfoldable pub l4_block : Kernel → ℕ → Program → Result Program
unfolding emit_all emit_kfunc_call emit_quit jump_over
l4_block kernel verdict p = do
  a ← emit_all p (slice_args ctx_l4_offset ctx_l4)
  b ← emit_kfunc_call kernel a (codes "bpf_dynptr_slice")
  c ←
      jump_over (jmp_imm jne 0 0 0)
        (emit_quit kernel verdict (codes "failed to create L4 dynamic pointer slice")) b
  emit_all c (store_hdr ctx_l4_hdr)

-- bf_stub_parse_l4_hdr
unfoldable pub parse_l4_hdr : Kernel → ℕ → Program → Result Program
unfolding l4_block
parse_l4_hdr kernel verdict p = do
  a ← swich_generate p l4_size_swich
  jump_over (jmp_imm jeq 8 0 0) (l4_block kernel verdict) a
