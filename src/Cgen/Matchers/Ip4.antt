-- ===== src/Cgen/Matchers/Ip4.antt =====
-- src/bpfilter/cgen/matcher/ip4.c: matchers on an IPv4 header.
use bpfilter.Prelude.{ℕ, ◌^◌, ◌||◌, ◌-◌, List, [], ◌∷◌, ◌==◌, if◌then◌else◌}
use bpfilter.Result.{Result, ok, err, ◌>>=◌, einval}
use bpfilter.Matcher.{Matcher}
use bpfilter.Set.{KeySet}
use bpfilter.Cgen.{
  Program, JmpOp, byte, word, double_word, jne, jeq, alu_add, alu_and, ldx_mem, stx_mem, jmp_imm,
  jmp_reg, mov32_imm, mov64_reg, alu32_reg, alu64_imm, emit_call,
}
use bpfilter.Cgen.Emit.{emit, emit_all, emit_load_set_fd}
use bpfilter.Cgen.Context.{
  ctx_off, ctx_l3_hdr, scr_off, scr_imm, htobe16, eth_p_ip, func_map_lookup_elem, op_eq, op_ne,
  op_in, payload_uint, emit_jmp_next_rule,
}
use bpfilter.Cgen.Patch.{at}

abbrev pub type_ip4_src_addr : ℕ
type_ip4_src_addr = 5

abbrev pub type_ip4_dst_addr : ℕ
type_ip4_dst_addr = 6

abbrev pub type_ip4_proto : ℕ
type_ip4_proto = 7

-- `offsetof(struct iphdr, saddr)` or that of `daddr`.
abbrev addr_offset : Matcher → ℕ
addr_offset matcher = if matcher.type == type_ip4_src_addr then 12 else 16

abbrev pub jump_op : Matcher → JmpOp
jump_op matcher = if matcher.op == op_eq then jne else jeq

unfoldable pub generate_ip4_addr_unique : Program → Matcher → Result Program
generate_ip4_addr_unique p matcher = do
  a ← emit p (ldx_mem word 1 6 (addr_offset matcher))
  addr ← payload_uint matcher 0 4
  b ← emit a (mov32_imm 2 addr)
  mask ← payload_uint matcher 4 4
  c ←
      if mask == 2 ^ 32 - 1
      then ok b
      else emit_all b (mov32_imm 3 mask ∷ alu32_reg alu_and 1 3 ∷ alu32_reg alu_and 2 3 ∷ [])
  emit_jmp_next_rule c (jmp_reg (jump_op matcher) 1 2 0)

-- A set that the chain does not have is a NULL pointer that is read.
unfoldable pub generate_ip4_addr_set : List KeySet → Program → Matcher → Result Program
generate_ip4_addr_set sets p matcher = do
  set_id ← payload_uint matcher 0 4
  set ← at sets set_id
  a ←
      if set.type == 0
      then emit_all p (ldx_mem word 2 6 (addr_offset matcher) ∷ stx_mem word 10 2 (scr_off 0) ∷ [])
      else err einval
  b ← emit_load_set_fd a 1 set_id
  c ←
      emit_all b
        (mov64_reg 2 10 ∷ alu64_imm alu_add 2 (scr_imm 0) ∷ emit_call func_map_lookup_elem ∷ [])
  emit_jmp_next_rule c (jmp_imm jeq 0 0 0)

unfoldable pub generate_ip4_addr : List KeySet → Program → Matcher → Result Program
unfolding generate_ip4_addr_unique generate_ip4_addr_set
generate_ip4_addr sets p matcher =
    if (matcher.op == op_eq) || (matcher.op == op_ne)
    then generate_ip4_addr_unique p matcher
    else if matcher.op == op_in
    then generate_ip4_addr_set sets p matcher
    else err einval

unfoldable pub generate_ip4_proto : Program → Matcher → Result Program
generate_ip4_proto p matcher = do
  proto ← payload_uint matcher 0 1
  q ← emit p (ldx_mem byte 1 6 9)
  emit_jmp_next_rule q (jmp_imm (jump_op matcher) 1 proto 0)

unfoldable pub generate_ip4 : List KeySet → Program → Matcher → Result Program
unfolding generate_ip4_addr generate_ip4_proto
generate_ip4 sets p matcher = do
  q ← emit_jmp_next_rule p (jmp_imm jne 7 (htobe16 eth_p_ip) 0)
  r ← emit q (ldx_mem double_word 6 10 (ctx_off ctx_l3_hdr))
  if (matcher.type == type_ip4_src_addr) || (matcher.type == type_ip4_dst_addr)
      then generate_ip4_addr sets r matcher
      else if matcher.type == type_ip4_proto
      then generate_ip4_proto r matcher
      else err einval
