-- ===== src/Cgen/Matchers/Sets.antt =====
-- src/bpfilter/cgen/matcher/set.c: matchers that look a key up in a set.
use bpfilter.Prelude.{ℕ, List, [], ◌∷◌, ◌++◌, ◌==◌, if◌then◌else◌}
use bpfilter.Result.{Result, err, ◌>>=◌, einval}
use bpfilter.Matcher.{Matcher}
use bpfilter.Cgen.{
  Insn, Program, half, double_word, jne, jeq, alu_add, ldx_mem, stx_mem, jmp_imm, mov64_reg,
  mov64_imm, alu64_imm, emit_call,
}
use bpfilter.Cgen.Emit.{emit, emit_all, emit_load_set_fd}
use bpfilter.Cgen.Swich.{Swich, swich_init, swich_add_option, swich_set_default, swich_generate}
use bpfilter.Cgen.Context.{
  ctx_off, ctx_l3_hdr, ctx_l4_hdr, scr_off, scr_imm, htobe16, eth_p_ipv6, ipproto_tcp,
  func_map_lookup_elem, payload_uint, emit_jmp_next_rule,
}

abbrev pub type_set_srcip6port : ℕ
type_set_srcip6port = 15

abbrev pub type_set_srcip6 : ℕ
type_set_srcip6 = 16

-- Both options are for TCP.
unfoldable pub ip6port_swich : Swich
unfolding swich_init swich_add_option swich_set_default
ip6port_swich =
    let a = swich_add_option (swich_init 8) ipproto_tcp (ldx_mem half 3 6 0 ∷ []) in
    let b = swich_add_option a ipproto_tcp (ldx_mem half 3 6 0 ∷ []) in
    swich_set_default b (mov64_imm 3 0 ∷ [])

-- The source address is copied to the scratch area.
abbrev copy_address : List Insn
copy_address =
    ldx_mem double_word 6 10 (ctx_off ctx_l3_hdr)
    ∷ ldx_mem double_word 1 6 8
    ∷ ldx_mem double_word 2 6 16
    ∷ stx_mem double_word 10 1 (scr_off 0)
    ∷ stx_mem double_word 10 2 (scr_off 8)
    ∷ []

-- "Call bpf_map_lookup_elem(r1=map_fd, r2=key_addr)" and "Key not found? Jump to the next rule"
unfoldable pub generate_lookup : Program → ℕ → Result Program
generate_lookup p set_id = do
  a ← emit_load_set_fd p 1 set_id
  b ←
      emit_all a
        (mov64_reg 2 10 ∷ alu64_imm alu_add 2 (scr_imm 0) ∷ emit_call func_map_lookup_elem ∷ [])
  emit_jmp_next_rule b (jmp_imm jeq 0 0 0)

unfoldable pub generate_set_ip6port : Program → Matcher → Result Program
unfolding ip6port_swich generate_lookup
generate_set_ip6port p matcher = do
  set_id ← payload_uint matcher 0 4
  a ← emit_jmp_next_rule p (jmp_imm jne 7 (htobe16 eth_p_ipv6) 0)
  b ← emit a (ldx_mem double_word 6 10 (ctx_off ctx_l4_hdr))
  c ← swich_generate b ip6port_swich
  d ← emit_jmp_next_rule c (jmp_imm jeq 3 0 0)
  e ← emit_all d (copy_address ++ stx_mem half 10 3 (scr_off 16) ∷ [])
  generate_lookup e set_id

unfoldable pub generate_set_ip6 : Program → Matcher → Result Program
unfolding generate_lookup
generate_set_ip6 p matcher = do
  set_id ← payload_uint matcher 0 4
  a ← emit_jmp_next_rule p (jmp_imm jne 7 (htobe16 eth_p_ipv6) 0)
  b ← emit_all a copy_address
  generate_lookup b set_id

unfoldable pub generate_set : Program → Matcher → Result Program
unfolding generate_set_ip6port generate_set_ip6
generate_set p matcher =
    if matcher.type == type_set_srcip6port
    then generate_set_ip6port p matcher
    else if matcher.type == type_set_srcip6
    then generate_set_ip6 p matcher
    else err einval
