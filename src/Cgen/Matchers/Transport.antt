-- ===== src/Cgen/Matchers/Transport.antt =====
-- src/bpfilter/cgen/matcher/tcp.c and src/bpfilter/cgen/matcher/udp.c. The two files do the same
-- for ports.
use bpfilter.Prelude.{ℕ, ◌||◌, ◌==◌, if◌then◌else◌}
use bpfilter.Result.{Result, err, ◌>>=◌, einval}
use bpfilter.Matcher.{Matcher}
use bpfilter.Cgen.{
  Program, half, byte, double_word, jne, jeq, jlt, jgt, alu_and, ldx_mem, jmp_imm, alu32_imm,
}
use bpfilter.Cgen.Emit.{emit}
use bpfilter.Cgen.Context.{
  ctx_off, ctx_l4_hdr, htobe16, ipproto_tcp, ipproto_udp, op_eq, op_ne, op_any, op_all, op_range,
  payload_uint, emit_jmp_next_rule,
}

-- The switch over the operator of a port, which _bf_matcher_generate_meta_port has too.
unfoldable pub generate_port_op : Program → Matcher → Result Program
generate_port_op p matcher =
    if matcher.op == op_eq
    then (payload_uint matcher 0 2 >>= λ port.
        emit_jmp_next_rule p (jmp_imm jne 1 (htobe16 port) 0))
    else if matcher.op == op_ne
    then (payload_uint matcher 0 2 >>= λ port.
        emit_jmp_next_rule p (jmp_imm jeq 1 (htobe16 port) 0))
    else if matcher.op == op_range
    then (payload_uint matcher 0 2 >>= λ first.
        emit_jmp_next_rule p (jmp_imm jlt 1 (htobe16 first) 0) >>= λ q.
        payload_uint matcher 2 2 >>= λ last. emit_jmp_next_rule q (jmp_imm jgt 1 (htobe16 last) 0))
    else err einval

-- BF_MATCHER_TCP_SPORT, BF_MATCHER_TCP_DPORT, BF_MATCHER_TCP_FLAGS
abbrev pub type_tcp_sport : ℕ
type_tcp_sport = 10

abbrev pub type_tcp_dport : ℕ
type_tcp_dport = 11

abbrev pub type_tcp_flags : ℕ
type_tcp_flags = 12

-- BF_MATCHER_UDP_SPORT, BF_MATCHER_UDP_DPORT
abbrev pub type_udp_sport : ℕ
type_udp_sport = 13

abbrev pub type_udp_dport : ℕ
type_udp_dport = 14

unfoldable pub generate_tcp_port : Program → Matcher → Result Program
unfolding generate_port_op
generate_tcp_port p matcher = do
  q ← emit p (ldx_mem half 1 6 (if matcher.type == type_tcp_sport then 0 else 2))
  generate_port_op q matcher

unfoldable pub generate_tcp_flags : Program → Matcher → Result Program
generate_tcp_flags p matcher = do
  flags ← payload_uint matcher 0 1
  q ← emit p (ldx_mem byte 1 6 13)
  if matcher.op == op_eq
      then emit_jmp_next_rule q (jmp_imm jne 1 flags 0)
      else if matcher.op == op_ne
      then emit_jmp_next_rule q (jmp_imm jeq 1 flags 0)
      else if matcher.op == op_any
      then (emit q (alu32_imm alu_and 1 flags) >>= λ r. emit_jmp_next_rule r (jmp_imm jeq 1 0 0))
      else if matcher.op == op_all
      then (emit q (alu32_imm alu_and 1 flags) >>= λ r.
          emit_jmp_next_rule r (jmp_imm jne 1 flags 0))
      else err einval

unfoldable pub generate_tcp : Program → Matcher → Result Program
unfolding generate_tcp_port generate_tcp_flags
generate_tcp p matcher = do
  q ← emit_jmp_next_rule p (jmp_imm jne 8 ipproto_tcp 0)
  r ← emit q (ldx_mem double_word 6 10 (ctx_off ctx_l4_hdr))
  if (matcher.type == type_tcp_sport) || (matcher.type == type_tcp_dport)
      then generate_tcp_port r matcher
      else if matcher.type == type_tcp_flags
      then generate_tcp_flags r matcher
      else err einval

unfoldable pub generate_udp_port : Program → Matcher → Result Program
unfolding generate_port_op
generate_udp_port p matcher = do
  q ← emit p (ldx_mem half 1 6 (if matcher.type == type_udp_sport then 0 else 2))
  generate_port_op q matcher

unfoldable pub generate_udp : Program → Matcher → Result Program
unfolding generate_udp_port
generate_udp p matcher = do
  q ← emit_jmp_next_rule p (jmp_imm jne 8 ipproto_udp 0)
  r ← emit q (ldx_mem double_word 6 10 (ctx_off ctx_l4_hdr))
  if (matcher.type == type_udp_sport) || (matcher.type == type_udp_dport)
      then generate_udp_port r matcher
      else err einval
