-- ===== src/Cgen/Matchers/Meta.antt =====
-- src/bpfilter/cgen/matcher/meta.c: matchers on the interface, the protocols and the ports.
use bpfilter.Prelude.{ℕ, ◌||◌, [], ◌∷◌, ◌==◌, if◌then◌else◌}
use bpfilter.Result.{Result, err, ◌>>=◌, einval}
use bpfilter.Matcher.{Matcher}
use bpfilter.Cgen.{Program, half, double_word, jne, jeq, ldx_mem, jmp_imm, mov64_imm}
use bpfilter.Cgen.Emit.{emit}
use bpfilter.Cgen.Swich.{Swich, swich_init, swich_add_option, swich_set_default, swich_generate}
use bpfilter.Cgen.Context.{
  ctx_off, ctx_ifindex, ctx_l4_hdr, htobe16, ipproto_tcp, ipproto_udp, payload_uint,
  emit_jmp_next_rule,
}
use bpfilter.Cgen.Matchers.Transport.{generate_port_op}

abbrev pub type_meta_ifindex : ℕ
type_meta_ifindex = 0

abbrev pub type_meta_l3_proto : ℕ
type_meta_l3_proto = 1

abbrev pub type_meta_l4_proto : ℕ
type_meta_l4_proto = 2

abbrev pub type_meta_sport : ℕ
type_meta_sport = 3

abbrev pub type_meta_dport : ℕ
type_meta_dport = 4

-- Only 16 bits of the interface index are loaded.
unfoldable pub generate_meta_ifindex : Program → Matcher → Result Program
generate_meta_ifindex p matcher = do
  q ← emit p (ldx_mem half 1 10 (ctx_off ctx_ifindex))
  ifindex ← payload_uint matcher 0 4
  emit_jmp_next_rule q (jmp_imm jne 1 ifindex 0)

unfoldable pub generate_meta_l3_proto : Program → Matcher → Result Program
generate_meta_l3_proto p matcher = do
  proto ← payload_uint matcher 0 2
  emit_jmp_next_rule p (jmp_imm jne 7 (htobe16 proto) 0)

unfoldable pub generate_meta_l4_proto : Program → Matcher → Result Program
generate_meta_l4_proto p matcher = do
  proto ← payload_uint matcher 0 1
  emit_jmp_next_rule p (jmp_imm jne 8 proto 0)

-- The switch that loads the port of a TCP or UDP packet, or 0.
unfoldable pub meta_port_swich : Matcher → Swich
unfolding swich_init swich_add_option swich_set_default
meta_port_swich matcher =
    let offset = if matcher.type == type_meta_sport then 0 else 2 in
    let a = swich_add_option (swich_init 8) ipproto_tcp (ldx_mem half 1 6 offset ∷ []) in
    let b = swich_add_option a ipproto_udp (ldx_mem half 1 6 offset ∷ []) in
    swich_set_default b (mov64_imm 1 0 ∷ [])

unfoldable pub generate_meta_port : Program → Matcher → Result Program
unfolding meta_port_swich
generate_meta_port p matcher = do
  q ← emit p (ldx_mem double_word 6 10 (ctx_off ctx_l4_hdr))
  r ← swich_generate q (meta_port_swich matcher)
  s ← emit_jmp_next_rule r (jmp_imm jeq 1 0 0)
  generate_port_op s matcher

unfoldable pub generate_meta : Program → Matcher → Result Program
unfolding generate_meta_ifindex generate_meta_l3_proto generate_meta_l4_proto generate_meta_port
generate_meta p matcher =
    if matcher.type == type_meta_ifindex
    then generate_meta_ifindex p matcher
    else if matcher.type == type_meta_l3_proto
    then generate_meta_l3_proto p matcher
    else if matcher.type == type_meta_l4_proto
    then generate_meta_l4_proto p matcher
    else if (matcher.type == type_meta_sport) || (matcher.type == type_meta_dport)
    then generate_meta_port p matcher
    else err einval
