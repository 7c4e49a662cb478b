-- ===== src/Cgen/Context.antt =====
-- src/bpfilter/cgen/program.h: the layout of `struct bf_program_context`, the first stack frame of a
-- generated program, and what the code of the matchers has in common.
use bpfilter.Prelude.{ℕ, ◌+◌, ◌-◌, ◌*◌, ◌/◌, ◌%◌, ◌^◌}
use bpfilter.Result.{Result, ok, ◌>>=◌}
use bpfilter.Bytes.{load, of_le}
use bpfilter.Matcher.{Matcher}
use bpfilter.Cgen.{Insn, jmp_next_rule, Program}
use bpfilter.Cgen.Emit.{emit_fixup}

-- The offsets of the fields and the size of the struct, on a 64-bit host.
abbrev pub ctx_arg : ℕ
ctx_arg = 0

abbrev pub ctx_dynptr : ℕ
ctx_dynptr = 8

abbrev pub ctx_pkt_size : ℕ
ctx_pkt_size = 24

abbrev pub ctx_l3_offset : ℕ
ctx_l3_offset = 32

abbrev pub ctx_l4_offset : ℕ
ctx_l4_offset = 36

abbrev pub ctx_ifindex : ℕ
ctx_ifindex = 40

abbrev pub ctx_l2_hdr : ℕ
ctx_l2_hdr = 48

abbrev pub ctx_l3_hdr : ℕ
ctx_l3_hdr = 56

abbrev pub ctx_l4_hdr : ℕ
ctx_l4_hdr = 64

abbrev pub ctx_l2 : ℕ
ctx_l2 = 72

abbrev pub ctx_l4 : ℕ
ctx_l4 = 128

abbrev pub ctx_scratch : ℕ
ctx_scratch = 152

abbrev pub ctx_size : ℕ
ctx_size = 216

-- BF_PROG_CTX_OFF, a negative number, as an offset of 16 bits.
abbrev pub ctx_off : ℕ → ℕ
ctx_off field = 2 ^ 16 - ctx_size + field

-- BF_PROG_CTX_OFF as an immediate of 32 bits.
abbrev pub ctx_imm : ℕ → ℕ
ctx_imm field = 2 ^ 32 - ctx_size + field

-- BF_PROG_SCR_OFF as an offset of 16 bits, and as an immediate of 32 bits.
abbrev pub scr_off : ℕ → ℕ
scr_off offset = ctx_off ctx_scratch + offset

abbrev pub scr_imm : ℕ → ℕ
scr_imm offset = 2 ^ 32 - ctx_size + ctx_scratch + offset

-- `htobe16` on a little-endian host.
abbrev pub htobe16 : ℕ → ℕ
htobe16 x = x % 256 * 256 + x / 256

-- ETH_P_IP, ETH_P_IPV6, IPPROTO_TCP, IPPROTO_UDP, IPPROTO_ICMP, IPPROTO_ICMPV6, BPF_FUNC_map_lookup_elem
abbrev pub eth_p_ip : ℕ
eth_p_ip = 2048

abbrev pub eth_p_ipv6 : ℕ
eth_p_ipv6 = 34525

abbrev pub ipproto_tcp : ℕ
ipproto_tcp = 6

abbrev pub ipproto_udp : ℕ
ipproto_udp = 17

abbrev pub ipproto_icmp : ℕ
ipproto_icmp = 1

abbrev pub ipproto_icmpv6 : ℕ
ipproto_icmpv6 = 58

abbrev pub func_map_lookup_elem : ℕ
func_map_lookup_elem = 1

-- The operators of `enum bf_matcher_op`.
abbrev pub op_eq : ℕ
op_eq = 0

abbrev pub op_ne : ℕ
op_ne = 1

abbrev pub op_any : ℕ
op_any = 2

abbrev pub op_all : ℕ
op_all = 3

abbrev pub op_in : ℕ
op_in = 4

abbrev pub op_range : ℕ
op_range = 5

-- An unsigned integer of `n` bytes at the offset `at` of the payload.
unfoldable pub payload_uint : Matcher → ℕ → ℕ → Result ℕ
payload_uint matcher at n = do bytes ← load matcher.payload at n; ok (of_le bytes)

-- EMIT_FIXUP_JMP_NEXT_RULE
unfoldable pub emit_jmp_next_rule : Program → Insn → Result Program
emit_jmp_next_rule p insn = emit_fixup p jmp_next_rule insn 0
