-- ===== src/Cgen/Matchers/Ip6.antt =====
-- src/bpfilter/cgen/matcher/ip6.c: matchers on an IPv6 address.
use Prim.Native.Nat.{bit_and}
use bpfilter.Prelude.{ℕ, ◌+◌, ◌||◌, List, [], ◌∷◌, ◌==◌, if◌then◌else◌, take, drop}
use bpfilter.Result.{Result, ok, err, ◌>>=◌, einval}
use bpfilter.Bytes.{of_le, load}
use bpfilter.Matcher.{Matcher}
use bpfilter.Cgen.{
  Insn, Program, double_word, jne, alu_and, alu_or, alu_lsh, ldx_mem, jmp_imm, jmp_reg, jmp_a,
  mov32_imm, alu64_reg, alu64_imm,
}
use bpfilter.Cgen.Emit.{emit, emit_all}
use bpfilter.Cgen.Jump.{jmpctx_get, jmpctx_cleanup}
use bpfilter.Cgen.Context.{ctx_off, ctx_l3_hdr, htobe16, eth_p_ipv6, op_eq, emit_jmp_next_rule}

abbrev pub type_ip6_saddr : ℕ
type_ip6_saddr = 8

abbrev pub type_ip6_daddr : ℕ
type_ip6_daddr = 9

-- `_bf_make32(x[i + 3], x[i + 2], x[i + 1], x[i])`
abbrev word_at : List ℕ → ℕ → ℕ
word_at bytes i = of_le (take 4 (drop i bytes))

-- The eight bytes at `i` are put into r3, by way of r4.
abbrev load_r3 : List ℕ → ℕ → List Insn
load_r3 bytes i =
    mov32_imm 3 (word_at bytes (i + 4))
    ∷ alu64_imm alu_lsh 3 32
    ∷ mov32_imm 4 (word_at bytes i)
    ∷ alu64_reg alu_or 3 4
    ∷ []

-- `addr[i] & mask[i]` for each byte
masked : List ℕ → List ℕ → List ℕ
masked [] mask = []
masked (a ∷ addr) [] = []
masked (a ∷ addr) (m ∷ mask) = bit_and a m ∷ masked addr mask

-- The packet's address is masked unless the last byte of the mask is full.
unfoldable pub generate_ip6_mask : Program → List ℕ → Result Program
generate_ip6_mask p mask = if word_at (drop 15 mask) 0 == 255 then ok p else do
  a ← emit_all p (load_r3 mask 0)
  b ← emit a (alu64_reg alu_and 1 3)
  c ← emit_all b (load_r3 mask 8)
  emit c (alu64_reg alu_and 2 3)

unfoldable pub generate_ip6_eq : Program → List ℕ → Result Program
generate_ip6_eq p bytes = do
  a ← emit_all p (load_r3 bytes 0)
  b ← emit_jmp_next_rule a (jmp_reg jne 1 3 0)
  c ← emit_all b (load_r3 bytes 8)
  emit_jmp_next_rule c (jmp_reg jne 2 3 0)

unfoldable pub generate_ip6_ne : Program → List ℕ → Result Program
generate_ip6_ne p bytes = do
  a ← emit_all p (load_r3 bytes 0)
  (j0, b) ← jmpctx_get a (jmp_reg jne 1 3 0)
  c ← emit_all b (load_r3 bytes 8)
  (j1, d) ← jmpctx_get c (jmp_reg jne 2 3 0)
  e ← emit_jmp_next_rule d (jmp_a 0)
  f ← jmpctx_cleanup e j0
  jmpctx_cleanup f j1

-- The bytes of the payload are all read, so they are loaded first.
unfoldable pub generate_ip6_addr : Program → Matcher → Result Program
unfolding generate_ip6_mask generate_ip6_eq generate_ip6_ne masked
generate_ip6_addr p matcher = do
  addr ← load matcher.payload 0 16
  mask ← load matcher.payload 16 16
  let offset = if matcher.type == type_ip6_saddr then 8 else 24
  a ← emit_all p (ldx_mem double_word 1 6 offset ∷ ldx_mem double_word 2 6 (offset + 8) ∷ [])
  b ← generate_ip6_mask a mask
  if matcher.op == op_eq
      then generate_ip6_eq b (masked addr mask)
      else generate_ip6_ne b (masked addr mask)

unfoldable pub generate_ip6 : Program → Matcher → Result Program
unfolding generate_ip6_addr
generate_ip6 p matcher = do
  q ← emit_jmp_next_rule p (jmp_imm jne 7 (htobe16 eth_p_ipv6) 0)
  r ← emit q (ldx_mem double_word 6 10 (ctx_off ctx_l3_hdr))
  if (matcher.type == type_ip6_saddr) || (matcher.type == type_ip6_daddr)
      then generate_ip6_addr r matcher
      else err einval
