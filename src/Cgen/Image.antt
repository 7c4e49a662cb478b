-- ===== src/Cgen/Image.antt =====
-- `struct bpf_insn` in memory: the operation codes of src/external/filter.h and the layout of an
-- instruction in eight bytes. The code of a program is loaded and stored in this form.
use bpfilter.Prelude.{ℕ, ◌+◌, ◌*◌, List, [], ◌∷◌, ◌++◌}
use bpfilter.Bytes.{le}
use bpfilter.Cgen.{
  Size, byte, half, word, double_word, AluOp, alu_add, alu_sub, alu_and, alu_or, alu_lsh, JmpOp,
  jeq, jne, jlt, jgt, Code, ldx_mem_code, stx_mem_code, st_mem_code, alu64_x, alu64_k, alu32_x,
  alu32_k, mov64_x, mov64_k, mov32_k, jmp_x, jmp_k, jmp_ja, jmp_call, jmp_exit, ld_dw_imm,
  zero_code, Insn,
}

-- BPF_W, BPF_H, BPF_B, BPF_DW
abbrev size_bits : Size → ℕ
size_bits word = 0
size_bits half = 8
size_bits byte = 16
size_bits double_word = 24

-- BPF_ADD, BPF_SUB, BPF_OR, BPF_AND, BPF_LSH
abbrev alu_bits : AluOp → ℕ
alu_bits alu_add = 0
alu_bits alu_sub = 16
alu_bits alu_or = 64
alu_bits alu_and = 80
alu_bits alu_lsh = 96

-- BPF_JEQ, BPF_JGT, BPF_JNE, BPF_JLT
abbrev jmp_bits : JmpOp → ℕ
jmp_bits jeq = 16
jmp_bits jgt = 32
jmp_bits jne = 80
jmp_bits jlt = 160

-- The class is in the lowest three bits, BPF_X is 8, and the mode BPF_MEM is 96.
unfoldable pub opcode : Code → ℕ
opcode (ldx_mem_code size) = 97 + size_bits size
opcode (stx_mem_code size) = 99 + size_bits size
opcode (st_mem_code size) = 98 + size_bits size
opcode (alu64_x op) = 15 + alu_bits op
opcode (alu64_k op) = 7 + alu_bits op
opcode (alu32_x op) = 12 + alu_bits op
opcode (alu32_k op) = 4 + alu_bits op
opcode mov64_x = 191
opcode mov64_k = 183
opcode mov32_k = 180
opcode (jmp_x op) = 13 + jmp_bits op
opcode (jmp_k op) = 5 + jmp_bits op
opcode jmp_ja = 5
opcode jmp_call = 133
opcode jmp_exit = 149
opcode ld_dw_imm = 24
opcode zero_code = 0

-- The registers share a byte.
unfoldable pub insn_bytes : Insn → List ℕ
unfolding opcode
insn_bytes insn =
    opcode insn.code ∷ (insn.dst_reg + 16 * insn.src_reg) ∷ le 2 insn.off ++ le 4 insn.imm

unfoldable pub img_bytes : List Insn → List ℕ
unfolding insn_bytes
img_bytes [] = []
img_bytes (insn ∷ insns) = insn_bytes insn ++ img_bytes insns
