-- ===== src/Cgen.antt =====
-- src/bpfilter/cgen/program.h, src/bpfilter/cgen/fixup.h and the instruction macros of
-- src/external/filter.h: what the generator of the BPF programs works on.
-- The fields `off` and `imm` of an instruction are signed; here they are their bit patterns of
-- 16 and 32 bits. An operation code is kept as the flags that it is put together from.
use bpfilter.Prelude.{ℕ, ◌+◌, ◌-◌, ◌^◌, List, [], ◌∷◌, Bool}
use bpfilter.Result.{Result}
use bpfilter.Printer.{Msg}
use bpfilter.Chain.{Chain}
pub mod Emit
pub mod Patch
pub mod Jump
pub mod Swich
pub mod Context
pub mod Matchers
pub mod Generate
pub mod Stub
pub mod Flavors
pub mod Image

-- BPF_B, BPF_H, BPF_W, BPF_DW
pub data Size : Type 0 where
  byte : Size
  half : Size
  word : Size
  double_word : Size

-- BPF_ADD, BPF_SUB, BPF_AND, BPF_OR, BPF_LSH
pub data AluOp : Type 0 where
  alu_add : AluOp
  alu_sub : AluOp
  alu_and : AluOp
  alu_or : AluOp
  alu_lsh : AluOp

-- BPF_JEQ, BPF_JNE, BPF_JLT, BPF_JGT
pub data JmpOp : Type 0 where
  jeq : JmpOp
  jne : JmpOp
  jlt : JmpOp
  jgt : JmpOp

-- The operation codes; `_x` is BPF_X, a register, and `_k` is BPF_K, an immediate.
pub data Code : Type 0 where
  ldx_mem_code : Size → Code
  stx_mem_code : Size → Code
  st_mem_code : Size → Code
  alu64_x : AluOp → Code
  alu64_k : AluOp → Code
  alu32_x : AluOp → Code
  alu32_k : AluOp → Code
  mov64_x : Code
  mov64_k : Code
  mov32_k : Code
  jmp_x : JmpOp → Code
  jmp_k : JmpOp → Code
  jmp_ja : Code
  jmp_call : Code
  jmp_exit : Code
  ld_dw_imm : Code
  zero_code : Code

-- `struct bpf_insn`
pub record Insn : Type 0 where
  pub code : Code
  pub dst_reg : ℕ
  pub src_reg : ℕ
  pub off : ℕ
  pub imm : ℕ

-- BPF_PSEUDO_MAP_FD, BPF_PSEUDO_CALL, BPF_PSEUDO_KFUNC_CALL, BPF_PSEUDO_MAP_VALUE
abbrev pub pseudo_map_fd : ℕ
pseudo_map_fd = 1

abbrev pub pseudo_call : ℕ
pseudo_call = 1

abbrev pub pseudo_kfunc_call : ℕ
pseudo_kfunc_call = 2

abbrev pub pseudo_map_value : ℕ
pseudo_map_value = 2

abbrev pub alu64_reg : AluOp → ℕ → ℕ → Insn
alu64_reg op dst src = record { code = alu64_x op; dst_reg = dst; src_reg = src; off = 0; imm = 0 }

abbrev pub alu32_reg : AluOp → ℕ → ℕ → Insn
alu32_reg op dst src = record { code = alu32_x op; dst_reg = dst; src_reg = src; off = 0; imm = 0 }

abbrev pub alu64_imm : AluOp → ℕ → ℕ → Insn
alu64_imm op dst imm = record { code = alu64_k op; dst_reg = dst; src_reg = 0; off = 0; imm = imm }

abbrev pub alu32_imm : AluOp → ℕ → ℕ → Insn
alu32_imm op dst imm = record { code = alu32_k op; dst_reg = dst; src_reg = 0; off = 0; imm = imm }

abbrev pub mov64_reg : ℕ → ℕ → Insn
mov64_reg dst src = record { code = mov64_x; dst_reg = dst; src_reg = src; off = 0; imm = 0 }

abbrev pub mov64_imm : ℕ → ℕ → Insn
mov64_imm dst imm = record { code = mov64_k; dst_reg = dst; src_reg = 0; off = 0; imm = imm }

abbrev pub mov32_imm : ℕ → ℕ → Insn
mov32_imm dst imm = record { code = mov32_k; dst_reg = dst; src_reg = 0; off = 0; imm = imm }

abbrev pub ldx_mem : Size → ℕ → ℕ → ℕ → Insn
ldx_mem size dst src off = record {
  code = ldx_mem_code size;
  dst_reg = dst;
  src_reg = src;
  off = off;
  imm = 0;
}

abbrev pub stx_mem : Size → ℕ → ℕ → ℕ → Insn
stx_mem size dst src off = record {
  code = stx_mem_code size;
  dst_reg = dst;
  src_reg = src;
  off = off;
  imm = 0;
}

abbrev pub st_mem : Size → ℕ → ℕ → ℕ → Insn
st_mem size dst off imm = record {
  code = st_mem_code size;
  dst_reg = dst;
  src_reg = 0;
  off = off;
  imm = imm;
}

abbrev pub jmp_reg : JmpOp → ℕ → ℕ → ℕ → Insn
jmp_reg op dst src off = record {
  code = jmp_x op;
  dst_reg = dst;
  src_reg = src;
  off = off;
  imm = 0;
}

abbrev pub jmp_imm : JmpOp → ℕ → ℕ → ℕ → Insn
jmp_imm op dst imm off = record {
  code = jmp_k op;
  dst_reg = dst;
  src_reg = 0;
  off = off;
  imm = imm;
}

abbrev pub jmp_a : ℕ → Insn
jmp_a off = record { code = jmp_ja; dst_reg = 0; src_reg = 0; off = off; imm = 0 }

abbrev pub call_rel : ℕ → Insn
call_rel target = record {
  code = jmp_call;
  dst_reg = 0;
  src_reg = pseudo_call;
  off = 0;
  imm = target;
}

abbrev pub emit_call : ℕ → Insn
emit_call func = record { code = jmp_call; dst_reg = 0; src_reg = 0; off = 0; imm = func }

-- The call of a kernel function by its BTF number.
abbrev pub kfunc_call : ℕ → Insn
kfunc_call id = record {
  code = jmp_call;
  dst_reg = 0;
  src_reg = pseudo_kfunc_call;
  off = 0;
  imm = id;
}

abbrev pub exit_insn : Insn
exit_insn = record { code = jmp_exit; dst_reg = 0; src_reg = 0; off = 0; imm = 0 }

-- BPF_LD_MAP_FD(reg, 0), the two instructions of it.
abbrev pub ld_map_fd : ℕ → Insn
ld_map_fd reg = record {
  code = ld_dw_imm;
  dst_reg = reg;
  src_reg = pseudo_map_fd;
  off = 0;
  imm = 0;
}

abbrev pub ld_map_fd_high : Insn
ld_map_fd_high = record { code = zero_code; dst_reg = 0; src_reg = 0; off = 0; imm = 0 }

-- `enum bf_fixup_type`
pub data FixupType : Type 0 where
  jmp_next_rule : FixupType
  counters_map_fd : FixupType
  printer_map_fd : FixupType
  set_map_fd : FixupType
  func_call : FixupType

-- `struct bf_fixup`; `attr` is the union of the set's index and the function's number.
pub record Fixup : Type 0 where
  pub type : FixupType
  pub insn : ℕ
  pub attr : ℕ

-- BF_FIXUP_FUNC_UPDATE_COUNTERS
abbrev pub update_counters : ℕ
update_counters = 0

-- `struct bf_program` as far as the generation uses it. `img` holds the `img_size` instructions that
-- are written, `img_cap` is the room that is allocated, and none is allocated while the pointer is
-- NULL. A map is its file descriptor.
pub record Program : Type 0 where
  pub img : List Insn
  pub img_cap : ℕ
  pub allocated : Bool
  pub fixups : List Fixup
  pub functions_location : List ℕ
  pub cmap : ℕ
  pub pmap : ℕ
  pub sets : List ℕ
  pub printer : List Msg
  pub num_counters : ℕ
