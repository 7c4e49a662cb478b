-- ===== src/Cgen/Emit.antt =====
-- src/bpfilter/cgen/program.c: bf_program_emit and what it stands on, the image that grows.
use Prim.Native.Nat.{bit_or}
use bpfilter.Prelude.{
  ℕ, ◌+◌, ◌-◌, ◌*◌, ◌/◌, ◌%◌, ◌^◌, Bool, true, false, List, [], ◌∷◌, ◌++◌, ltb, ◌==◌, length,
  if◌then◌else◌,
}
use bpfilter.Result.{Result, ok, fault, ◌>>=◌}
use bpfilter.Cgen.{
  Insn, FixupType, func_call, Fixup, Program, call_rel, ld_map_fd, ld_map_fd_high, counters_map_fd,
  set_map_fd, printer_map_fd, pseudo_map_value, mov64_imm, emit_call,
}
use bpfilter.Printer.{Msg, add_msg}
pub mod Room

-- `value |= value >> k` of a size_t
abbrev or_shift : ℕ → ℕ → ℕ
or_shift value k = bit_or value (value / 2 ^ k)

-- _bf_round_next_power_of_2, with the wrap-around of `value--` and `++value` at 64 bits.
unfoldable pub round_next_power_of_2 : ℕ → ℕ
round_next_power_of_2 value =
    let a = (value + (2 ^ 64 - 1)) % 2 ^ 64 in
    let b = or_shift a 1 in
    let c = or_shift b 2 in
    let d = or_shift c 4 in let e = or_shift d 8 in let f = or_shift e 16 in (f + 1) % 2 ^ 64

-- _BF_PROGRAM_DEFAULT_IMG_SIZE
abbrev pub default_img_size : ℕ
default_img_size = 64

-- bf_program_grow_img; the reallocation keeps what is written.
unfoldable pub grow_img : Program → Program
grow_img p = record p {
  img_cap =
      if p.allocated then round_next_power_of_2 (p.img_cap * 2 % 2 ^ 64) else default_img_size;
  allocated = true;
}

-- `if (program->img_size == program->img_cap) bf_program_grow_img(program)`
unfoldable pub ensure_room : Program → Program
unfolding grow_img
ensure_room p = if length p.img == p.img_cap then grow_img p else p

-- `program->img[program->img_size++] = insn`, which has to be inside of what is allocated.
unfoldable pub put : Program → Insn → Result Program
put p insn =
    if ltb (length p.img) p.img_cap then ok (record p { img = p.img ++ insn ∷ [] }) else fault

unfoldable pub emit : Program → Insn → Result Program
unfolding ensure_room put
emit p insn = put (ensure_room p) insn

-- A sequence of EMIT.
unfoldable pub emit_all : Program → List Insn → Result Program
unfolding emit
emit_all p [] = ok p
emit_all p (insn ∷ insns) = do q ← emit p insn; emit_all q insns

abbrev add_fixup : Program → FixupType → ℕ → Program
add_fixup p type attr = record p {
  fixups = p.fixups ++ record { type = type; insn = length p.img; attr = attr } ∷ [];
}

-- A NULL `attr` leaves the zero of `calloc`.
unfoldable pub emit_fixup : Program → FixupType → Insn → ℕ → Result Program
unfolding emit
emit_fixup p type insn attr = emit (add_fixup (ensure_room p) type attr) insn

unfoldable pub emit_fixup_call : Program → ℕ → Result Program
unfolding emit
emit_fixup_call p function = emit (add_fixup (ensure_room p) func_call function) (call_rel 0)

-- EMIT_LOAD_COUNTERS_FD_FIXUP
unfoldable pub emit_load_counters_fd : Program → ℕ → Result Program
unfolding emit_fixup
emit_load_counters_fd p reg = do
  q ← emit_fixup p counters_map_fd (ld_map_fd reg) 0
  emit q ld_map_fd_high

-- EMIT_LOAD_SET_FD_FIXUP
unfoldable pub emit_load_set_fd : Program → ℕ → ℕ → Result Program
unfolding emit_fixup
emit_load_set_fd p reg index = do
  q ← emit_fixup p set_map_fd (ld_map_fd reg) index
  emit q ld_map_fd_high

-- BPF_FUNC_trace_printk
abbrev func_trace_printk : ℕ
func_trace_printk = 6

-- EMIT_PRINT
unfoldable pub emit_print : Program → List ℕ → Result Program
unfolding emit_fixup
emit_print p text =
    let (msg, printer) = add_msg p.printer text in
    do
      a ←
          emit_fixup (record p { printer = printer }) printer_map_fd
            (record (ld_map_fd 1) { src_reg = pseudo_map_value }) 0
      b ← emit a (record ld_map_fd_high { imm = msg.offset % 2 ^ 32 })
      c ← emit b (mov64_imm 2 (msg.len % 2 ^ 32))
      emit c (emit_call func_trace_printk)
