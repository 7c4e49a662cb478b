-- ===== src/Cgen/Patch.antt =====
-- src/bpfilter/cgen/program.c: _bf_program_fixup, which resolves the fixups of one type when what
-- they wait for is known.
use bpfilter.Prelude.{
  ℕ, ◌+◌, ◌-◌, ◌%◌, ◌^◌, Bool, true, false, ◌||◌, List, [], ◌∷◌, ◌++◌, Option, none, some, ltb, leb,
  ◌==◌, length, get_elem?, set,
}
use bpfilter.Result.{Result, ok, err, fault, ◌>>=◌, ◌>>◌, assert, enoent}
use bpfilter.Cgen.{
  Insn, FixupType, jmp_next_rule, counters_map_fd, printer_map_fd, set_map_fd, func_call, Fixup,
  Program,
}
pub mod Jumps
pub mod SetMaps

-- `enum bf_fixup_insn`
pub data FixupInsn : Type 0 where
  insn_off : FixupInsn
  insn_imm : FixupInsn

-- `value < SHRT_MAX` of an int, which is its bit pattern of 32 bits here.
abbrev pub below_shrt_max : ℕ → Bool
below_shrt_max value = leb (2 ^ 31) value || ltb value (2 ^ 15 - 1)

-- _bf_program_fixup_insn
unfoldable pub fixup_insn : Insn → FixupInsn → ℕ → Result Insn
fixup_insn insn insn_off value = do
  assert (insn.off == 0)
  assert (below_shrt_max value)
  ok (record insn { off = value % 2 ^ 16 })
fixup_insn insn insn_imm value = do assert (insn.imm == 0); ok (record insn { imm = value })

-- The element of a list, or an access out of it.
abbrev pub at {ℓ} : {A : Type ℓ} → List A → ℕ → Result A
at xs i = elim (get_elem? xs i) [ none ↦ fault | some x ↦ ok x ]

-- `a - b - 1` of a size_t
abbrev size_sub_1 : ℕ → ℕ → ℕ
size_sub_1 a b = (a + 2 ^ 64 - b - 1) % 2 ^ 64

-- The switch of _bf_program_fixup: the field and its value.
unfoldable pub fixup_value : Program → FixupType → Fixup → Insn → Result (FixupInsn × ℕ)
fixup_value p jmp_next_rule fixup insn =
    ok (insn_off, size_sub_1 (length p.img) fixup.insn % 2 ^ 32)
fixup_value p counters_map_fd fixup insn = ok (insn_imm, p.cmap)
fixup_value p printer_map_fd fixup insn = ok (insn_imm, p.pmap)
fixup_value p set_map_fd fixup insn = elim (get_elem? p.sets insn.imm) [
  | none ↦ err enoent
  | some map ↦ ok (insn_imm, map)
]
fixup_value p func_call fixup insn = do
  location ← at p.functions_location fixup.attr
  assert (ltb (size_sub_1 location fixup.insn) (2 ^ 31 - 1))
  ok (insn_imm, size_sub_1 location fixup.insn)

unfoldable pub same_type : FixupType → FixupType → Bool
same_type jmp_next_rule jmp_next_rule = true
same_type counters_map_fd counters_map_fd = true
same_type printer_map_fd printer_map_fd = true
same_type set_map_fd set_map_fd = true
same_type func_call func_call = true
same_type _ _ = false

-- The body of the loop for a fixup of the type.
unfoldable pub resolve : Program → FixupType → Fixup → Result Program
unfolding fixup_insn fixup_value
resolve p type fixup = do
  insn ← at p.img fixup.insn
  (field, value) ← fixup_value p type fixup insn
  patched ← fixup_insn insn field value
  ok (record p { img = set p.img fixup.insn patched })

-- The loop: the fixups of other types stay in the list.
unfoldable pub resolve_all : Program → FixupType → List Fixup → Result (List Fixup × Program)
unfolding resolve same_type
resolve_all p type [] = ok ([], p)
resolve_all p type (fixup ∷ fixups) = elim (same_type type fixup.type) [
  | true ↦ do q ← resolve p type fixup; resolve_all q type fixups
  | false ↦ do (rest, q) ← resolve_all p type fixups; ok (fixup ∷ rest, q)
]

unfoldable pub program_fixup : Program → FixupType → Result Program
unfolding resolve_all
program_fixup p type = do (rest, q) ← resolve_all p type p.fixups; ok (record q { fixups = rest })
