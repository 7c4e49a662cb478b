-- ===== src/Cgen/Swich.antt =====
-- src/bpfilter/cgen/swich.c and src/bpfilter/cgen/swich.h: a switch over a register. The tests, the
-- default jump and the code of the options are emitted in turn, and the jumps are patched as soon
-- as the place that they go to is known.
use bpfilter.Prelude.{ℕ, ◌+◌, List, [], ◌∷◌, ◌++◌, Option, none, some}
use bpfilter.Result.{Result, ok, ◌>>=◌}
use bpfilter.Cgen.{Insn, jeq, Program, jmp_imm, jmp_a}
use bpfilter.Cgen.Emit.{emit_all}
use bpfilter.Cgen.Jump.{jmpctx_get, jmpctx_cleanup}
pub mod Layout
pub mod Generate

-- `struct bf_swich_option`; a jump context is the index of its instruction.
pub record SwichOption : Type 0 where
  pub imm : ℕ
  pub jmp : ℕ
  pub insns : List Insn

-- `struct bf_swich`; the program is an argument of the operations.
pub record Swich : Type 0 where
  pub reg : ℕ
  pub options : List SwichOption
  pub default_opt : Option SwichOption

-- _bf_swich_option_new; `jmp` is not initialised there, it is set before it is used.
abbrev option_new : ℕ → List Insn → SwichOption
option_new imm insns = record { imm = imm; jmp = 0; insns = insns }

unfoldable pub swich_init : ℕ → Swich
swich_init reg = record { reg = reg; options = []; default_opt = none }

unfoldable pub swich_add_option : Swich → ℕ → List Insn → Swich
swich_add_option swich imm insns = record swich {
  options = swich.options ++ option_new imm insns ∷ [];
}

-- A default option that is there is replaced.
unfoldable pub swich_set_default : Swich → List Insn → Swich
swich_set_default swich insns = record swich { default_opt = some (option_new 0 insns) }

-- "Match an option against the value and jump to the related bytecode"
unfoldable pub emit_tests : Program → ℕ → List SwichOption → Result (List SwichOption × Program)
emit_tests p reg [] = ok ([], p)
emit_tests p reg (opt ∷ opts) = do
  (jmp, q) ← jmpctx_get p (jmp_imm jeq reg opt.imm 0)
  (rest, r) ← emit_tests q reg opts
  ok (record opt { jmp = jmp } ∷ rest, r)

-- "Insert the default option if any"
unfoldable pub emit_default_jump :
    Program → Option SwichOption → Result (Option SwichOption × Program)
emit_default_jump p none = ok (none, p)
emit_default_jump p (some opt) = do
  (jmp, q) ← jmpctx_get p (jmp_a 0)
  ok (some (record opt { jmp = jmp }), q)

-- "Insert each option's bytecode"
unfoldable pub emit_bodies : Program → List SwichOption → Result (List SwichOption × Program)
emit_bodies p [] = ok ([], p)
emit_bodies p (opt ∷ opts) = do
  q ← jmpctx_cleanup p opt.jmp
  r ← emit_all q opt.insns
  (jmp, s) ← jmpctx_get r (jmp_a 0)
  (rest, t) ← emit_bodies s opts
  ok (record opt { jmp = jmp } ∷ rest, t)

-- "Insert the default instructions"
unfoldable pub emit_default : Program → Option SwichOption → Result Program
emit_default p none = ok p
emit_default p (some opt) = do q ← jmpctx_cleanup p opt.jmp; emit_all q opt.insns

-- The last loop of bf_swich_generate.
unfoldable pub close_options : Program → List SwichOption → Result Program
close_options p [] = ok p
close_options p (opt ∷ opts) = do q ← jmpctx_cleanup p opt.jmp; close_options q opts

-- bf_swich_generate: the program with the code of the switch.
unfoldable pub swich_generate : Program → Swich → Result Program
unfolding emit_tests emit_default_jump emit_bodies emit_default close_options
swich_generate p swich = do
  (tested, a) ← emit_tests p swich.reg swich.options
  (default_opt, b) ← emit_default_jump a swich.default_opt
  (options, c) ← emit_bodies b tested
  d ← emit_default c default_opt
  close_options d options
