-- ===== src/Examples/Codegen.antt =====
-- Generated instructions.
use bpfilter.Prelude.{ap, ◌≡◌, inl, inr, refl, true, false, [], ◌∷◌, some, length, get_elem?, arith}
use bpfilter.Result.{ok, ◌>>=◌, Gives}
use bpfilter.Rule.{Rule}
use bpfilter.Cgen.{
  Program, jmp_next_rule, counters_map_fd, set_map_fd, jne, jeq, ldx_mem, half, jmp_imm, jmp_a,
  mov64_imm, ld_map_fd, ld_map_fd_high, exit_insn,
}
use bpfilter.Cgen.Emit.{ensure_room, emit_all, put, emit, emit_fixup, emit_load_set_fd}
use bpfilter.Cgen.Emit.Room.{HasRoom, Emits, emit-Emits}
use bpfilter.Cgen.Swich.{Swich, swich_generate}
use bpfilter.Cgen.Swich.Layout.{switch_code, tests, bodies, bodies_size, default_jump, default_code}
use bpfilter.Cgen.Swich.Generate.{swich_generate-Emits}
use bpfilter.Cgen.Patch.{program_fixup, same_type}
use bpfilter.Cgen.Patch.Jumps.{IsOpen, IsPending, without_jumps, resolved, program_fixup-jumps}
use bpfilter.Cgen.Patch.SetMaps.{program_fixup-emit_load_set_fd}
use bpfilter.Cgen.Generate.{
  FlavorOps, generate_rules, generate_rule, generate_matchers, generate_matcher, generate_verdict,
}
use bpfilter.Cgen.Context.{payload_uint, emit_jmp_next_rule}
use bpfilter.Cgen.Matchers.Meta.{generate_meta, generate_meta_l4_proto}
use bpfilter.Bytes.{load, of_le}

-- A program with no instructions yet.
abbrev pub empty_program : Program
empty_program = record {
  img = [];
  img_cap = 0;
  allocated = false;
  fixups = [];
  functions_location = 0 ∷ [];
  cmap = 3;
  pmap = 4;
  sets = 7 ∷ 8 ∷ [];
  printer = [];
  num_counters = 0;
}

pub empty_room : HasRoom empty_program
unfolding HasRoom
empty_room = inl (refl, refl, refl)

emit-Emits_example : Gives (emit empty_program exit_insn) (Emits empty_program (exit_insn ∷ []) [])
emit-Emits_example = emit-Emits empty_program exit_insn empty_room (omega arith)

-- A switch over the transport protocol, with two options and a default.
abbrev port_swich : Swich
port_swich = record {
  reg = 8;
  options =
      record { imm = 6; jmp = 0; insns = ldx_mem half 1 6 2 ∷ [] }
      ∷ record { imm = 17; jmp = 0; insns = ldx_mem half 1 6 2 ∷ [] }
      ∷ [];
  default_opt = some (record { imm = 0; jmp = 0; insns = mov64_imm 1 0 ∷ [] });
}

port_swich_code :
    switch_code port_swich
    ≡ jmp_imm jeq 8 6 2
      ∷ jmp_imm jeq 8 17 3
      ∷ jmp_a 4
      ∷ ldx_mem half 1 6 2
      ∷ jmp_a 3
      ∷ ldx_mem half 1 6 2
      ∷ jmp_a 1
      ∷ mov64_imm 1 0
      ∷ []
unfolding switch_code tests bodies bodies_size default_jump default_code
port_swich_code = refl

swich_generate-Emits_example :
    Gives
      (swich_generate empty_program port_swich)
      (Emits empty_program (switch_code port_swich) [])
swich_generate-Emits_example =
    swich_generate-Emits empty_program port_swich empty_room
      (omega (arith, ap length port_swich_code))

-- Two jumps to the next rule and a map that waits.
abbrev waiting_program : Program
waiting_program = record empty_program {
  img = jmp_imm jne 8 6 0 ∷ ld_map_fd 1 ∷ ld_map_fd_high ∷ jmp_imm jne 1 80 0 ∷ exit_insn ∷ [];
  img_cap = 64;
  allocated = true;
  fixups =
      record { type = jmp_next_rule; insn = 0; attr = 0 }
      ∷ record { type = counters_map_fd; insn = 1; attr = 0 }
      ∷ record { type = jmp_next_rule; insn = 3; attr = 0 }
      ∷ [];
}

first-IsOpen : IsOpen waiting_program.img 0
first-IsOpen = record {
  insn = jmp_imm jne 8 6 0;
  there = refl;
  unset = refl;
  inside = omega arith;
  near = omega arith;
}

second-IsOpen : IsOpen waiting_program.img 3
second-IsOpen = record {
  insn = jmp_imm jne 1 80 0;
  there = refl;
  unset = refl;
  inside = omega arith;
  near = omega arith;
}

waiting-IsPending : IsPending waiting_program.img waiting_program.fixups
unfolding IsPending same_type
waiting-IsPending = (
  inr first-IsOpen,
  (λ e. absurd (omega arith), (λ e. absurd (omega arith), tt)),
  (inl refl, (λ e. absurd (omega arith), tt), (inr second-IsOpen, tt, tt)),
)

program_fixup-jumps_example : Gives (program_fixup waiting_program jmp_next_rule) (λ q.
    (q ≡ record waiting_program { img = q.img; fixups = without_jumps waiting_program.fixups })
    × (length q.img ≡ 5)
    × (get_elem? q.img 3 ≡ some (resolved waiting_program.fixups 5 3 (jmp_imm jne 1 80 0))))
program_fixup-jumps_example =
    program_fixup-jumps waiting_program 3 (jmp_imm jne 1 80 0) waiting-IsPending refl

program_fixup-emit_load_set_fd_example :
    Gives
      (emit_load_set_fd empty_program 1 1 >>= λ q. program_fixup q set_map_fd)
      (λ q. (q.img ≡ record (ld_map_fd 1) { imm = 7 } ∷ ld_map_fd_high ∷ []) × (q.fixups ≡ []))
program_fixup-emit_load_set_fd_example =
    program_fixup-emit_load_set_fd empty_program 1 1 7 (8 ∷ []) empty_room (omega arith) refl refl

-- The flavor's part is left out.
abbrev plain_ops : FlavorOps
plain_ops = record {
  gen_inline_prologue = λ p. ok p;
  gen_inline_epilogue = λ p. ok p;
  get_verdict = λ verdict. ok verdict;
}

-- Drop what is TCP.
abbrev tcp_rule : Rule
tcp_rule = record {
  index = 0;
  matchers = record { type = 2; op = 0; len = 17; payload = 6 ∷ [] } ∷ [];
  counters = false;
  verdict = 1;
}

abbrev tcp_program : Program
tcp_program = record empty_program {
  img = jmp_imm jne 8 6 2 ∷ mov64_imm 0 1 ∷ exit_insn ∷ [];
  img_cap = 64;
  allocated = true;
}

tcp_generated : generate_rules plain_ops [] empty_program (tcp_rule ∷ []) ≡ ok tcp_program
unfolding generate_rules generate_rule generate_matchers generate_matcher generate_verdict
    program_fixup generate_meta generate_meta_l4_proto payload_uint load of_le emit_jmp_next_rule
    emit_fixup ensure_room emit_all put
tcp_generated = refl
