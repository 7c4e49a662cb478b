-- ===== src/Cgen/Generate.antt =====
-- src/bpfilter/cgen/program.c: the generation of a program from its chain.
use bpfilter.Prelude.{
  ℕ, ◌+◌, ◌%◌, ◌^◌, Bool, not, List, [], ◌∷◌, ltb, ◌==◌, if◌then◌else◌, length, set,
}
use bpfilter.Result.{Result, ok, err, fault, ◌>>=◌, ◌>>◌, assert, einval}
use bpfilter.Matcher.{Matcher}
use bpfilter.Rule.{Rule}
use bpfilter.Set.{KeySet}
use bpfilter.Chain.{Chain}
use bpfilter.Cgen.{
  Program, Fixup, jmp_next_rule, func_call, update_counters, word, double_word, jne, alu_add,
  ldx_mem, stx_mem, jmp_imm, mov32_imm, mov64_imm, mov64_reg, alu64_imm, alu64_reg, emit_call,
  exit_insn,
}
use bpfilter.Cgen.Emit.{emit_all, emit_fixup_call, emit_load_counters_fd, emit_print}
use bpfilter.Cgen.Jump.{jmpctx_get, jmpctx_cleanup}
use bpfilter.Cgen.Patch.{program_fixup, same_type, at}
use bpfilter.Cgen.Context.{ctx_off, ctx_arg, ctx_pkt_size, scr_off, scr_imm, func_map_lookup_elem}
use bpfilter.Cgen.Matchers.Meta.{generate_meta}
use bpfilter.Cgen.Matchers.Ip4.{generate_ip4}
use bpfilter.Cgen.Matchers.Ip6.{generate_ip6}
use bpfilter.Cgen.Matchers.Transport.{generate_tcp, generate_udp}
use bpfilter.Cgen.Matchers.Sets.{generate_set}

-- `struct bf_flavor_ops`, as far as the generation calls it. A verdict is an immediate of 32 bits.
pub record FlavorOps : Type 0 where
  pub gen_inline_prologue : Program → Result Program
  pub gen_inline_epilogue : Program → Result Program
  pub get_verdict : ℕ → Result ℕ

-- The switch of _bf_program_generate_rule over the types of `enum bf_matcher_type`, by their order.
unfoldable pub generate_matcher : List KeySet → Program → Matcher → Result Program
generate_matcher sets p matcher =
    if ltb matcher.type 5
    then generate_meta p matcher
    else if ltb matcher.type 8
    then generate_ip4 sets p matcher
    else if ltb matcher.type 10
    then generate_ip6 p matcher
    else if ltb matcher.type 13
    then generate_tcp p matcher
    else if ltb matcher.type 15
    then generate_udp p matcher
    else if ltb matcher.type 17
    then generate_set p matcher
    else err einval

unfoldable pub generate_matchers : List KeySet → Program → List Matcher → Result Program
unfolding generate_matcher
generate_matchers sets p [] = ok p
generate_matchers sets p (matcher ∷ matchers) = do
  q ← generate_matcher sets p matcher
  generate_matchers sets q matchers

-- `if (rule->counters)`, and the counters of the policy.
unfoldable pub generate_counters : Program → ℕ → Result Program
generate_counters p index = do
  q ←
      emit_all p
        (mov32_imm 1 (index % 2 ^ 32) ∷ ldx_mem double_word 2 10 (ctx_off ctx_pkt_size) ∷ [])
  emit_fixup_call q update_counters

-- The switch over the verdict of the rule: BF_VERDICT_CONTINUE adds nothing.
unfoldable pub generate_verdict : FlavorOps → Program → ℕ → Result Program
generate_verdict ops p verdict =
    if ltb verdict 2
    then (ops.get_verdict verdict >>= λ code. emit_all p (mov64_imm 0 code ∷ exit_insn ∷ []))
    else if verdict == 2
    then ok p
    else fault

unfoldable pub generate_rule : FlavorOps → List KeySet → Program → Rule → Result Program
unfolding generate_matchers generate_counters generate_verdict
generate_rule ops sets p rule = do
  a ← generate_matchers sets p rule.matchers
  b ← if rule.counters then generate_counters a rule.index else ok a
  c ← generate_verdict ops b rule.verdict
  program_fixup c jmp_next_rule

unfoldable pub generate_rules : FlavorOps → List KeySet → Program → List Rule → Result Program
unfolding generate_rule
generate_rules ops sets p [] = ok p
generate_rules ops sets p (rule ∷ rules) = do
  q ← generate_rule ops sets p rule
  generate_rules ops sets q rules

-- "failed to fetch the rule's counters"
abbrev counters_message : List ℕ
counters_message =
    b'f' ∷ b'a' ∷ b'i' ∷ b'l' ∷ b'e' ∷ b'd' ∷ b' ' ∷ b't' ∷ b'o' ∷ b' ' ∷ b'f' ∷ b'e' ∷ b't' ∷ b'c'
    ∷ b'h' ∷ b' ' ∷ b't' ∷ b'h' ∷ b'e' ∷ b' ' ∷ b'r' ∷ b'u' ∷ b'l' ∷ b'e' ∷ 39 ∷ b's' ∷ b' ' ∷ b'c'
    ∷ b'o' ∷ b'u' ∷ b'n' ∷ b't' ∷ b'e' ∷ b'r' ∷ b's' ∷ []

-- _bf_program_generate_update_counters; `verbose` is `bf_opts_is_verbose(BF_VERBOSE_BPF)`.
unfoldable pub generate_update_counters : Bool → Program → Result Program
generate_update_counters verbose p = do
  a ← emit_all p (stx_mem word 10 1 (scr_off 0) ∷ stx_mem double_word 10 2 (scr_off 8) ∷ [])
  b ← emit_load_counters_fd a 1
  c ←
      emit_all b
        (mov64_reg 2 10 ∷ alu64_imm alu_add 2 (scr_imm 0) ∷ emit_call func_map_lookup_elem ∷ [])
  (jump, d) ← jmpctx_get c (jmp_imm jne 0 0 0)
  e ← if verbose then emit_print d counters_message else ok d
  f ← emit_all e (mov32_imm 0 1 ∷ exit_insn ∷ [])
  g ← jmpctx_cleanup f jump
  emit_all g (
      ldx_mem double_word 1 0 0
      ∷ alu64_imm alu_add 1 1
      ∷ stx_mem double_word 0 1 0
      ∷ ldx_mem double_word 1 0 8
      ∷ ldx_mem double_word 2 10 (scr_off 8)
      ∷ alu64_reg alu_add 1 2
      ∷ stx_mem double_word 0 1 8
      ∷ mov32_imm 0 0
      ∷ exit_insn
      ∷ [])

-- The body of the loop of _bf_program_generate_functions for a call: the function is generated once.
unfoldable pub generate_function : Bool → Program → ℕ → Result Program
unfolding generate_update_counters
generate_function verbose p function = do
  assert (function == update_counters)
  location ← at p.functions_location function
  if not (location == 0) then ok p else do
    q ← generate_update_counters verbose p
    ok (record q { functions_location = set q.functions_location function (length p.img % 2 ^ 32) })

-- The loop over the fixups. Those that it adds are of other types, which it passes over.
unfoldable pub generate_functions : Bool → Program → List Fixup → Result Program
unfolding generate_function
generate_functions verbose p [] = ok p
generate_functions verbose p (fixup ∷ fixups) = do
  q ← if same_type func_call fixup.type then generate_function verbose p fixup.attr else ok p
  generate_functions verbose q fixups

-- bf_program_generate
unfoldable pub program_generate : FlavorOps → Bool → Program → Chain → Result Program
unfolding generate_rules generate_counters generate_functions
program_generate ops verbose p chain = do
  a ←
      emit_all (record p { num_counters = length chain.rules + 2 })
        (stx_mem double_word 10 1 (ctx_off ctx_arg) ∷ mov64_imm 7 0 ∷ mov64_imm 8 0 ∷ [])
  b ← ops.gen_inline_prologue a
  c ← generate_rules ops chain.sets b chain.rules
  d ← ops.gen_inline_epilogue c
  e ← generate_counters d (length chain.rules)
  code ← ops.get_verdict chain.policy
  f ← emit_all e (mov64_imm 0 code ∷ exit_insn ∷ [])
  g ← generate_functions verbose f f.fixups
  program_fixup g func_call
