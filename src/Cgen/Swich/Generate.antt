-- ===== src/Cgen/Swich/Generate.antt =====
-- The run of `bf_swich_generate` on a program.
use bpfilter.Prelude.{
  ℕ, ◌+◌, ◌%◌, ◌^◌, ◌<◌, ◌≤◌, ◌≡◌, refl, sym, subst, List, [], ◌∷◌, ◌++◌, Option, none, some,
  length, arith, length-append, append_assoc, append-nil,
}
use bpfilter.Result.{Gives, Gives-bind}
use bpfilter.Cgen.{Program, jmp_a}
use bpfilter.Cgen.Emit.Room.{HasRoom, Emits, Emits-none}
use bpfilter.Cgen.Jump.{cleanup-Emits, jmpctx_get-behind, emit_all-behind}
use bpfilter.Cgen.Swich.{Swich, SwichOption, emit_default_jump, emit_default, swich_generate}
use bpfilter.Cgen.Swich.Layout.{
  tests, bodies, bodies_size, raw_tests, raw_bodies, default_jump, default_code, switch_code,
  regroup, length-tests, length-raw_tests, length-raw_bodies, emit_tests-Emits, emit_bodies-Emits,
  close_options-Emits,
}

module _ (p : Program) (reg : ℕ) (opts : List SwichOption) (room : HasRoom p) where
  -- A switch with no default option.
  generate_plain :
      length p.img + length opts + bodies_size opts ≤ 2 ^ 40
      → Gives
          (swich_generate p (record { reg = reg; options = opts; default_opt = none }))
          (Emits p (tests reg opts 0 ++ ([] ++ (bodies opts 0 ++ []))) [])
  unfolding swich_generate emit_default_jump emit_default
  generate_plain fits =
      let n = length-tests reg opts 0 in
      Gives-bind
        (emit_tests-Emits p [] p [] reg (length p.img) opts (Emits-none p room) (omega arith)
          (omega (arith, fits)))
        λ (tested, q) (jmps, one).
          Gives-bind
            (rw (← jmps) at (
              emit_bodies-Emits p [] q [] [] reg (length p.img) (length p.img + length opts) opts
                (regroup p [] q (sym (append-nil _)) one) (omega arith) (omega arith)
                (omega (arith, fits))))
            λ (options, r) (places, two). rw places (
              close_options-Emits p [] r (tests reg opts 0) [] (length p.img + length opts) opts
                (regroup p [] r (simp append-nil) two) (omega (arith, n)))

  -- The jump to the default code, before and after it is patched.
  default_jump-Emits :
      (q : Program) (d : SwichOption)
      → Emits p (raw_tests reg opts) [] q
      → length p.img + length opts < 2 ^ 40
      → Gives (emit_default_jump q (some d)) (λ x.
        (x.0 ≡ some (record d { jmp = length p.img + length opts }))
        × Emits p (raw_tests reg opts ++ jmp_a 0 ∷ []) [] x.1)
  unfolding emit_default_jump
  default_jump-Emits q d s fits =
      let n = length-raw_tests reg opts in
      Gives-bind
        (jmpctx_get-behind p q (raw_tests reg opts) (jmp_a 0) [] s (omega (arith, fits, n)))
        λ (at, r) (place, one). ((some (record d { jmp = at }), r), refl, (rw (place, n) refl, one))

  emit_default-Emits :
      (q : Program) (d : SwichOption)
      → Emits p (tests reg opts 1 ++ jmp_a 0 ∷ raw_bodies opts) [] q
      → length p.img + length opts + 1 + bodies_size opts + length d.insns ≤ 2 ^ 40
      → Gives (emit_default q (some (record d { jmp = length p.img + length opts }))) (
          Emits p
            ((tests reg opts 1 ++ jmp_a (bodies_size opts % 2 ^ 16) ∷ [])
              ++ (raw_bodies opts ++ d.insns))
            [])
  unfolding emit_default
  emit_default-Emits q d s fits =
      let n = length-tests reg opts 1 in
      let size = length-raw_bodies opts in
      let jump = jmp_a (bodies_size opts % 2 ^ 16) in
      let done = tests reg opts 1 ++ jump ∷ raw_bodies opts in
      let far : length done ≡ length opts + 1 + bodies_size opts =
        omega (arith, n, size, length-append (tests reg opts 1) (jump ∷ raw_bodies opts)) in
      Gives-bind
        (rw (n, size) at (cleanup-Emits p q (tests reg opts 1) (raw_bodies opts) (jmp_a 0) [] s))
        λ r one.
          let (t, e, two) = emit_all-behind p r done d.insns [] one (omega (arith, far, fits)) in
          (t, e, regroup p [] t (simp append_assoc) two)

  -- A switch with one.
  generate_default :
      (d : SwichOption)
      → length p.img + length opts + 1 + bodies_size opts + length d.insns ≤ 2 ^ 40
      → Gives (swich_generate p (record { reg = reg; options = opts; default_opt = some d })) (
          Emits p
            (tests reg opts 1
              ++ ((jmp_a (bodies_size opts % 2 ^ 16) ∷ [])
                  ++ (bodies opts (length d.insns) ++ d.insns)))
            [])
  unfolding swich_generate emit_default_jump emit_default
  generate_default d fits =
      let n = length-tests reg opts 1 in
      let start = length p.img in
      let jump = jmp_a (bodies_size opts % 2 ^ 16) in
      Gives-bind
        (emit_tests-Emits p [] p [] reg start opts (Emits-none p room) (omega arith)
          (omega (arith, fits)))
        λ (tested, q) (jmps, one).
          Gives-bind (default_jump-Emits q d one (omega (arith, fits)))
            λ (default_opt, r) (same, two).
              Gives-bind
                (rw (← jmps) at (
                  emit_bodies-Emits p [] r [] (jmp_a 0 ∷ []) reg start (start + length opts + 1)
                    opts two (omega arith) (omega arith) (omega (arith, fits))))
                λ (options, t) (places, three).
                  Gives-bind
                    (subst
                      (λ o. Gives (emit_default t o) (
                        Emits p ((tests reg opts 1 ++ jump ∷ []) ++ (raw_bodies opts ++ d.insns))
                          []))
                      (sym same) (emit_default-Emits t d three fits))
                    λ u four.
                      let tail = d.insns in
                      let (v, e, five) =
                        close_options-Emits p [] u (tests reg opts 1 ++ jump ∷ []) tail
                          (start + length opts + 1) opts four
                          (omega (arith, n, length-append (tests reg opts 1) (jump ∷ []))) in
                      (v, rw places e, regroup p [] v (simp append_assoc) five)

length-bodies : (opts : List SwichOption) (tail : ℕ) → length (bodies opts tail) ≡ bodies_size opts
unfolding bodies bodies_size
length-bodies [] tail = refl
length-bodies (opt ∷ opts) tail = omega (
  arith,
  length-bodies opts tail,
  length-append opt.insns (jmp_a ((bodies_size opts + tail) % 2 ^ 16) ∷ bodies opts tail),
)

by_default :
    (p : Program) (reg : ℕ) (opts : List SwichOption) (d : Option SwichOption)
    → HasRoom p
    → length p.img + length (switch_code (record { reg = reg; options = opts; default_opt = d }))
      ≤ 2 ^ 40
    → Gives
        (swich_generate p (record { reg = reg; options = opts; default_opt = d }))
        (Emits p (switch_code (record { reg = reg; options = opts; default_opt = d })) [])
unfolding switch_code default_jump default_code
by_default p reg opts none room fits = generate_plain p reg opts room (
    omega (
      arith,
      fits,
      length-append (tests reg opts 0) (bodies opts 0 ++ []),
      length-append (bodies opts 0) [],
      length-tests reg opts 0,
      length-bodies opts 0,
    ))
by_default p reg opts (some d) room fits =
    let code = bodies opts (length d.insns) in
    let jump = jmp_a (bodies_size opts % 2 ^ 16) in
    generate_default p reg opts room d (
      omega (
        arith,
        fits,
        length-append (tests reg opts 1) (jump ∷ (code ++ d.insns)),
        length-append code d.insns,
        length-tests reg opts 1,
        length-bodies opts (length d.insns),
      ))

-- From a program with room, bf_swich_generate succeeds when the whole program stays below 2^40
-- instructions, and what it adds is the code of the switch: the test of each option jumps to the
-- option's code, the default jump to the default code, and each option's code ends with a jump behind
-- the switch. What was in the program before is not changed.
pub swich_generate-Emits :
    (p : Program) (swich : Swich)
    → HasRoom p
    → length p.img + length (switch_code swich) ≤ 2 ^ 40
    → Gives (swich_generate p swich) (Emits p (switch_code swich) [])
swich_generate-Emits p swich room fits =
    by_default p swich.reg swich.options swich.default_opt room fits
