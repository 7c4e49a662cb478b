-- ===== src/Cgen/Swich/Layout.antt =====
-- The code that the generation of a switch leaves in the program, with every jump written out.
use bpfilter.Prelude.{
  ℕ, suc, ◌+◌, ◌%◌, ◌^◌, ◌≤◌, ◌≡◌, refl, ap, ◌∙◌, sym, subst, List, [], ◌∷◌, ◌++◌, Option, none,
  some, length, arith, length-append, append_assoc, append-nil,
}
use bpfilter.Result.{Gives, Gives-bind}
use bpfilter.Cgen.{Insn, Fixup, Program, jeq, jmp_imm, jmp_a}
use bpfilter.Cgen.Emit.Room.{Emits}
use bpfilter.Cgen.Jump.{cleanup-Emits, jmpctx_get-behind, emit_all-behind}
use bpfilter.Cgen.Swich.{Swich, SwichOption, emit_tests, emit_bodies, close_options}

-- The tests, `gap` instructions before the code of the first option.
unfoldable pub tests : ℕ → List SwichOption → ℕ → List Insn
tests reg [] gap = []
tests reg (opt ∷ opts) gap =
    jmp_imm jeq reg opt.imm ((length opts + gap) % 2 ^ 16)
    ∷ tests reg opts (gap + length opt.insns + 1)

-- The code of the options, each with a jump behind the switch, which ends `tail` instructions later.
unfoldable pub bodies_size : List SwichOption → ℕ
bodies_size [] = 0
bodies_size (opt ∷ opts) = length opt.insns + 1 + bodies_size opts

unfoldable pub bodies : List SwichOption → ℕ → List Insn
unfolding bodies_size
bodies [] tail = []
bodies (opt ∷ opts) tail =
    opt.insns ++ jmp_a ((bodies_size opts + tail) % 2 ^ 16) ∷ bodies opts tail

-- The code before its jumps are patched.
unfoldable pub raw_tests : ℕ → List SwichOption → List Insn
raw_tests reg [] = []
raw_tests reg (opt ∷ opts) = jmp_imm jeq reg opt.imm 0 ∷ raw_tests reg opts

unfoldable pub raw_bodies : List SwichOption → List Insn
raw_bodies [] = []
raw_bodies (opt ∷ opts) = opt.insns ++ jmp_a 0 ∷ raw_bodies opts

pub length-raw_tests :
    (reg : ℕ) (opts : List SwichOption) → length (raw_tests reg opts) ≡ length opts
unfolding raw_tests
length-raw_tests reg [] = refl
length-raw_tests reg (opt ∷ opts) = ap suc (length-raw_tests reg opts)

pub length-raw_bodies : (opts : List SwichOption) → length (raw_bodies opts) ≡ bodies_size opts
unfolding raw_bodies bodies_size
length-raw_bodies [] = refl
length-raw_bodies (opt ∷ opts) =
    omega (arith, length-raw_bodies opts, length-append opt.insns (jmp_a 0 ∷ raw_bodies opts))

-- The options with the jumps that the loops set in them.
unfoldable pub test_jmps : ℕ → List SwichOption → List SwichOption
test_jmps at [] = []
test_jmps at (opt ∷ opts) = record opt { jmp = at } ∷ test_jmps (at + 1) opts

unfoldable pub body_jmps : ℕ → List SwichOption → List SwichOption
body_jmps at [] = []
body_jmps at (opt ∷ opts) =
    record opt { jmp = at + length opt.insns } ∷ body_jmps (at + length opt.insns + 1) opts

pub length-tests :
    (reg : ℕ) (opts : List SwichOption) (gap : ℕ) → length (tests reg opts gap) ≡ length opts
unfolding tests
length-tests reg [] gap = refl
length-tests reg (opt ∷ opts) gap = ap suc (length-tests reg opts (gap + length opt.insns + 1))

-- The default option, with its place in the program.
unfoldable pub default_jump : Option SwichOption → ℕ → List Insn
default_jump none size = []
default_jump (some opt) size = jmp_a (size % 2 ^ 16) ∷ []

unfoldable pub default_code : Option SwichOption → List Insn
default_code none = []
default_code (some opt) = opt.insns

-- The tests of the options in order, the jump to the default code, the code of each option and the
-- default code. A test jumps to the code of its option, the default jump to the default code, and
-- the jump behind the code of an option to the end.
unfoldable pub switch_code : Swich → List Insn
unfolding tests bodies default_jump default_code
switch_code swich =
    let jump = default_jump swich.default_opt (bodies_size swich.options) in
    let code = default_code swich.default_opt in
    tests swich.reg swich.options (length jump)
    ++ (jump ++ (bodies swich.options (length code) ++ code))

module _ (p : Program) (f : List Fixup) where
  -- Another way to bracket the instructions.
  pub regroup : {a b : List Insn} (q : Program) → a ≡ b → Emits p a f q → Emits p b f q
  regroup q e s = subst (λ c. Emits p c f q) e s

  pub emit_tests-Emits :
      (q : Program) (c : List Insn) (reg at : ℕ) (opts : List SwichOption)
      → Emits p c f q
      → at ≡ length p.img + length c
      → at + length opts ≤ 2 ^ 40
      → Gives
          (emit_tests q reg opts)
          (λ x. (x.0 ≡ test_jmps at opts) × Emits p (c ++ raw_tests reg opts) f x.1)
  unfolding emit_tests test_jmps raw_tests
  emit_tests-Emits q c reg at [] s e fits =
      (([], q), refl, (refl, regroup q (sym (append-nil c)) s))
  emit_tests-Emits q c reg at (opt ∷ opts) s e fits =
      let test = jmp_imm jeq reg opt.imm 0 in
      Gives-bind (jmpctx_get-behind p q c test f s (omega (arith, e, fits)))
        λ (jmp, r) (place, one).
          Gives-bind
            (emit_tests-Emits r (c ++ test ∷ []) reg (at + 1) opts one
              (omega (arith, e, length-append c (test ∷ []))) (omega (arith, fits)))
            λ (rest, t) (jmps, more). (
              (record opt { jmp = jmp } ∷ rest, t),
              refl,
              (
                rw (place, ← e, jmps) refl,
                regroup t (append_assoc c (test ∷ []) (raw_tests reg opts)) more,
              ),
            )

  pub emit_bodies-Emits :
      (q : Program) (c m : List Insn) (reg at k : ℕ) (opts : List SwichOption)
      → Emits p (c ++ (raw_tests reg opts ++ m)) f q
      → at ≡ length p.img + length c
      → k ≡ at + length opts + length m
      → k + bodies_size opts ≤ 2 ^ 40
      → Gives (emit_bodies q (test_jmps at opts)) (λ x.
        (x.0 ≡ body_jmps k opts)
        × Emits p (c ++ (tests reg opts (length m) ++ (m ++ raw_bodies opts))) f x.1)
  unfolding emit_bodies test_jmps body_jmps raw_tests tests raw_bodies bodies_size
  emit_bodies-Emits q c m reg at k [] s e g fits =
      (([], q), refl, (refl, regroup q (ap (◌++◌ c) (sym (append-nil m))) s))
  emit_bodies-Emits q c m reg at k (opt ∷ opts) s e g fits =
      let gap = length opts + length m in
      let test = jmp_imm jeq reg opt.imm (gap % 2 ^ 16) in
      let rest = raw_tests reg opts ++ m in
      let n : length rest ≡ gap =
        length-append (raw_tests reg opts) m ∙ ap (λ x. x + length m) (length-raw_tests reg opts) in
      let first = cleanup-Emits p q c rest (jmp_imm jeq reg opt.imm 0) f s in
      let body = opt.insns ++ jmp_a 0 ∷ [] in
      let size : length (c ++ test ∷ rest) ≡ length c + gap + 1 =
        omega (arith, length-append c (test ∷ rest), n) in
      Gives-bind (rw (← e, n) at first) λ r one.
        Gives-bind
          (emit_all-behind p r (c ++ test ∷ rest) opt.insns f one (omega (arith, size, e, g, fits)))
          λ t two.
            let far : length ((c ++ test ∷ rest) ++ opt.insns)
                ≡ length c + gap + 1 + length opt.insns =
              omega (arith, length-append (c ++ test ∷ rest) opt.insns, size) in
            Gives-bind
              (jmpctx_get-behind p t ((c ++ test ∷ rest) ++ opt.insns) (jmp_a 0) f two
                (omega (arith, far, e, g, fits)))
              λ (jmp, u) (place, three).
                let next = k + length opt.insns + 1 in
                let m' = m ++ body in
                let longer : length m' ≡ length m + length opt.insns + 1 =
                  omega (arith, length-append m body, length-append opt.insns (jmp_a 0 ∷ [])) in
                let here : jmp ≡ k + length opt.insns = omega (arith, place, far, e, g) in
                Gives-bind
                  (emit_bodies-Emits u (c ++ test ∷ []) m' reg (at + 1) next opts
                    (regroup u (simp append_assoc) three)
                    (omega (arith, e, length-append c (test ∷ []))) (omega (arith, g, longer))
                    (omega (arith, fits)))
                  λ (others, v) (jmps, four). (
                    (record opt { jmp = jmp } ∷ others, v),
                    refl,
                    (rw (here, jmps) refl, regroup v (rw longer (simp append_assoc)) four),
                  )

  pub close_options-Emits :
      (q : Program) (a tail : List Insn) (at : ℕ) (opts : List SwichOption)
      → Emits p (a ++ (raw_bodies opts ++ tail)) f q
      → at ≡ length p.img + length a
      → Gives
          (close_options q (body_jmps at opts))
          (Emits p (a ++ (bodies opts (length tail) ++ tail)) f)
  unfolding close_options body_jmps raw_bodies bodies
  close_options-Emits q a tail at [] s e = (q, refl, s)
  close_options-Emits q a tail at (opt ∷ opts) s e =
      let rest = raw_bodies opts ++ tail in
      let n : length rest ≡ bodies_size opts + length tail =
        length-append (raw_bodies opts) tail ∙ ap (λ x. x + length tail) (length-raw_bodies opts) in
      let jump = jmp_a ((bodies_size opts + length tail) % 2 ^ 16) in
      let place : length p.img + length (a ++ opt.insns) ≡ at + length opt.insns =
        omega (arith, e, length-append a opt.insns) in
      let first =
        cleanup-Emits p q (a ++ opt.insns) rest (jmp_a 0) f (regroup q (simp append_assoc) s) in
      let done = a ++ (opt.insns ++ jump ∷ []) in
      Gives-bind (rw (place, n) at first) λ r one.
        let (t, g, more) =
          close_options-Emits r done tail (at + length opt.insns + 1) opts
            (regroup r (simp append_assoc) one)
            (omega (
              arith,
              e,
              length-append a (opt.insns ++ jump ∷ []),
              length-append opt.insns (jump ∷ []),
            )) in
        (t, g, regroup t (simp append_assoc) more)
