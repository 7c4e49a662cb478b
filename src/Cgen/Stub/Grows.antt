-- ===== src/Cgen/Stub/Grows.antt =====
-- A bound on the code that a part of the generation adds, where no jump to the next rule is left open.
use bpfilter.Prelude.{
  ℕ, ◌+◌, ◌%◌, ◌^◌, ◌≤◌, ◌≡◌, refl, ap, subst, ◌∙◌, false, List, [], ◌∷◌, ◌++◌, length,
  length-append, arith, All,
}
use bpfilter.Result.{Result, ok, ◌>>=◌, Gives, Gives-bind}
use bpfilter.Cgen.{Insn, Fixup, Program, jmp_next_rule, func_call, call_rel}
use bpfilter.Cgen.Emit.{emit, emit_all, emit_fixup_call, emit_fixup}
use bpfilter.Cgen.Emit.Room.{
  HasRoom, Emits, Emits-none, Emits-then, emit-Emits, emit_all-Emits, emit_fixup-Emits,
}
use bpfilter.Cgen.Jump.{jmpctx_cleanup, cleanup-Emits, jmpctx_get-Emits}
use bpfilter.Cgen.Patch.{same_type}
use bpfilter.Cgen.Swich.{Swich, swich_generate}
use bpfilter.Cgen.Swich.Layout.{switch_code}
use bpfilter.Cgen.Swich.Generate.{swich_generate-Emits}
use bpfilter.Cgen.Stub.{jump_over}

-- A fixup that is not for the next rule.
abbrev pub IsQuiet : Fixup → Type 0
IsQuiet fixup = same_type jmp_next_rule fixup.type ≡ false

-- `q` is `p` with at most `n` instructions behind its own, and with fixups of other types behind its
-- own.
pub record Grows (p : Program) (n : ℕ) (q : Program) : Type 0 where
  pub code : List Insn
  pub new : List Fixup
  pub emits : Emits p code new q
  pub bounded : length code ≤ n
  pub quiet : All IsQuiet new

All-append {ℓ κ} :
    {A : Type ℓ} (P : A → Type κ) (xs ys : List A) → All P xs → All P ys → All P (xs ++ ys)
All-append P [] ys h k = k
All-append P (x ∷ xs) ys h k = (h.0, All-append P xs ys h.1 k)

pub Grows-room : (p q : Program) (n : ℕ) → Grows p n q → HasRoom q
Grows-room p q n g = g.emits.room

pub Grows-length : (p q : Program) (n : ℕ) → Grows p n q → length q.img ≤ length p.img + n
Grows-length p q n g = omega (arith, g.bounded, ap length g.emits.img, length-append p.img g.code)

pub Grows-none : (p : Program) → HasRoom p → Grows p 0 p
Grows-none p h = record {
  code = [];
  new = [];
  emits = Emits-none p h;
  bounded = omega arith;
  quiet = tt;
}

pub Grows-then : (p q r : Program) (m n : ℕ) → Grows p m q → Grows q n r → Grows p (m + n) r
Grows-then p q r m n g h = record {
  code = g.code ++ h.code;
  new = g.new ++ h.new;
  emits = Emits-then p q r g.code h.code g.new h.new g.emits h.emits;
  bounded = omega (arith, length-append g.code h.code, g.bounded, h.bounded);
  quiet = All-append IsQuiet g.new h.new g.quiet h.quiet;
}

-- A part of the generation that adds at most `n` instructions to any program of at most 2^39.
abbrev pub Adds : (Program → Result Program) → ℕ → Type 0
Adds f n = (p : Program) → HasRoom p → length p.img + n ≤ 2 ^ 40 → Gives (f p) (Grows p n)

pub Adds-none : Adds (λ p. ok p) 0
Adds-none p h fits = (p, refl, Grows-none p h)

-- One part behind the other.
pub Adds-then :
    (f g : Program → Result Program) (m n : ℕ) → Adds f m → Adds g n → Adds (λ p. f p >>= g) (m + n)
Adds-then f g m n a b p h fits = Gives-bind (a p h (omega (arith, fits))) λ q one.
    let (r, e, two) = b q (Grows-room p q m one) (omega (arith, fits, Grows-length p q m one)) in
    (r, e, Grows-then p q r m n one two)

pub Adds-emit_all : (insns : List Insn) → Adds (λ p. emit_all p insns) (length insns)
Adds-emit_all insns p h fits =
    let (q, e, s) = emit_all-Emits p insns h fits in
    (q, e, record { code = insns; new = []; emits = s; bounded = omega arith; quiet = tt })

pub Adds-emit : (insn : Insn) → Adds (λ p. emit p insn) 1
Adds-emit insn p h fits =
    let (q, e, s) = emit-Emits p insn h (omega (arith, fits)) in
    (q, e, record { code = insn ∷ []; new = []; emits = s; bounded = omega arith; quiet = tt })

call-fixup :
    (p : Program) (function : ℕ)
    → emit_fixup_call p function ≡ emit_fixup p func_call (call_rel 0) function
unfolding emit_fixup_call emit_fixup
call-fixup p function = refl

pub Adds-call : (function : ℕ) → Adds (λ p. emit_fixup_call p function) 1
unfolding same_type
Adds-call function p h fits =
    let (q, e, s) = emit_fixup-Emits p func_call (call_rel 0) function h (omega (arith, fits)) in
    (
      q,
      call-fixup p function ∙ e,
      record {
        code = call_rel 0 ∷ [];
        new = record { type = func_call; insn = length p.img; attr = function } ∷ [];
        emits = s;
        bounded = omega arith;
        quiet = (refl, tt);
      },
    )

pub Adds-swich : (swich : Swich) → Adds (λ p. swich_generate p swich) (length (switch_code swich))
Adds-swich swich p h fits =
    let (q, e, s) = swich_generate-Emits p swich h fits in
    (
      q,
      e,
      record { code = switch_code swich; new = []; emits = s; bounded = omega arith; quiet = tt },
    )

-- The jump over a block lands behind the block.
pub Adds-jump_over :
    (insn : Insn) (block : Program → Result Program) (n : ℕ)
    → Adds block n
    → Adds (λ p. jump_over insn block p) (1 + n)
unfolding jump_over
Adds-jump_over insn block n a p h fits =
    Gives-bind (jmpctx_get-Emits p insn h (omega (arith, fits))) λ (jump, q) (place, one).
      let longer : length q.img ≡ length p.img + 1 =
        ap length one.img ∙ length-append p.img (insn ∷ []) in
      Gives-bind (a q one.room (omega (arith, fits, longer))) λ r g.
        let both = Emits-then p q r (insn ∷ []) g.code [] g.new one g.emits in
        let here : length p.img + 0 ≡ jump = omega (arith, place) in
        let (s, e, t) = cleanup-Emits p r [] g.code insn g.new both in
        (
          s,
          subst (λ j. jmpctx_cleanup r j ≡ ok s) here e,
          record {
            code = record insn { off = length g.code % 2 ^ 16 } ∷ g.code;
            new = g.new;
            emits = t;
            bounded = omega (arith, g.bounded);
            quiet = g.quiet;
          },
        )

pub Adds-weaken : (f : Program → Result Program) (m n : ℕ) → m ≤ n → Adds f m → Adds f n
Adds-weaken f m n le a p h fits =
    let (q, e, g) = a p h (omega (arith, fits, le)) in
    (
      q,
      e,
      record {
        code = g.code;
        new = g.new;
        emits = g.emits;
        bounded = omega (arith, g.bounded, le);
        quiet = g.quiet;
      },
    )

-- A part that first asks for a number, which is there.
pub Adds-known :
    (m : Result ℕ) (f : ℕ → Program → Result Program) (n : ℕ)
    → (x : ℕ) × (m ≡ ok x)
    → ((x : ℕ) → Adds (f x) n)
    → Adds (λ p. m >>= λ x. f x p) n
Adds-known m f n (x, e) a p h fits = rw (e, ◌>>=◌) (a x p h fits)
