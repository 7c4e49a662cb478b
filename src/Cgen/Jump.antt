-- ===== src/Cgen/Jump.antt =====
-- src/bpfilter/cgen/jmp.c and src/bpfilter/cgen/jmp.h: a jump that is emitted first and gets its
-- offset when the code that it jumps over has been emitted.
use bpfilter.Prelude.{
  get_elem?-length, set-length, ℕ, ◌+◌, ◌-◌, ◌%◌, ◌^◌, ◌≡◌, refl, ap, ◌∙◌, sym, subst, List, [],
  ◌∷◌, ◌++◌, none, some, length, get_elem?, set, arith, length-append, append_assoc, append-nil,
  ◌<◌, ◌≤◌, inl, inr,
}
use bpfilter.Result.{Result, ok, fault, ◌>>=◌, Gives, Gives-bind}
use bpfilter.Cgen.{Insn, Fixup, Program}
use bpfilter.Cgen.Emit.{emit, emit_all}
use bpfilter.Cgen.Emit.Room.{HasRoom, Emits, emit-Emits, emit_all-Emits, Emits-then}

-- bf_jmpctx_get: the index of the jump, and the program with it.
unfoldable pub jmpctx_get : Program → Insn → Result (ℕ × Program)
jmpctx_get p insn = do q ← emit p insn; ok (length p.img, q)

-- The offset to the end of the program, cut off to 16 bits.
unfoldable pub jmpctx_cleanup : Program → ℕ → Result Program
jmpctx_cleanup p insn_idx = elim (get_elem? p.img insn_idx) [
  | none ↦ fault
  | some insn ↦ ok (record p {
    img = set p.img insn_idx (record insn { off = (length p.img - insn_idx - 1) % 2 ^ 16 });
  })
]

nil_of_length {ℓ} : {A : Type ℓ} (xs : List A) → length xs ≡ 0 → xs ≡ []
nil_of_length [] e = refl
nil_of_length (x ∷ xs) e = absurd (omega (arith, e))

keep :
    (p q : Program) (a b : List Insn) (f : List Fixup)
    → Emits p a f q
    → length b ≡ length a
    → HasRoom q
    → HasRoom (record q { img = p.img ++ b })
unfolding HasRoom
keep p q a b f s same (inl (unset, size, empty)) = inl (
  unset,
  size,
  nil_of_length (p.img ++ b) (
      omega (
        arith,
        ap length empty,
        ap length s.img,
        length-append p.img a,
        length-append p.img b,
        same,
      )),
)
keep p q a b f s same (inr (set, (k, kb, size, len))) = inr (
  set,
  (
    k,
    kb,
    size,
    omega (arith, len, ap length s.img, length-append p.img a, length-append p.img b, same),
  ),
)

-- The same program with another image of the same length.
with_img-Emits :
    (p q : Program) (a b : List Insn) (f : List Fixup)
    → Emits p a f q
    → length b ≡ length a
    → Emits p b f (record q { img = p.img ++ b })
with_img-Emits p q a b f s same = record {
  img = refl;
  fixups = s.fixups;
  functions_location = s.functions_location;
  cmap = s.cmap;
  pmap = s.pmap;
  sets = s.sets;
  printer = s.printer;
  num_counters = s.num_counters;
  room = keep p q a b f s same s.room;
}

-- If the instructions that were added to a program are `a`, a jump and `b`, then bf_jmpctx_cleanup
-- succeeds on the jump's index and makes it jump over `b`, its offset cut off to 16 bits. Nothing else
-- is changed.
pub cleanup-Emits :
    (p q : Program) (a b : List Insn) (insn : Insn) (f : List Fixup)
    → Emits p (a ++ insn ∷ b) f q
    → Gives
        (jmpctx_cleanup q (length p.img + length a))
        (Emits p (a ++ record insn { off = length b % 2 ^ 16 } ∷ b) f)
unfolding jmpctx_cleanup
cleanup-Emits p q a b insn f s =
    let new = record insn { off = length b % 2 ^ 16 } in
    let same : length (a ++ new ∷ b) ≡ length (a ++ insn ∷ b) =
      omega (arith, length-append a (new ∷ b), length-append a (insn ∷ b)) in
    let split : q.img ≡ (p.img ++ a) ++ insn ∷ b = s.img ∙ sym (append_assoc p.img a (insn ∷ b)) in
    let at : length p.img + length a ≡ length (p.img ++ a) = sym (length-append p.img a) in
    let behind : length q.img - (length p.img + length a) - 1 ≡ length b =
      omega (arith, ap length split, at, length-append (p.img ++ a) (insn ∷ b)) in
    let found : get_elem? q.img (length p.img + length a) ≡ some insn =
      rw (split, at) (get_elem?-length (p.img ++ a) b insn) in
    let stored : set q.img (length p.img + length a) new ≡ p.img ++ (a ++ new ∷ b) =
      rw (split, at) (set-length (p.img ++ a) b insn new ∙ append_assoc p.img a (new ∷ b)) in
    (
      record q { img = p.img ++ (a ++ new ∷ b) },
      rw (jmpctx_cleanup, found, behind) (ap (λ x. ok (record q { img = x })) stored),
      with_img-Emits p q (a ++ insn ∷ b) (a ++ new ∷ b) f s same,
    )

-- The jump stands where its index says.
pub jmpctx_get-Emits :
    (p : Program) (insn : Insn)
    → HasRoom p
    → length p.img < 2 ^ 40
    → Gives (jmpctx_get p insn) (λ x. (x.0 ≡ length p.img) × Emits p (insn ∷ []) [] x.1)
unfolding jmpctx_get
jmpctx_get-Emits p insn h fits =
    Gives-bind (emit-Emits p insn h fits) (λ q one. ((length p.img, q), refl, (refl, one)))

-- The same behind the instructions `a` that have been emitted.
pub jmpctx_get-behind :
    (p q : Program) (a : List Insn) (insn : Insn) (f : List Fixup)
    → Emits p a f q
    → length p.img + length a < 2 ^ 40
    → Gives
        (jmpctx_get q insn)
        (λ x. (x.0 ≡ length p.img + length a) × Emits p (a ++ insn ∷ []) f x.1)
jmpctx_get-behind p q a insn f s fits =
    let n : length q.img ≡ length p.img + length a = ap length s.img ∙ length-append p.img a in
    let (x, e, (at, one)) = jmpctx_get-Emits q insn s.room (omega (arith, n, fits)) in
    let both = Emits-then p q x.1 a (insn ∷ []) f [] s one in
    (x, e, (at ∙ n, subst (λ g. Emits p (a ++ insn ∷ []) g x.1) (append-nil f) both))

pub emit_all-behind :
    (p q : Program) (a b : List Insn) (f : List Fixup)
    → Emits p a f q
    → length p.img + length a + length b ≤ 2 ^ 40
    → Gives (emit_all q b) (Emits p (a ++ b) f)
emit_all-behind p q a b f s fits =
    let n : length q.img ≡ length p.img + length a = ap length s.img ∙ length-append p.img a in
    let (r, e, more) = emit_all-Emits q b s.room (omega (arith, n, fits)) in
    (r, e, subst (λ g. Emits p (a ++ b) g r) (append-nil f) (Emits-then p q r a b f [] s more))
