-- ===== src/Cgen/Patch/Jumps.antt =====
-- The jumps to the next rule, when they are resolved.
use bpfilter.Prelude.{
  ℕ, ◌+◌, ◌-◌, ◌%◌, ◌^◌, ◌<◌, ◌≡◌, ◌≢◌, ◌⊎◌, ◌&&◌, refl, ap, sym, ◌∙◌, Bool, true, false, ◌||◌,
  List, [], ◌∷◌, some, some_injective, Bool-cases, inl, inr, if◌then◌else◌, ◌==◌, length, get_elem?,
  set, get_elem?-set_self, get_elem?-set_ne, length-set, All, arith, leb, ltb,
}
use native.Mathlib.Decide.{ℕ_discrete}
use bpfilter.Result.{ok, ◌>>=◌, Gives, Gives-bind}
use bpfilter.Cgen.{Insn, jmp_next_rule, Fixup, Program}
use bpfilter.Cgen.Patch.{fixup_insn, fixup_value, same_type, resolve, resolve_all, program_fixup}

abbrev pub is_jump : Fixup → Bool
is_jump fixup = same_type jmp_next_rule fixup.type

-- A jump to the next rule waits at `i`.
unfoldable pub waits_at : List Fixup → ℕ → Bool
waits_at [] i = false
waits_at (fixup ∷ fixups) i = (is_jump fixup && (fixup.insn == i)) || waits_at fixups i

unfoldable pub without_jumps : List Fixup → List Fixup
without_jumps [] = []
without_jumps (fixup ∷ fixups) =
    if is_jump fixup then without_jumps fixups else fixup ∷ without_jumps fixups

-- The instruction at `n` is one whose offset is still 0, and the end is near enough.
pub record IsOpen (img : List Insn) (n : ℕ) : Type 0 where
  pub insn : Insn
  pub there : get_elem? img n ≡ some insn
  pub unset : insn.off ≡ 0
  pub inside : n < length img
  pub near : length img - n - 1 < 2 ^ 15 - 1

-- Every fixup is of another instruction, and the jumps wait at open ones.
unfoldable pub IsPending : List Insn → List Fixup → Type 0
IsPending img [] = Unit
IsPending img (fixup ∷ fixups) =
    ((is_jump fixup ≡ false) ⊎ IsOpen img fixup.insn)
    × All (λ other. other.insn ≢ fixup.insn) fixups
    × IsPending img fixups

-- The jump at `i` goes to the end of the `n` instructions, if it waits.
unfoldable pub resolved : List Fixup → ℕ → ℕ → Insn → Insn
resolved fixups n i insn = if waits_at fixups i then record insn { off = n - i - 1 } else insn

-- The wrap-around of the code does not happen at an open instruction.
size_lem :
    (n i : ℕ) → i < n → n - i - 1 < 2 ^ 15 - 1 → (n + 2 ^ 64 - i - 1) % 2 ^ 64 % 2 ^ 32 ≡ n - i - 1
size_lem n i h near = omega (arith, h, near)

near_passes :
    (v : ℕ) → v < 2 ^ 15 - 1 → ((leb (2 ^ 31) v || ltb v (2 ^ 15 - 1)) ≡ true) × (v % 2 ^ 16 ≡ v)
near_passes v h = (ground arith, omega arith)

resolve-jump :
    (p : Program) (fixup : Fixup) (o : IsOpen p.img fixup.insn)
    → resolve p jmp_next_rule fixup
      ≡ ok (record p {
        img = set p.img fixup.insn (record o.insn { off = length p.img - fixup.insn - 1 });
      })
unfolding resolve fixup_value fixup_insn
resolve-jump p fixup o =
    let near = near_passes _ o.near in
    rw (o.there, ◌>>=◌, size_lem (length p.img) fixup.insn o.inside o.near, o.unset, near.0, near.1)
      refl

set-IsOpen : (img : List Insn) (n j : ℕ) (v : Insn) → n ≢ j → IsOpen img n → IsOpen (set img j v) n
set-IsOpen img n j v ne o = record {
  insn = o.insn;
  there = get_elem?-set_ne img j n v (λ e. ne (sym e)) ∙ o.there;
  unset = o.unset;
  inside = omega (arith, length-set img j v, o.inside);
  near = omega (arith, length-set img j v, o.near);
}

set-IsPending :
    (img : List Insn) (fixups : List Fixup) (j : ℕ) (v : Insn)
    → All (λ other. other.insn ≢ j) fixups
    → IsPending img fixups
    → IsPending (set img j v) fixups
unfolding IsPending
set-IsPending img [] j v a h = tt
set-IsPending img (fixup ∷ fixups) j v (ne, a) (inl other, apart, rest) =
    (inl other, apart, set-IsPending img fixups j v a rest)
set-IsPending img (fixup ∷ fixups) j v (ne, a) (inr o, apart, rest) =
    (inr (set-IsOpen img fixup.insn j v ne o), apart, set-IsPending img fixups j v a rest)

waits_at-apart :
    (fixups : List Fixup) (i : ℕ) → All (λ other. other.insn ≢ i) fixups → waits_at fixups i ≡ false
unfolding waits_at
waits_at-apart [] i a = refl
waits_at-apart (fixup ∷ fixups) i (ne, a) = ground (arith, waits_at-apart fixups i a)

resolve_all-other :
    (p : Program) (fixup : Fixup) (fixups : List Fixup)
    → is_jump fixup ≡ false
    → resolve_all p jmp_next_rule (fixup ∷ fixups)
      ≡ (resolve_all p jmp_next_rule fixups >>= λ x. ok (fixup ∷ x.0, x.1))
unfolding resolve_all
resolve_all-other p fixup fixups e = rw (resolve_all, e) refl

resolve_all-jump :
    (p : Program) (fixup : Fixup) (fixups : List Fixup)
    → is_jump fixup ≡ true
    → resolve_all p jmp_next_rule (fixup ∷ fixups)
      ≡ (resolve p jmp_next_rule fixup >>= λ q. resolve_all q jmp_next_rule fixups)
unfolding resolve_all
resolve_all-jump p fixup fixups e = rw (resolve_all, e) refl

waits_at-here :
    (fixup : Fixup) (fixups : List Fixup) (i : ℕ)
    → is_jump fixup ≡ true
    → fixup.insn ≡ i
    → waits_at (fixup ∷ fixups) i ≡ true
unfolding waits_at
waits_at-here fixup fixups i e at = ground (arith, e)

waits_at-ne :
    (fixup : Fixup) (fixups : List Fixup) (i : ℕ)
    → fixup.insn ≢ i
    → waits_at (fixup ∷ fixups) i ≡ waits_at fixups i
unfolding waits_at
waits_at-ne fixup fixups i ne = elim (Bool-cases (is_jump fixup)) [
  | inl e ↦ ground (arith, e)
  | inr e ↦ ground (arith, e)
]

IsOpen-is_jump :
    {img : List Insn} {n : ℕ} (jump : Bool)
    → jump ≡ true
    → (jump ≡ false) ⊎ IsOpen img n
    → IsOpen img n
IsOpen-is_jump jump e (inl f) = cc
IsOpen-is_jump jump e (inr o) = o

-- What a pending jump does to the instruction at `i`.
resolved-cons :
    (fixup : Fixup) (fixups : List Fixup) (img : List Insn) (i : ℕ) (insn : Insn)
    (o : IsOpen img fixup.insn)
    → is_jump fixup ≡ true
    → All (λ other. other.insn ≢ fixup.insn) fixups
    → get_elem? img i ≡ some insn
    → (next : Insn) × (get_elem?
          (set img fixup.insn (record o.insn { off = length img - fixup.insn - 1 }))
          i
        ≡ some next)
      × (resolved fixups (length img) i next ≡ resolved (fixup ∷ fixups) (length img) i insn)
unfolding resolved
resolved-cons fixup fixups img i insn o e apart here =
    let new = record o.insn { off = length img - fixup.insn - 1 } in
    elim (ℕ_discrete fixup.insn i) [
      | yes at ↦
          let quiet = waits_at-apart fixups i (rw at at apart) in
          let same : o.insn ≡ insn = some_injective (sym o.there ∙ (rw (← at) at here)) in
          (
            new,
            rw (← at) (get_elem?-set_self img fixup.insn new o.inside),
            rw (quiet, waits_at-here fixup fixups i e at)
                (λ k. record (same k) { off = length img - at k - 1 }),
          )
      | no ne ↦ (
        insn,
        get_elem?-set_ne img fixup.insn i new ne ∙ here,
        rw (waits_at-ne fixup fixups i ne) refl,
      )
    ]

resolved-nil : (n i : ℕ) (insn : Insn) → insn ≡ resolved [] n i insn
unfolding resolved waits_at
resolved-nil n i insn = refl

resolved-other :
    (fixup : Fixup) (fixups : List Fixup) (n i : ℕ) (insn : Insn)
    → is_jump fixup ≡ false
    → resolved fixups n i insn ≡ resolved (fixup ∷ fixups) n i insn
unfolding resolved waits_at
resolved-other fixup fixups n i insn e = rw e refl

module _ (i : ℕ) where
  resolve_all-jumps :
      (p : Program) (fixups : List Fixup) (insn : Insn)
      → IsPending p.img fixups
      → get_elem? p.img i ≡ some insn
      → Gives (resolve_all p jmp_next_rule fixups) (λ x.
        (x.0 ≡ without_jumps fixups)
        × (x.1 ≡ record p { img = x.1.img })
        × (length x.1.img ≡ length p.img)
        × (get_elem? x.1.img i ≡ some (resolved fixups (length p.img) i insn)))
  unfolding resolve_all IsPending without_jumps
  resolve_all-jumps p [] insn h here =
      (([], p), refl, (refl, refl, refl, here ∙ ap some (resolved-nil (length p.img) i insn)))
  resolve_all-jumps p (fixup ∷ fixups) insn (state, apart, rest) here =
      elim (Bool-cases (is_jump fixup)) [
        | inl e ↦
            let o = IsOpen-is_jump (is_jump fixup) e state in
            let new = record o.insn { off = length p.img - fixup.insn - 1 } in
            let after = record p { img = set p.img fixup.insn new } in
            let (next, there, same) = resolved-cons fixup fixups p.img i insn o e apart here in
            let size : length after.img ≡ length p.img = length-set p.img fixup.insn new in
            let (x, f, (kept, frame, size', found)) =
              resolve_all-jumps after fixups next
                (set-IsPending p.img fixups fixup.insn new apart rest) there in
            rw (resolve_all-jump p fixup fixups e, resolve-jump p fixup o, ◌>>=◌, e)
              (
                x,
                f,
                (
                  kept,
                  frame,
                  size' ∙ size,
                  found ∙ ap some (ap (λ n. resolved fixups n i next) size ∙ same),
                ),
              )
        | inr e ↦
            rw (resolve_all-other p fixup fixups e, e)
              (Gives-bind (resolve_all-jumps p fixups insn rest here)
                λ (kept, q) (same, frame, size, there). (
                  (fixup ∷ kept, q),
                  refl,
                  (
                    ap (◌∷◌ fixup) same,
                    frame,
                    size,
                    there ∙ ap some (resolved-other fixup fixups (length p.img) i insn e),
                  ),
                ))
      ]

-- When the fixups are of different instructions, and the jumps among them wait at instructions whose
-- offset is 0 and that are fewer than 32767 instructions before the end, _bf_program_fixup for the
-- jumps to the next rule succeeds. It takes the jumps out of the list and leaves the other fixups in
-- their order, and changes nothing else of the program but its image, whose length stays. Each
-- instruction that a jump waits at then goes to the end of the program, and every
-- other instruction is unchanged.
pub program_fixup-jumps :
    (p : Program) (i : ℕ) (insn : Insn)
    → IsPending p.img p.fixups
    → get_elem? p.img i ≡ some insn
    → Gives (program_fixup p jmp_next_rule) (λ q.
      (q ≡ record p { img = q.img; fixups = without_jumps p.fixups })
      × (length q.img ≡ length p.img)
      × (get_elem? q.img i ≡ some (resolved p.fixups (length p.img) i insn)))
unfolding program_fixup
program_fixup-jumps p i insn pending here =
    Gives-bind (resolve_all-jumps i p p.fixups insn pending here)
      λ (rest, q) (same, frame, size, there).
        (record q { fixups = rest }, refl, (λ k. record (frame k) { fixups = same k }, size, there))
