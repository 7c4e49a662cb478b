-- ===== src/Cgen/Emit/Room.antt =====
-- The room in the image of a program, before and after an emission.
use native.Mathlib.Nat.{pow-suc, pow-le-pow_right}
use bpfilter.Prelude.{
  sym, subst, ℕ, suc, ◌+◌, ◌*◌, ◌%◌, ◌^◌, ◌<◌, ◌≤◌, ◌≡◌, ◌≢◌, refl, ap, ◌∙◌, ◌⊎◌, inl, inr, true,
  false, List, [], ◌∷◌, ◌++◌, append_assoc, append-nil, every, every-holds, ltb, ◌==◌, Bool-cases,
  length, arith, length-append, lt→ltb,
}
use bpfilter.Result.{Gives, ok, ◌>>=◌}
use bpfilter.Cgen.{Insn, FixupType, Fixup, Program}
use bpfilter.Cgen.Emit.{
  round_next_power_of_2, grow_img, ensure_room, put, emit, emit_all, emit_fixup,
}

doubles : every 62 (λ k. round_next_power_of_2 (2 ^ k * 2 % 2 ^ 64) == 2 ^ k * 2) ≡ true
unfolding every round_next_power_of_2
doubles = refl

-- From a capacity 2^k with k below 62, the growth of the image computes twice that capacity.
pub round_next_power_of_2-pow :
    (k : ℕ) → k < 62 → round_next_power_of_2 (2 ^ k * 2 % 2 ^ 64) ≡ 2 ^ k * 2
round_next_power_of_2-pow k h =
    let one =
      every-holds 62 (λ i. round_next_power_of_2 (2 ^ i * 2 % 2 ^ 64) == 2 ^ i * 2) k doubles h in
    ground (arith, one)

-- A program whose image nothing is allocated for, or whose capacity is a power of two that the
-- instructions do not pass.
unfoldable pub HasRoom : Program → Type 0
HasRoom p =
    ((p.allocated ≡ false) × (p.img_cap ≡ 0) × (p.img ≡ []))
    ⊎ ((p.allocated ≡ true)
        × ((k : ℕ) × (k < 62) × (p.img_cap ≡ 2 ^ k) × (length p.img ≤ p.img_cap)))

-- `q` is `p` with these instructions and fixups behind its own, and with room.
pub record Emits (p : Program) (insns : List Insn) (new : List Fixup) (q : Program) : Type 0 where
  pub img : q.img ≡ p.img ++ insns
  pub fixups : q.fixups ≡ p.fixups ++ new
  pub functions_location : q.functions_location ≡ p.functions_location
  pub cmap : q.cmap ≡ p.cmap
  pub pmap : q.pmap ≡ p.pmap
  pub sets : q.sets ≡ p.sets
  pub printer : q.printer ≡ p.printer
  pub num_counters : q.num_counters ≡ p.num_counters
  pub room : HasRoom q

pub Emits-none : (p : Program) → HasRoom p → Emits p [] [] p
Emits-none p h = record {
  img = sym (append-nil p.img);
  fixups = sym (append-nil p.fixups);
  functions_location = refl;
  cmap = refl;
  pmap = refl;
  sets = refl;
  printer = refl;
  num_counters = refl;
  room = h;
}

pub Emits-then :
    (p q r : Program) (a b : List Insn) (f g : List Fixup)
    → Emits p a f q
    → Emits q b g r
    → Emits p (a ++ b) (f ++ g) r
Emits-then p q r a b f g one two = record {
  img = two.img ∙ ap (λ x. x ++ b) one.img ∙ append_assoc p.img a b;
  fixups = two.fixups ∙ ap (λ x. x ++ g) one.fixups ∙ append_assoc p.fixups f g;
  functions_location = two.functions_location ∙ one.functions_location;
  cmap = two.cmap ∙ one.cmap;
  pmap = two.pmap ∙ one.pmap;
  sets = two.sets ∙ one.sets;
  printer = two.printer ∙ one.printer;
  num_counters = two.num_counters ∙ one.num_counters;
  room = two.room;
}

-- A size below 2^40 that is a power of two has an exponent that can grow.
exponent_below : (k n : ℕ) → n ≡ 2 ^ k → n < 2 ^ 40 → k < 40
exponent_below k n e h = elim (Bool-cases (ltb k 40)) [
  | inl below ↦ ground (arith, below)
  | inr above ↦
      let far : 40 ≤ k = ground (arith, above) in
      let big : 2 ^ 40 ≤ 2 ^ k = pow-le-pow_right (omega arith) far in absurd (omega arith)
]

grown :
    (p : Program)
    → HasRoom p
    → length p.img ≡ p.img_cap
    → length p.img < 2 ^ 40
    → HasRoom (grow_img p) × (length p.img < (grow_img p).img_cap)
unfolding HasRoom grow_img
grown p (inl (unset, size, empty)) full fits =
    rw unset
      (inr (refl, (6, omega arith, refl, omega (arith, full, size))), omega (arith, full, size))
grown p (inr (set, (k, kb, size, len))) full fits =
    let small : k < 40 = exponent_below k (length p.img) (full ∙ size) fits in
    let twice = round_next_power_of_2-pow k kb in
    let none_less : 0 ≤ k = omega arith in
    let pos : 2 ^ 0 ≤ 2 ^ k = pow-le-pow_right (omega arith) none_less in
    rw (set, size, twice)
      (
        inr (refl, (suc k, omega arith, sym (pow-suc 2 k), omega (arith, size, len))),
        omega (arith, size, full, fits, pos),
      )

not_full : (p : Program) → HasRoom p → length p.img ≢ p.img_cap → length p.img < p.img_cap
unfolding HasRoom
not_full p (inl (unset, size, empty)) ne = absurd (ne (rw empty (sym size)))
not_full p (inr (set, (k, kb, size, len))) ne = omega (arith, len, ne)

-- The emission makes room: what is left is one that has room for one instruction more.
Ready : Program → Program → Type 0
Ready p q = Emits p [] [] q × (length q.img < q.img_cap)

ensure_room-Ready : (p : Program) → HasRoom p → length p.img < 2 ^ 40 → Ready p (ensure_room p)
unfolding Ready ensure_room
ensure_room-Ready p h fits = elim (Bool-cases (length p.img == p.img_cap)) [
  | inl e ↦
      let (room, less) = grown p h (ground (arith, e)) fits in
      rw e (
        record {
          img = sym (append-nil p.img);
          fixups = sym (append-nil p.fixups);
          functions_location = refl;
          cmap = refl;
          pmap = refl;
          sets = refl;
          printer = refl;
          num_counters = refl;
          room = room;
        },
        less,
      )
  | inr e ↦ rw e (Emits-none p h, not_full p h (ground (arith, e)))
]

put-Emits :
    (q : Program) (insn : Insn)
    → HasRoom q
    → length q.img < q.img_cap
    → (r : Program) × (put q insn ≡ ok r) × Emits q (insn ∷ []) [] r
unfolding put HasRoom
put-Emits q insn (inl (unset, size, empty)) less = absurd (omega (arith, size, less))
put-Emits q insn (inr (set, (k, kb, size, len))) less = (
  record q { img = q.img ++ insn ∷ [] },
  rw (lt→ltb _ _ less),
  record {
    img = refl;
    fixups = sym (append-nil q.fixups);
    functions_location = refl;
    cmap = refl;
    pmap = refl;
    sets = refl;
    printer = refl;
    num_counters = refl;
    room = inr (set, (k, kb, size, omega (arith, less, length-append q.img (insn ∷ []))));
  },
)

-- bf_program_emit never writes outside of the image: from a program with room and fewer than 2^40
-- instructions it succeeds, and the result is the program with the instruction behind its own.
pub emit-Emits :
    (p : Program) (insn : Insn)
    → HasRoom p
    → length p.img < 2 ^ 40
    → Gives (emit p insn) (Emits p (insn ∷ []) [])
unfolding emit Ready
emit-Emits p insn h fits =
    let (ready, less) = ensure_room-Ready p h fits in
    let (r, e, one) = put-Emits (ensure_room p) insn ready.room less in
    (r, e, Emits-then p (ensure_room p) r [] (insn ∷ []) [] [] ready one)

pub emit_all-Emits :
    (p : Program) (insns : List Insn)
    → HasRoom p
    → length p.img + length insns ≤ 2 ^ 40
    → Gives (emit_all p insns) (Emits p insns [])
unfolding emit_all
emit_all-Emits p [] h fits = (p, refl, Emits-none p h)
emit_all-Emits p (insn ∷ insns) h fits =
    let (q, e, one) = emit-Emits p insn h (omega (arith, fits)) in
    let longer : length q.img ≡ length p.img + 1 =
      ap length one.img ∙ length-append p.img (insn ∷ []) in
    let (r, f, more) = emit_all-Emits q insns one.room (omega (arith, fits, longer)) in
    (r, rw (e, ◌>>=◌) f, Emits-then p q r (insn ∷ []) insns [] [] one more)

add_fixup-Emits :
    (p q : Program) (fixup : Fixup)
    → Emits p [] [] q
    → Emits p [] (fixup ∷ []) (record q { fixups = q.fixups ++ fixup ∷ [] })
unfolding HasRoom
add_fixup-Emits p q fixup s = record {
  img = s.img;
  fixups = ap (λ x. x ++ fixup ∷ []) (s.fixups ∙ append-nil p.fixups);
  functions_location = s.functions_location;
  cmap = s.cmap;
  pmap = s.pmap;
  sets = s.sets;
  printer = s.printer;
  num_counters = s.num_counters;
  room = s.room;
}

-- From a program with room and fewer than 2^40 instructions, bf_program_emit_fixup succeeds: it puts
-- the instruction behind the program's own, and a fixup with that instruction's index behind its fixups.
pub emit_fixup-Emits :
    (p : Program) (type : FixupType) (insn : Insn) (attr : ℕ)
    → HasRoom p
    → length p.img < 2 ^ 40
    → Gives
        (emit_fixup p type insn attr)
        (Emits p (insn ∷ []) (record { type = type; insn = length p.img; attr = attr } ∷ []))
unfolding emit_fixup Ready
emit_fixup-Emits p type insn attr h fits =
    let (ready, less) = ensure_room-Ready p h fits in
    let place : length (ensure_room p).img ≡ length p.img =
      ap length (ready.img ∙ append-nil p.img) in
    let with_fixup =
      add_fixup-Emits p (ensure_room p)
        (record { type = type; insn = length (ensure_room p).img; attr = attr }) ready in
    let (r, e, one) =
      emit-Emits
        (record (ensure_room p) {
          fixups =
              (ensure_room p).fixups
              ++ record { type = type; insn = length (ensure_room p).img; attr = attr } ∷ [];
        })
        insn with_fixup.room (omega (arith, place, fits)) in
    let both = Emits-then p _ r [] (insn ∷ []) _ [] with_fixup one in
    (
      r,
      e,
      subst (λ n. Emits p (insn ∷ []) (record { type = type; insn = n; attr = attr } ∷ []) r) place
          both,
    )
