-- ===== src/Cgen/Patch/SetMaps.antt =====
-- The set maps that the fixups of a program resolve to.
use bpfilter.Prelude.{
  ℕ, ◌+◌, ◌^◌, ◌<◌, ◌≡◌, refl, ap, ◌∙◌, List, [], ◌∷◌, ◌++◌, some, length, arith, length-append,
  get_elem?, set, get_elem?-length, set-length,
}
use bpfilter.Result.{◌>>=◌, Gives, Gives-bind}
use bpfilter.Cgen.{set_map_fd, Program, ld_map_fd, ld_map_fd_high}
use bpfilter.Cgen.Emit.{emit_load_set_fd}
use bpfilter.Cgen.Emit.Room.{HasRoom, Emits, emit-Emits, emit_fixup-Emits, Emits-then}
use bpfilter.Cgen.Patch.{fixup_insn, fixup_value, same_type, resolve, resolve_all, program_fixup}

-- The load of a set's descriptor records the set's index with the fixup only.
pub emit_load_set_fd-Emits :
    (p : Program) (reg index : ℕ)
    → HasRoom p
    → length p.img + 1 < 2 ^ 40
    → Gives (emit_load_set_fd p reg index) (
        Emits p
          (ld_map_fd reg ∷ ld_map_fd_high ∷ [])
          (record { type = set_map_fd; insn = length p.img; attr = index } ∷ []))
unfolding emit_load_set_fd
emit_load_set_fd-Emits p reg index room fits =
    Gives-bind (emit_fixup-Emits p set_map_fd (ld_map_fd reg) index room (omega (arith, fits)))
      λ q one.
        let n : length q.img ≡ length p.img + 1 =
          ap length one.img ∙ length-append p.img (ld_map_fd reg ∷ []) in
        let (r, e, two) = emit-Emits q ld_map_fd_high one.room (omega (arith, n, fits)) in
        (r, e, Emits-then p q r _ _ _ _ one two)

-- Whatever set of the chain the code asks for, the load is resolved to the first set map, as
-- _bf_program_fixup takes the index from the instruction's immediate, which is 0, and not from the
-- fixup.
pub program_fixup-emit_load_set_fd :
    (p : Program) (reg index first : ℕ) (others : List ℕ)
    → HasRoom p
    → length p.img + 1 < 2 ^ 40
    → p.fixups ≡ []
    → p.sets ≡ first ∷ others
    → Gives (emit_load_set_fd p reg index >>= λ q. program_fixup q set_map_fd) (λ q.
      (q.img ≡ p.img ++ record (ld_map_fd reg) { imm = first } ∷ ld_map_fd_high ∷ [])
      × (q.fixups ≡ []))
unfolding program_fixup resolve_all resolve same_type fixup_value fixup_insn
program_fixup-emit_load_set_fd p reg index first others room fits empty maps =
    Gives-bind (emit_load_set_fd-Emits p reg index room fits) λ q one.
      let none_else : q.fixups
          ≡ record { type = set_map_fd; insn = length p.img; attr = index } ∷ [] =
        one.fixups
        ∙ ap (λ x. x ++ record { type = set_map_fd; insn = length p.img; attr = index } ∷ [])
            empty in
      let found : get_elem? q.img (length p.img) ≡ some (ld_map_fd reg) =
        rw one.img (get_elem?-length p.img (ld_map_fd_high ∷ []) (ld_map_fd reg)) in
      let stored =
        set-length p.img (ld_map_fd_high ∷ []) (ld_map_fd reg)
          (record (ld_map_fd reg) { imm = first }) in
      (
        record q {
          img = set q.img (length p.img) (record (ld_map_fd reg) { imm = first });
          fixups = [];
        },
        rw (none_else, found, ◌>>=◌, one.sets, maps) refl,
        (rw one.img stored, refl),
      )
