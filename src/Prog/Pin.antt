-- ===== src/Prog/Pin.antt =====
-- src/bpfilter/cgen/program.c, _bf_program_pin and _bf_program_unpin, with bf_map_pin, bf_link_pin and
-- bf_bpf_obj_pin: the objects of a program are pinned in a directory.
-- The directory is made and opened in Prog.Load.
use bpfilter.Prelude.{ℕ, Bool, true, false, List, [], ◌∷◌, Option, ◌==◌, ltb, if◌then◌else◌}
use bpfilter.Result.{Result, ok, ◌>>=◌, ◌>>◌, assert}
use bpfilter.Bytes.{c_string}
use bpfilter.Prog.{is_absolute}
use bpfilter.Prog.Map.{BpfMap}
use bpfilter.Prog.Link.{Link}
use bpfilter.Prog.Stored.{StoredProgram}
pub mod Names
pub mod Branches
pub mod Steps
pub mod Rollback

-- The system calls on an open directory: BPF_OBJ_PIN of a descriptor under a name, and unlinkat of a
-- name. Both give 0 or an errno; the code only prints that of unlinkat.
pub record Directory (Dir : Type 0) : Type 0 where
  pub pin : List ℕ → Option ℕ → Dir → ℕ × Dir
  pub unlink : List ℕ → Dir → ℕ × Dir

module _ {Dir : Type 0} (ops : Directory Dir) (dir_fd : ℕ) where
  unfoldable pub bpf_obj_pin : List ℕ → Option ℕ → Dir → Result (ℕ × Dir)
  bpf_obj_pin path fd dir = do
    assert (if is_absolute path then dir_fd == 0 else true)
    ok (ops.pin path fd dir)

  unfoldable pub map_pin : BpfMap → Dir → Result (ℕ × Dir)
  unfolding bpf_obj_pin
  map_pin map dir = do path ← c_string map.name; bpf_obj_pin path map.fd dir

  unfoldable pub map_unpin : BpfMap → Dir → Result Dir
  map_unpin map dir = do path ← c_string map.name; ok (ops.unlink path dir).1

  unfoldable pub link_pin : Link → Dir → Result (ℕ × Dir)
  unfolding bpf_obj_pin
  link_pin link dir = do
    assert (ltb 0 dir_fd)
    path ← c_string link.name
    bpf_obj_pin path link.fd dir

  unfoldable pub link_unpin : Link → Dir → Result Dir
  link_unpin link dir = do
    assert (ltb 0 dir_fd)
    path ← c_string link.name
    ok (ops.unlink path dir).1

-- `if (r < 0) goto fail;` behind a step.
unfoldable pub or_fail :
    {Dir : Type 0}
    → Result (ℕ × Dir)
    → (Dir → Result (ℕ × Dir))
    → (ℕ → Dir → Result (ℕ × Dir))
    → Result (ℕ × Dir)
or_fail step next fail = step >>= λ x. elim (x.0 == 0) [ true ↦ next x.1 | false ↦ fail x.0 x.1 ]

abbrev stop : {Dir : Type 0} → ℕ → Dir → Result (ℕ × Dir)
stop r dir = ok (r, dir)

-- `goto label;`, and the error that is returned behind it.
abbrev pub at_label : {Dir : Type 0} → (Dir → Result Dir) → ℕ → Dir → Result (ℕ × Dir)
at_label label r dir = label dir >>= λ after. ok (r, after)

-- The loops over the sets and the links.
unfoldable pub pin_each :
    {A Dir : Type 0} → (A → Dir → Result (ℕ × Dir)) → List A → Dir → Result (ℕ × Dir)
unfolding or_fail
pin_each pin [] dir = ok (0, dir)
pin_each pin (x ∷ xs) dir = or_fail (pin x dir) (pin_each pin xs) stop

unfoldable pub unpin_each : {A Dir : Type 0} → (A → Dir → Result Dir) → List A → Dir → Result Dir
unpin_each unpin [] dir = ok dir
unpin_each unpin (x ∷ xs) dir = unpin x dir >>= unpin_each unpin xs

module _ {Dir : Type 0} (ops : Directory Dir) (dir_fd : ℕ) (p : StoredProgram) where
  -- The labels of _bf_program_pin, each with what is behind it.
  unfoldable pub err_cmap_pin : Dir → Result Dir
  err_cmap_pin dir = ok (ops.unlink p.prog_name dir).1

  unfoldable pub err_pmap_pin : Dir → Result Dir
  unfolding map_unpin err_cmap_pin
  err_pmap_pin dir = map_unpin ops dir_fd p.cmap dir >>= err_cmap_pin

  unfoldable pub err_set_pin : Dir → Result Dir
  unfolding map_unpin unpin_each err_pmap_pin
  err_set_pin dir = do
    a ← unpin_each (map_unpin ops dir_fd) p.sets dir
    b ← map_unpin ops dir_fd p.pmap a
    err_pmap_pin b

  unfoldable pub err_link_pin : Dir → Result Dir
  unfolding link_unpin unpin_each err_set_pin
  err_link_pin dir = unpin_each (link_unpin ops dir_fd) p.links dir >>= err_set_pin

  -- The errno, or 0, and the directory.
  unfoldable pub program_pin : Dir → Result (ℕ × Dir)
  unfolding or_fail bpf_obj_pin map_pin link_pin pin_each err_cmap_pin err_pmap_pin err_set_pin
      err_link_pin
  program_pin dir =
      or_fail (bpf_obj_pin ops dir_fd p.prog_name p.prog_fd dir)
        (λ a.
          or_fail (map_pin ops dir_fd p.cmap a)
            (λ b.
              or_fail (map_pin ops dir_fd p.pmap b)
                (λ c.
                  or_fail (pin_each (map_pin ops dir_fd) p.sets c)
                    (λ d.
                      or_fail (pin_each (link_pin ops dir_fd) p.links d) (stop 0)
                        (at_label err_link_pin))
                    (at_label err_set_pin))
                (at_label err_pmap_pin))
            (at_label err_cmap_pin))
        stop

  unfoldable pub program_unpin : Dir → Result Dir
  unfolding map_unpin link_unpin unpin_each
  program_unpin dir = do
    b ← map_unpin ops dir_fd p.pmap (ops.unlink p.prog_name dir).1
    c ← map_unpin ops dir_fd p.cmap b
    d ← unpin_each (map_unpin ops dir_fd) p.sets c
    unpin_each (link_unpin ops dir_fd) p.links d
