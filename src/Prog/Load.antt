-- ===== src/Prog/Load.antt =====
-- src/bpfilter/cgen/program.c: bf_program_load, with the functions that create and fill the maps of a
-- program, and the directories around _bf_program_pin and _bf_program_unpin; bf_ensure_dir of
-- src/core/io.c. On an error the new program is freed by the caller, so it is not returned.
use bpfilter.Prelude.{
  ℕ, zero, suc, ◌-◌, ◌^◌, Bool, List, [], ◌∷◌, ◌++◌, Option, none, some, ◌==◌, if◌then◌else◌,
  length, map,
}
use bpfilter.Result.{Result, ok, err, fault, einval, enoent, eperm}
use bpfilter.Bytes.{load}
use bpfilter.Strings.{clip, codes}
use bpfilter.Hook.Types.{to_bpf_prog_type, to_attach_type}
use bpfilter.Set.{KeySet}
use bpfilter.Chain.{Chain}
use bpfilter.Printer.{assemble}
use bpfilter.Cgen.{Program, counters_map_fd, printer_map_fd, set_map_fd}
use bpfilter.Cgen.Patch.{program_fixup}
use bpfilter.Cgen.Image.{img_bytes}
use bpfilter.Prog.{System}
use bpfilter.Prog.Map.{BpfMap, obj_name_len, create_attr, map_set_value_size, map_set_n_elems}
use bpfilter.Prog.Link.{Link}
use bpfilter.Prog.Stored.{StoredProgram}
use bpfilter.Prog.Pin.{program_pin, program_unpin}
use bpfilter.Prog.Calls.{Io, ◌>>=◌, ◌>>◌, lift, ret, Calls}
use bpfilter.Prog.Attach.{attach_prog}
pub mod Attached
pub mod Keeps
pub mod Rollback

-- The two views of one `struct bf_program`: what is stored of it, and what its generation works on.
pub record Loading : Type 0 where
  pub prog : StoredProgram
  pub code : Program

-- A descriptor as the bits of an int.
abbrev pub fd_bits : Option ℕ → ℕ
fd_bits none = 2 ^ 32 - 1
fd_bits (some fd) = fd

abbrev pub map_fd : BpfMap → ℕ
map_fd map = fd_bits map.fd

-- BF_PIN_DIR
abbrev pub pin_dir : List ℕ
pin_dir = codes "/sys/fs/bpf/bpfilter"

-- PATH_MAX
abbrev path_max : ℕ
path_max = 4096

-- "%s/%s" and "%s/%s_tmp"
abbrev pub dir_of : List ℕ → List ℕ
dir_of id = clip path_max (pin_dir ++ b'/' ∷ id)

abbrev pub tmp_dir_of : List ℕ → List ℕ
tmp_dir_of id = clip path_max (pin_dir ++ b'/' ∷ id ++ (b'_' ∷ b't' ∷ b'm' ∷ b'p' ∷ []))

-- The loop that fills `keys`.
unfoldable pub keys_of : ℕ → List (List ℕ) → Result (List ℕ)
keys_of size [] = ok []
keys_of size (elem ∷ elems) = join (load elem 0 size) (keys_of size elems)
  where
    join : Result (List ℕ) → Result (List ℕ) → Result (List ℕ)
    join (ok key) (ok keys) = ok (key ++ keys)
    join (ok key) other = other
    join other keys = other

-- The loop that fills `values`.
abbrev pub ones : ℕ → List ℕ
ones zero = []
ones (suc n) = 1 ∷ ones n

-- What a sequence of calls on a directory gives, as the end of the function that makes them.
abbrev pub outcome : {W : Type 0} → W → Result (ℕ × W) → Result (Unit {0}) × W
outcome w fault = (fault, w)
outcome w (err e) = (err e, w)
outcome w (ok (r, u)) = (if r == 0 then ok tt else err r, u)

abbrev pub done : {W : Type 0} → W → Result W → Result (Unit {0}) × W
done w fault = (fault, w)
done w (err e) = (err e, w)
done w (ok u) = (ok tt, u)

abbrev pub links_of : Option StoredProgram → List Link
links_of none = []
links_of (some old) = old.links

module _ {W : Type 0} (calls : Calls W) where
  -- bf_map_create
  unfoldable pub map_create : BpfMap → ℕ → Io W BpfMap
  map_create map flags = do
    attr ← lift (create_attr map flags)
    fd ← calls.map_create attr
    ret (record map { fd = some fd })

  -- The loop over the sets of the chain and the maps of the program.
  unfoldable pub load_sets : List KeySet → List BpfMap → Io W (List BpfMap)
  unfolding map_create keys_of
  load_sets [] maps = ret maps
  load_sets (set ∷ sets) [] = ret []
  load_sets (set ∷ sets) (map ∷ maps) = do
    created ← map_create map 0
    keys ← lift (keys_of set.elem_size set.elems)
    calls.update_batch created.fd keys (ones (length set.elems)) (length set.elems)
    others ← load_sets sets maps
    ret (created ∷ others)

  unfoldable pub load_sets_maps : Chain → Loading → Io W Loading
  unfolding load_sets
  load_sets_maps chain l = do
    maps ← load_sets chain.sets l.prog.sets
    code ← lift (program_fixup (record l.code { sets = map map_fd maps }) set_map_fd)
    ret (record { prog = record l.prog { sets = maps }; code = code })

  unfoldable pub load_counters_map : Loading → Io W Loading
  unfolding map_create
  load_counters_map l = do
    sized ← lift (map_set_n_elems l.prog.cmap l.code.num_counters)
    created ← map_create sized 0
    code ← lift (program_fixup (record l.code { cmap = map_fd created }) counters_map_fd)
    ret (record { prog = record l.prog { cmap = created }; code = code })

  -- The key is 0, in four bytes.
  unfoldable pub load_printer_map : (ℕ → List ℕ) → Loading → Io W Loading
  unfolding map_create
  load_printer_map malloc l = do
    pstr ← lift (assemble malloc l.code.printer)
    sized ← lift (map_set_value_size l.prog.pmap (length pstr))
    created ← map_create sized 0
    calls.update_elem created.fd (0 ∷ 0 ∷ 0 ∷ 0 ∷ []) pstr
    code ← lift (program_fixup (record l.code { pmap = map_fd created }) printer_map_fd)
    ret (record { prog = record l.prog { pmap = created }; code = code })

  -- bf_bpf_prog_load, and what the struct holds then.
  unfoldable pub prog_load : Loading → Io W StoredProgram
  prog_load l = do
    prog_type ← lift (to_bpf_prog_type l.prog.hook)
    attach_type ← lift (to_attach_type l.prog.hook)
    prog_fd ← calls.prog_load (record {
      prog_name = clip obj_name_len l.prog.prog_name;
      prog_type = prog_type;
      insns = l.code.img;
      attach_type = attach_type;
    })
    ret (record l.prog {
      printer = l.code.printer;
      num_counters = l.code.num_counters;
      img = img_bytes l.code.img;
      img_size = length l.code.img;
      img_cap = l.code.img_cap;
      prog_fd = some prog_fd;
    })

  -- bf_ensure_dir
  unfoldable pub ensure_dir : List ℕ → Io W (Unit {0})
  ensure_dir dir w =
      let (r, u) = calls.access dir w in
      let (is, v) = calls.is_dir dir u in
      if r == 0
      then (if is then ok tt else err einval, v)
      else if r == enoent
      then calls.mkdir dir u
      else (err r, u)

  -- _bf_program_pin
  unfoldable pub pin_objects : StoredProgram → Io W (Unit {0})
  unfolding ensure_dir
  pin_objects p = do
    ensure_dir pin_dir
    ensure_dir (dir_of p.id)
    dir_fd ← calls.open_pins (dir_of p.id)
    λ w. outcome w (program_pin (calls.pins dir_fd) dir_fd p w)

  unpin_in : StoredProgram → List ℕ → Result ℕ → Io W (Unit {0})
  unpin_in p dir (ok dir_fd) = do
    λ w. done w (program_unpin (calls.pins dir_fd) dir_fd p w)
    λ w. (ok tt, calls.rmdir dir w)
  unpin_in p dir (err e) = ret tt
  unpin_in p dir fault = lift fault

  -- _bf_program_unpin of a directory; one that cannot be opened is left alone.
  unfoldable pub unpin_objects : StoredProgram → List ℕ → Io W (Unit {0})
  unfolding unpin_in
  unpin_objects p dir w = let (r, u) = calls.open_pins dir w in unpin_in p dir r u

  -- `rename`, whose -1 is returned as an errno.
  unfoldable pub rename_dir : List ℕ → List ℕ → Io W (Unit {0})
  rename_dir from to w =
      let (moved, u) = calls.rename from to w in (if moved then ok tt else err eperm, u)

  -- The label `err_restore_old`: the error that is returned. Without an old program `dir` and `tmpdir`
  -- are not set.
  unfoldable pub restore_old : StoredProgram → Option StoredProgram → ℕ → Io W (List Link)
  restore_old p none e w = (fault, w)
  restore_old p (some old) e w = (err e, (calls.rename (tmp_dir_of p.id) (dir_of p.id) w).1)

  unfoldable pub or_restore :
      StoredProgram → Option StoredProgram → Result (List Link) × W → Result (List Link) × W
  unfolding restore_old
  or_restore p old (ok links, w) = (ok links, w)
  or_restore p old (err e, w) = restore_old p old e w
  or_restore p old (fault, w) = (fault, w)

  -- `if (chain->hook_opts.attach)`
  unfoldable pub attach_new :
      System → Chain → StoredProgram → Option StoredProgram → Io W (List Link)
  unfolding or_restore
  attach_new sys chain p old w =
      if chain.hook_opts.attach
      then or_restore p old (attach_prog calls sys p chain (links_of old) w)
      else (ok p.links, w)

  -- `if (old_prog && !bf_opts_transient())`
  unfoldable pub move_old : Bool → StoredProgram → Option StoredProgram → Io W (Unit {0})
  unfolding rename_dir
  move_old transient p none = ret tt
  move_old transient p (some old) =
      if transient then ret tt else rename_dir (dir_of p.id) (tmp_dir_of p.id)

  unpin_old : StoredProgram → Option StoredProgram → Io W (Unit {0})
  unfolding unpin_objects
  unpin_old p none = ret tt
  unpin_old p (some old) = unpin_objects old (tmp_dir_of p.id)

  -- `if (!bf_opts_transient())` at the end.
  unfoldable pub pin_new : Bool → StoredProgram → Option StoredProgram → Io W (Unit {0})
  unfolding pin_objects unpin_old
  pin_new transient p old = if transient then ret tt else do pin_objects p; unpin_old p old

  -- bf_program_load up to the pinning: the program with its links.
  unfoldable pub load_attached :
      System → (ℕ → List ℕ) → Bool → Chain → Loading → Option StoredProgram → Io W StoredProgram
  unfolding load_sets_maps load_counters_map load_printer_map prog_load move_old attach_new
  load_attached sys malloc transient chain l old = do
    a ← load_sets_maps chain l
    b ← load_counters_map a
    c ← load_printer_map malloc b
    p ← prog_load c
    move_old transient p old
    links ← attach_new sys chain p old
    ret (record p { links = links })

  -- bf_program_load
  unfoldable pub program_load :
      System → (ℕ → List ℕ) → Bool → Chain → Loading → Option StoredProgram → Io W StoredProgram
  unfolding load_attached pin_new
  program_load sys malloc transient chain l old = do
    p ← load_attached sys malloc transient chain l old
    pin_new transient p old
    ret p
