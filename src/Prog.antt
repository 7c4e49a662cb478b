-- ===== src/Prog.antt =====
-- What a program is made of besides its code, in src/bpfilter/cgen/prog/, src/bpfilter/cgen/program.c
-- and src/core/bpf.c: maps, links, names, and the objects that are pinned in the file system.
pub mod Map
pub mod Link
pub mod Ident
pub mod Stored
pub mod Unload
pub mod Pin
pub mod Calls
pub mod Attach
pub mod Load
use bpfilter.Prelude.{ℕ, Bool, true, List, [], ◌∷◌, ◌==◌, if◌then◌else◌}
use bpfilter.Result.{Result, ok, fault, ◌>>=◌, ◌>>◌, assert}

-- What the code calls outside of the repository, and the memory that it gets.
pub record System : Type 0 where
  -- `open` of the directory of this name in BF_PIN_DIR
  pub open_dir : List ℕ → Result ℕ
  -- BPF_OBJ_GET of a name in an open directory
  pub obj_get : List ℕ → ℕ → Result ℕ
  -- murmur3_x86_32 with seed 0
  pub murmur3 : List ℕ → ℕ
  -- What a name of BPF_OBJ_NAME_LEN bytes holds in memory from `malloc`
  pub fresh_name : List ℕ

-- `path[0] == '/'`
abbrev is_absolute : List ℕ → Bool
is_absolute [] = 0 == 1
is_absolute (c ∷ s) = c == b'/'

-- bf_bpf_obj_get
unfoldable pub bpf_obj_get : System → List ℕ → ℕ → Result ℕ
bpf_obj_get sys path dir_fd = do
  assert (if is_absolute path then dir_fd == 0 else true)
  sys.obj_get path dir_fd
