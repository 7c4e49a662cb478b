-- ===== src/Prog/Link.antt =====
-- src/bpfilter/cgen/prog/link.c: what attaches a program to its hook, and the serialised form.
use bpfilter.Prelude.{ℕ, Option, none, some, List, [], ◌∷◌, ◌+◌, ◌==◌, if◌then◌else◌, Bool}
use bpfilter.Result.{Result, ok, err, fault, ◌>>=◌, ◌>>◌, assert, e2big}
use bpfilter.Bytes.{le, load, c_string}
use bpfilter.Marsh.{
  Marsh, header_size, marsh_new, add_child_raw, require_child, next_child, load_uint,
}
use bpfilter.Prog.{System, bpf_obj_get}
use bpfilter.Strings.{strncpy}
use bpfilter.Prog.Map.{obj_name_len, is_named}
pub mod RoundTrip

-- `struct bf_link`; `name` is the array with its 16 bytes, and -1 in `fd` is `none`.
pub record Link : Type 0 where
  pub name : List ℕ
  pub hook : ℕ
  pub fd : Option ℕ

unfoldable pub link_new : System → List ℕ → ℕ → Result Link
link_new sys name hook = do
  assert (is_named name)
  ok (record { name = strncpy sys.fresh_name obj_name_len name; hook = hook; fd = none })

-- `if (dir_fd != -1)`: the descriptor of a pinned link.
abbrev pinned_fd : System → List ℕ → Option ℕ → Result (Option ℕ)
pinned_fd sys name none = ok none
pinned_fd sys name (some dir_fd) = do
  path ← c_string name
  fd ← bpf_obj_get sys path dir_fd
  ok (some fd)

-- A `dir_fd` of -1 is `none`.
unfoldable pub link_new_from_marsh : System → Option ℕ → List ℕ → ℕ → Result Link
unfolding bpf_obj_get
link_new_from_marsh sys dir_fd b m = do
  c ← require_child b m none
  name ← load b (c + header_size) obj_name_len
  c ← require_child b m (some c)
  hook ← load_uint b c 4
  next ← next_child b m (some c)
  elim next [
    | some extra ↦ err e2big
    | none ↦ do fd ← pinned_fd sys name dir_fd; ok (record { name = name; hook = hook; fd = fd })
  ]

unfoldable pub link_marsh : Link → Marsh
link_marsh link = let a = add_child_raw (marsh_new []) link.name in add_child_raw a (le 4 link.hook)
