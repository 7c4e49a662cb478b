-- ===== src/Prog/Map.antt =====
-- src/bpfilter/cgen/prog/map.c: the maps of a program, and their serialised form.
use bpfilter.Prelude.{
  ℕ, ◌^◌, Bool, true, false, not, List, [], ◌∷◌, Option, none, some, ltb, ◌==◌, length,
  if◌then◌else◌, ◌-◌, ◌+◌, ◌%◌, ◌&&◌,
}
use bpfilter.Result.{Result, ok, err, fault, ◌>>=◌, ◌>>◌, assert, require, einval, e2big, eperm}
use bpfilter.Bytes.{le, load, c_string}
use bpfilter.Marsh.{
  Marsh, header_size, marsh_new, add_child_raw, require_child, next_child, load_uint,
}
use bpfilter.Prog.{System, bpf_obj_get}
use bpfilter.Strings.{strncpy}
pub mod RoundTrip

-- BPF_OBJ_NAME_LEN
abbrev pub obj_name_len : ℕ
obj_name_len = 16

-- `enum bf_map_type`: BF_MAP_TYPE_COUNTERS, BF_MAP_TYPE_PRINTER, BF_MAP_TYPE_SET
abbrev pub type_counters : ℕ
type_counters = 0

abbrev pub type_printer : ℕ
type_printer = 1

abbrev pub type_set : ℕ
type_set = 2

-- `enum bf_map_bpf_type`
abbrev pub bpf_type_array : ℕ
bpf_type_array = 0

abbrev pub bpf_type_hash : ℕ
bpf_type_hash = 1

-- SIZE_MAX, for BF_MAP_KEY_SIZE_UNKNOWN and the others
abbrev pub size_unknown : ℕ
size_unknown = 2 ^ 64 - 1

-- `struct bf_map`; `name` is the array with its 16 bytes, and -1 in `fd` is `none`.
pub record BpfMap : Type 0 where
  pub type : ℕ
  pub fd : Option ℕ
  pub name : List ℕ
  pub bpf_type : ℕ
  pub key_size : ℕ
  pub value_size : ℕ
  pub n_elems : ℕ

-- `name[0] != '\0'`
abbrev pub is_named : List ℕ → Bool
is_named [] = false
is_named (c ∷ s) = not (c == 0)

unfoldable pub map_new : System → List ℕ → ℕ → ℕ → ℕ → ℕ → ℕ → Result BpfMap
map_new sys name type bpf_type key_size value_size n_elems = do
  assert (is_named name)
  assert (ltb 0 key_size && (ltb 0 value_size && ltb 0 n_elems))
  ok (record {
    type = type;
    fd = none;
    name = strncpy sys.fresh_name obj_name_len name;
    bpf_type = bpf_type;
    key_size = key_size;
    value_size = value_size;
    n_elems = n_elems;
  })

unfoldable pub map_new_from_marsh : System → ℕ → List ℕ → ℕ → Result BpfMap
unfolding bpf_obj_get
map_new_from_marsh sys dir_fd b m = do
  c ← require_child b m none
  type ← load_uint b c 4
  c ← require_child b m (some c)
  name ← load b (c + header_size) obj_name_len
  c ← require_child b m (some c)
  bpf_type ← load_uint b c 4
  c ← require_child b m (some c)
  key_size ← load_uint b c 8
  c ← require_child b m (some c)
  value_size ← load_uint b c 8
  c ← require_child b m (some c)
  n_elems ← load_uint b c 8
  next ← next_child b m (some c)
  elim next [
    | some extra ↦ err e2big
    | none ↦ do
      path ← c_string name
      fd ← bpf_obj_get sys path dir_fd
      ok (record {
        type = type;
        fd = some fd;
        name = name;
        bpf_type = bpf_type;
        key_size = key_size;
        value_size = value_size;
        n_elems = n_elems;
      })
  ]

unfoldable pub map_marsh : BpfMap → Marsh
map_marsh map =
    let a = add_child_raw (marsh_new []) (le 4 map.type) in
    let b = add_child_raw a map.name in
    let c = add_child_raw b (le 4 map.bpf_type) in
    let d = add_child_raw c (le 8 map.key_size) in
    let e = add_child_raw d (le 8 map.value_size) in add_child_raw e (le 8 map.n_elems)

-- bf_map_set_key_size, bf_map_set_value_size and bf_map_set_n_elems: only before the map is created.
abbrev set_size : (ℕ → BpfMap) → Option ℕ → ℕ → Result BpfMap
set_size update (some fd) size = (assert (ltb 0 size) >> err eperm)
set_size update none size = do assert (ltb 0 size); ok (update size)

unfoldable pub map_set_key_size : BpfMap → ℕ → Result BpfMap
map_set_key_size map = set_size (λ n. record map { key_size = n }) map.fd

unfoldable pub map_set_value_size : BpfMap → ℕ → Result BpfMap
map_set_value_size map = set_size (λ n. record map { value_size = n }) map.fd

unfoldable pub map_set_n_elems : BpfMap → ℕ → Result BpfMap
map_set_n_elems map = set_size (λ n. record map { n_elems = n }) map.fd

-- bf_map_destroy: the descriptor is closed.
unfoldable pub map_destroy : BpfMap → BpfMap
map_destroy map = record map { fd = none }

-- `union bpf_attr` of BPF_MAP_CREATE, without the BTF data, which is optional.
pub record CreateAttr : Type 0 where
  pub map_type : ℕ
  pub key_size : ℕ
  pub value_size : ℕ
  pub max_entries : ℕ
  pub map_flags : ℕ
  pub map_name : List ℕ

-- BPF_MAP_TYPE_ARRAY, BPF_MAP_TYPE_HASH
unfoldable pub to_kernel_type : ℕ → Result ℕ
to_kernel_type bpf_type =
    if bpf_type == bpf_type_array then ok 2 else if bpf_type == bpf_type_hash then ok 1 else fault

-- bf_map_create up to the system call.
unfoldable pub create_attr : BpfMap → ℕ → Result CreateAttr
unfolding to_kernel_type
create_attr map flags = do
  require (not (map.key_size == size_unknown)) einval
  require (not (map.value_size == size_unknown)) einval
  require (not (map.n_elems == size_unknown)) einval
  map_type ← to_kernel_type map.bpf_type
  name ← c_string map.name
  ok (record {
    map_type = map_type;
    key_size = map.key_size % 2 ^ 32;
    value_size = map.value_size % 2 ^ 32;
    max_entries = map.n_elems % 2 ^ 32;
    map_flags = flags;
    map_name = name;
  })
