-- ===== src/Prog/Stored.antt =====
-- src/bpfilter/cgen/program.c: bf_program_new, bf_program_marsh and bf_program_unmarsh.
-- The code of the program is the block of its bytes here, as the serialisation copies it.
use bpfilter.Prelude.{
  ℕ, suc, ◌+◌, ◌*◌, ◌/◌, ◌%◌, ◌^◌, List, [], ◌∷◌, ◌++◌, Option, none, some, ltb, length, take,
}
use bpfilter.Result.{Result, ok, err, fault, ◌>>=◌, ◌>>◌, assert}
use bpfilter.Bytes.{le, load}
use bpfilter.Marsh.{
  Marsh, header_size, marsh_new, add_child_raw, add_child_obj, require_child, load_uint, data_len,
  all_children, list_marsh,
}
use bpfilter.Set.{KeySet}
use bpfilter.Chain.{Chain}
use bpfilter.Printer.{Msg, printer_marsh, printer_new_from_marsh}
use bpfilter.Strings.{clip, hex}
use bpfilter.Prog.{System, bpf_obj_get}
use bpfilter.Prog.Map.{
  BpfMap, obj_name_len, type_counters, type_printer, type_set, bpf_type_array, bpf_type_hash,
  size_unknown, map_new, map_new_from_marsh, map_marsh,
}
use bpfilter.Prog.Link.{Link, link_new_from_marsh, link_marsh}
use bpfilter.Prog.Ident.{genid}
pub mod RoundTrip
pub mod Names

-- `struct bf_program` outside of the generation. `img_size` and `img_cap` count instructions of eight
-- bytes; a descriptor of -1 is `none`.
pub record StoredProgram : Type 0 where
  pub id : List ℕ
  pub hook : ℕ
  pub front : ℕ
  pub prog_name : List ℕ
  pub printer : List Msg
  pub cmap : BpfMap
  pub pmap : BpfMap
  pub sets : List BpfMap
  pub links : List Link
  pub num_counters : ℕ
  pub img : List ℕ
  pub img_size : ℕ
  pub img_cap : ℕ
  pub prog_fd : Option ℕ

-- `snprintf(name, BPF_OBJ_NAME_LEN, "%s<suffix>", id)`
abbrev pub with_suffix : List ℕ → List ℕ → List ℕ
with_suffix id suffix = clip obj_name_len (id ++ suffix)

abbrev pub prog_suffix : List ℕ
prog_suffix = b'_' ∷ b'p' ∷ b'r' ∷ b'g' ∷ []

abbrev pub cmap_suffix : List ℕ
cmap_suffix = b'_' ∷ b'c' ∷ b'm' ∷ b'p' ∷ []

abbrev pub pmap_suffix : List ℕ
pmap_suffix = b'_' ∷ b'p' ∷ b'm' ∷ b'p' ∷ []

-- "_s%02x" of the set's index as a uint8_t
abbrev pub set_suffix : ℕ → List ℕ
set_suffix index = b'_' ∷ b's' ∷ hex 2 (index % 256)

-- The loop over the sets of the chain, from the index `index` on.
unfoldable pub set_maps : System → List ℕ → ℕ → List KeySet → Result (List BpfMap)
unfolding map_new
set_maps sys id index [] = ok []
set_maps sys id index (set ∷ sets) = do
  map ←
      map_new sys (with_suffix id (set_suffix index)) type_set bpf_type_hash set.elem_size 1
        (length set.elems)
  maps ← set_maps sys id (suc index) sets
  ok (map ∷ maps)

-- The assertion is bf_flavor_ops_get's.
unfoldable pub program_new : System → ℕ → ℕ → Chain → Result StoredProgram
unfolding genid set_maps map_new
program_new sys hook front chain = do
  assert (ltb hook 10)
  id ← genid sys hook chain
  cmap ← map_new sys (with_suffix id cmap_suffix) type_counters bpf_type_array 4 16 1
  pmap ← map_new sys (with_suffix id pmap_suffix) type_printer bpf_type_array 4 size_unknown 1
  sets ← set_maps sys id 0 chain.sets
  ok (record {
    id = id;
    hook = hook;
    front = front;
    prog_name = with_suffix id prog_suffix;
    printer = [];
    cmap = cmap;
    pmap = pmap;
    sets = sets;
    links = [];
    num_counters = 0;
    img = [];
    img_size = 0;
    img_cap = 0;
    prog_fd = none;
  })

unfoldable pub program_marsh : StoredProgram → Marsh
program_marsh p =
    let a = add_child_raw (marsh_new []) (le 4 p.hook) in
    let b = add_child_raw a (le 4 p.front) in
    let c = add_child_obj b (map_marsh p.cmap) in
    let d = add_child_obj c (map_marsh p.pmap) in
    let e = add_child_obj d (list_marsh map_marsh p.sets (marsh_new [])) in
    let f = add_child_obj e (list_marsh link_marsh p.links (marsh_new [])) in
    let g = add_child_obj f (printer_marsh p.printer) in
    let h = add_child_raw g (le 8 p.num_counters) in add_child_raw h (take (p.img_size * 8) p.img)

unfoldable pub program_unmarsh : System → List ℕ → ℕ → Chain → Result StoredProgram
program_unmarsh sys b m chain = do
  c ← require_child b m none
  hook ← load_uint b c 4
  c ← require_child b m (some c)
  front ← load_uint b c 4
  program ← program_new sys hook front chain
  dir_fd ← sys.open_dir program.id
  c ← require_child b m (some c)
  cmap ← map_new_from_marsh sys dir_fd b c
  c ← require_child b m (some c)
  pmap ← map_new_from_marsh sys dir_fd b c
  c ← require_child b m (some c)
  sets ← all_children (map_new_from_marsh sys dir_fd b) b c
  c ← require_child b m (some c)
  links ← all_children (link_new_from_marsh sys (some dir_fd) b) b c
  c ← require_child b m (some c)
  printer ← printer_new_from_marsh b c
  c ← require_child b m (some c)
  num_counters ← load_uint b c 8
  c ← require_child b m (some c)
  n ← data_len b c
  img ← load b (c + header_size) n
  prog_fd ← bpf_obj_get sys program.prog_name dir_fd
  ok (record program {
    cmap = cmap;
    pmap = pmap;
    sets = sets;
    links = program.links ++ links;
    printer = printer;
    num_counters = num_counters;
    img = img;
    img_size = n / 8;
    img_cap = n / 8;
    prog_fd = some prog_fd;
  })
