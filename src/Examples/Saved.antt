-- ===== src/Examples/Saved.antt =====
-- A context with the codegen of a cgroup's program, and its serialised form.
use bpfilter.Prelude.{
  ℕ, ◌+◌, ◌-◌, ◌^◌, ◌<◌, ◌≡◌, refl, List, [], ◌∷◌, ◌++◌, none, some, length, map, arith,
}
use bpfilter.Result.{ok}
use bpfilter.Bytes.{le, At-whole, c_string}
use bpfilter.Marsh.{image, marsh_new, add_child_raw, list_marsh}
use bpfilter.Hook.{has_flag}
use bpfilter.Matcher.{matcher_marsh}
use bpfilter.Rule.{rule_marsh}
use bpfilter.Set.{set_marsh, set_content}
use bpfilter.Chain.{chain_marsh, opts_marsh}
use bpfilter.Printer.{printer_marsh, msg_marsh}
use bpfilter.Strings.{strncpy, hex}
use bpfilter.Prog.{System, bpf_obj_get}
use bpfilter.Prog.Map.{BpfMap, map_new, map_marsh}
use bpfilter.Prog.Map.RoundTrip as MapTrip
use bpfilter.Prog.Link.{Link, link_marsh}
use bpfilter.Prog.Ident.{genid}
use bpfilter.Prog.Stored.{
  StoredProgram, program_new, program_marsh, set_maps, prog_suffix, cmap_suffix, pmap_suffix,
}
use bpfilter.Prog.Stored.RoundTrip as StoredTrip
use bpfilter.Codegen.{Codegen, cgen_marsh}
use bpfilter.Codegen.RoundTrip.{restored}
use bpfilter.Codegen.RoundTrip as CodegenTrip
use bpfilter.Ctx.{Ctx, ctx_marsh, ctx_new_from_marsh}
use bpfilter.Ctx.RoundTrip.{ctx_new_from_marsh-ctx_marsh}
use bpfilter.Ctx.RoundTrip as CtxTrip
use bpfilter.Examples.Serial.{web_chain, web_chain-IsValid, below}

-- Every object is pinned, and has the descriptor 3.
abbrev pub host : System
host = record {
  open_dir = λ name. ok 9;
  obj_get = λ name dir_fd. ok 3;
  murmur3 = λ text. 256 + length text;
  fresh_name = [];
}

abbrev pub stored_name : List ℕ → List ℕ
stored_name suffix = b'w' ∷ (suffix ++ 0 ∷ 0 ∷ 0 ∷ 0 ∷ 0 ∷ 0 ∷ 0 ∷ 0 ∷ 0 ∷ 0 ∷ 0 ∷ [])

abbrev pub stored_map : ℕ → List ℕ → BpfMap
stored_map type suffix = record {
  type = type;
  fd = some 3;
  name = stored_name suffix;
  bpf_type = 0;
  key_size = 4;
  value_size = 16;
  n_elems = 1;
}

abbrev stored_link : Link
stored_link = record { name = stored_name prog_suffix; hook = 5; fd = some 3 }

-- The program of the chain, with one instruction.
abbrev pub web_program : StoredProgram
web_program = record {
  id = b'w' ∷ [];
  hook = 5;
  front = 1;
  prog_name = (b'w' ∷ []) ++ prog_suffix;
  printer = record { offset = 0; len = 2; str = b'!' ∷ [] } ∷ [];
  cmap = stored_map 0 cmap_suffix;
  pmap = stored_map 1 pmap_suffix;
  sets = stored_map 2 cmap_suffix ∷ [];
  links = stored_link ∷ [];
  num_counters = 3;
  img = 149 ∷ 0 ∷ 0 ∷ 0 ∷ 0 ∷ 0 ∷ 0 ∷ 0 ∷ [];
  img_size = 1;
  img_cap = 8;
  prog_fd = some 3;
}

abbrev pub web_cgen : Codegen
web_cgen = record { front = 1; chain = web_chain; program = some web_program }

abbrev pub running : Ctx
running = [] ∷ [] ∷ [] ∷ [] ∷ [] ∷ (web_cgen ∷ []) ∷ [] ∷ [] ∷ [] ∷ [] ∷ []

abbrev new_map : ℕ → ℕ → List ℕ → ℕ → ℕ → ℕ → BpfMap
new_map type bpf_type suffix key_size value_size n_elems = record {
  type = type;
  fd = none;
  name = b'w' ∷ (suffix ++ 0 ∷ []);
  bpf_type = bpf_type;
  key_size = key_size;
  value_size = value_size;
  n_elems = n_elems;
}

-- What bf_program_new gives for the chain.
abbrev pub new_program : StoredProgram
new_program = record {
  id = b'w' ∷ [];
  hook = 5;
  front = 1;
  prog_name = (b'w' ∷ []) ++ prog_suffix;
  printer = [];
  cmap = new_map 0 0 cmap_suffix 4 16 1;
  pmap = new_map 1 0 pmap_suffix 4 (2 ^ 64 - 1) 1;
  sets = new_map 2 1 (b'_' ∷ b's' ∷ b'0' ∷ b'0' ∷ []) 4 1 2 ∷ [];
  links = [];
  num_counters = 0;
  img = [];
  img_size = 0;
  img_cap = 0;
  prog_fd = none;
}

pub new_program_made : program_new host 5 1 web_chain ≡ ok new_program
unfolding program_new genid set_maps map_new has_flag strncpy hex
new_program_made = refl

IsPinned-name :
    (suffix : List ℕ)
    → c_string (stored_name suffix) ≡ ok (b'w' ∷ suffix)
    → length (stored_name suffix) ≡ 16
    → MapTrip.IsPinned host 9 3 (stored_name suffix)
unfolding bpf_obj_get
IsPinned-name suffix e n = record {
  name_fits = n;
  path = b'w' ∷ suffix;
  is_string = e;
  found = refl;
}

map-IsValid :
    (type : ℕ) (suffix : List ℕ)
    → type < 2 ^ 32
    → MapTrip.IsPinned host 9 3 (stored_name suffix)
    → MapTrip.IsValid host 9 (stored_map type suffix)
map-IsValid type suffix h pinned = record {
  type_fits = h;
  bpf_type_fits = omega arith;
  key_size_fits = omega arith;
  value_size_fits = omega arith;
  n_elems_fits = omega arith;
  descriptor = 3;
  has_fd = refl;
  pinned = pinned;
}

IsPinned-cmap : MapTrip.IsPinned host 9 3 (stored_name cmap_suffix)
unfolding c_string
IsPinned-cmap = IsPinned-name cmap_suffix refl refl

IsPinned-pmap : MapTrip.IsPinned host 9 3 (stored_name pmap_suffix)
unfolding c_string
IsPinned-pmap = IsPinned-name pmap_suffix refl refl

IsPinned-link : MapTrip.IsPinned host 9 3 (stored_name prog_suffix)
unfolding c_string
IsPinned-link = IsPinned-name prog_suffix refl refl

web_program-IsValid : StoredTrip.IsValid host web_chain web_program
unfolding bpf_obj_get
web_program-IsValid = record {
  hook_fits = omega arith;
  front_fits = omega arith;
  counters_fit = omega arith;
  whole_img = refl;
  base = new_program;
  made = new_program_made;
  same_id = refl;
  same_name = refl;
  dir_fd = 9;
  dir = refl;
  valid_cmap = map-IsValid 0 cmap_suffix (omega arith) IsPinned-cmap;
  valid_pmap = map-IsValid 1 pmap_suffix (omega arith) IsPinned-pmap;
  valid_sets = (map-IsValid 2 cmap_suffix (omega arith) IsPinned-cmap, tt);
  valid_links = (
    record { hook_fits = omega arith; descriptor = 3; has_fd = refl; pinned = IsPinned-link },
    tt,
  );
  valid_printer = (
    record {
      offset_fits = omega arith;
      len_fits = omega arith;
      len_counts = refl;
      is_string = (omega arith, tt);
    },
    tt,
  );
  descriptor = 3;
  has_fd = refl;
  found = refl;
}

web_cgen-IsValid : CodegenTrip.IsValid host web_cgen
web_cgen-IsValid = record {
  front_fits = omega arith;
  valid_chain = web_chain-IsValid;
  valid_program = web_program-IsValid;
}

running-IsValid : CtxTrip.IsValid host running
running-IsValid = record {
  all_hooks = refl;
  valid_cgens = (tt, (tt, (tt, (tt, (tt, ((web_cgen-IsValid, tt), (tt, (tt, (tt, (tt, tt))))))))));
}

abbrev saved : List ℕ
saved = image (ctx_marsh running)

saved_fits : length (saved ++ []) < 2 ^ 64
unfolding image ctx_marsh cgen_marsh program_marsh map_marsh link_marsh printer_marsh msg_marsh
    chain_marsh opts_marsh set_marsh set_content rule_marsh matcher_marsh marsh_new add_child_raw
    list_marsh le
saved_fits = below _ _ refl

-- The context is read back, up to the room behind the code of its program.
ctx_new_from_marsh-ctx_marsh_example :
    ctx_new_from_marsh host (saved ++ []) 0 ≡ ok (map (map restored) running)
ctx_new_from_marsh-ctx_marsh_example =
    ctx_new_from_marsh-ctx_marsh (saved ++ []) saved_fits host 0 running running-IsValid
      (At-whole saved)
