-- ===== src/Prog/Stored/Names.antt =====
-- The names of a program's objects, under which they are pinned.
use bpfilter.Prelude.{
  ℕ, zero, suc, refl, ◌∙◌, ◌%◌, ◌/◌, map, Bool, true, false, ◌≢◌, ◌<◌, ◌≤◌, ◌≡◌, sym, ap, subst,
  List, [], ◌∷◌, ◌++◌, arith, length, length-append, ltb, ◌&&◌,
}
use bpfilter.Result.{Result, ok, assert, >>=-eq-ok, ok_injective}
use bpfilter.Bytes.{IsString, c_string}
use bpfilter.Chain.{Chain}
use bpfilter.Chain.RoundTrip.{IsText}
use bpfilter.Set.{KeySet}
use bpfilter.Strings.{strncpy, hex, hex_digit}
use bpfilter.Prog.{System}
use bpfilter.Prog.Map.{BpfMap, map_new, obj_name_len, is_named, size_unknown}
use bpfilter.Prog.Ident.{genid, prog_id_len}
use bpfilter.Prog.Ident.Bounds.{genid_fits, take_short, hex-IsString, All-++, c_string-strncpy}
use bpfilter.Prog.Stored.{
  StoredProgram, with_suffix, prog_suffix, cmap_suffix, pmap_suffix, set_maps, set_suffix,
  program_new,
}

-- A suffix of four characters fits behind an identifier.
with_suffix-whole :
    (id suffix : List ℕ)
    → length id < prog_id_len
    → length suffix ≤ 4
    → with_suffix id suffix ≡ id ++ suffix
with_suffix-whole id suffix h k =
    take_short 15 (id ++ suffix) (omega (arith, length-append id suffix))

map_new-name :
    (sys : System) (name : List ℕ) (type bpf_type key value n : ℕ) (map : BpfMap)
    → map_new sys name type bpf_type key value n ≡ ok map
    → map.name ≡ strncpy sys.fresh_name obj_name_len name
unfolding map_new
map_new-name sys name type bpf_type key value n map h =
    let (u, e, f) = >>=-eq-ok (assert (is_named name)) _ h in
    let (w, g, k) = >>=-eq-ok (assert (ltb 0 key && (ltb 0 value && ltb 0 n))) _ f in
    sym (ap (λ (m : BpfMap). m.name) (ok_injective k))

-- The identifier with the suffix of each of `n` sets, from the index `index` on.
abbrev pub set_names : List ℕ → ℕ → ℕ → List (Result (List ℕ))
set_names id index zero = []
set_names id index (suc n) = ok (id ++ set_suffix index) ∷ set_names id (suc index) n

length-hex : (width n : ℕ) → length (hex width n) ≡ width
unfolding hex
length-hex zero n = refl
length-hex (suc width) n =
    omega (
      arith,
      length-append (hex width (n / 16)) (hex_digit (n % 16) ∷ []),
      length-hex width (n / 16),
    )

module _ (sys : System) (id : List ℕ) (fits : length id < prog_id_len) (s : IsString id) where
  named_map :
      (suffix : List ℕ) (type bpf_type key value n : ℕ) (map : BpfMap)
      → length suffix ≤ 4
      → IsString suffix
      → map_new sys (with_suffix id suffix) type bpf_type key value n ≡ ok map
      → c_string map.name ≡ ok (id ++ suffix)
  named_map suffix type bpf_type key value n map k v h =
      let whole = with_suffix-whole id suffix fits k in
      rw (map_new-name sys (with_suffix id suffix) type bpf_type key value n map h, whole)
        (c_string-strncpy sys.fresh_name (id ++ suffix) 16
          (omega (arith, length-append id suffix, fits)) (All-++ (λ c. 0 < c) id suffix s v))

  -- The names of the maps for the sets from the index `index` on.
  set_maps-names :
      (index : ℕ) (sets : List KeySet) (maps : List BpfMap)
      → set_maps sys id index sets ≡ ok maps
      → map (λ (m : BpfMap). c_string m.name) maps ≡ set_names id index (length sets)
  unfolding set_maps
  set_maps-names index [] maps h = ap (map λ (m : BpfMap). c_string m.name) (sym (ok_injective h))
  set_maps-names index (set ∷ sets) maps h =
      let (m, e, f) =
        >>=-eq-ok
          (map_new sys (with_suffix id (set_suffix index)) 2 1 set.elem_size 1 (length set.elems)) _
          h in
      let (others, g, k) = >>=-eq-ok (set_maps sys id (suc index) sets) _ f in
      let whole =
        named_map (set_suffix index) 2 1 set.elem_size 1 (length set.elems) m
          (omega (arith, length-hex 2 (index % 256)))
          (omega arith, (omega arith, hex-IsString 2 (index % 256))) e in
      ap (map λ (m : BpfMap). c_string m.name) (sym (ok_injective k))
      ∙ ap (λ n. n ∷ map (λ (m : BpfMap). c_string m.name) others) whole
      ∙ ap (◌∷◌ (ok (id ++ set_suffix index))) (set_maps-names (suc index) sets others g)

-- If bf_program_new succeeds for a chain, then the program, the maps of the counters and of the messages
-- and the maps of the sets have the whole identifier and their suffix as name. The suffix of a set's map
-- has the last eight bits of the set's index.
pub program_new-names :
    (sys : System) (hook front : ℕ) (chain : Chain) (p : StoredProgram)
    → IsText chain.hook_opts.name
    → program_new sys hook front chain ≡ ok p
    → (p.prog_name ≡ p.id ++ prog_suffix)
      × (c_string p.cmap.name ≡ ok (p.id ++ cmap_suffix))
      × (c_string p.pmap.name ≡ ok (p.id ++ pmap_suffix))
      × (map (λ (m : BpfMap). c_string m.name) p.sets ≡ set_names p.id 0 (length chain.sets))
      × (length p.id < prog_id_len)
unfolding program_new
program_new-names sys hook front chain p t h =
    let (u, h₀, k₀) = >>=-eq-ok (assert (ltb hook 10)) _ h in
    let (id, h₁, k₁) = >>=-eq-ok (genid sys hook chain) _ k₀ in
    let (cmap, h₂, k₂) = >>=-eq-ok (map_new sys (with_suffix id cmap_suffix) 0 0 4 16 1) _ k₁ in
    let (pmap, h₃, k₃) =
      >>=-eq-ok (map_new sys (with_suffix id pmap_suffix) 1 0 4 size_unknown 1) _ k₂ in
    let (sets, h₄, k₄) = >>=-eq-ok (set_maps sys id 0 chain.sets) _ k₃ in
    let (fits, s) = genid_fits sys hook chain id t h₁ in
    subst
      (λ q.
        (q.prog_name ≡ q.id ++ prog_suffix)
        × (c_string q.cmap.name ≡ ok (q.id ++ cmap_suffix))
        × (c_string q.pmap.name ≡ ok (q.id ++ pmap_suffix))
        × (map (λ (m : BpfMap). c_string m.name) q.sets ≡ set_names q.id 0 (length chain.sets))
        × (length q.id < prog_id_len))
      (ok_injective k₄)
      (
        with_suffix-whole id prog_suffix fits (omega arith),
        named_map sys id fits s cmap_suffix 0 0 4 16 1 cmap (omega arith) (omega arith) h₂,
        named_map sys id fits s pmap_suffix 1 0 4 size_unknown 1 pmap (omega arith) (omega arith)
            h₃,
        set_maps-names sys id fits s 0 chain.sets sets h₄,
        fits,
      )

no_elems :
    (sys : System) (name : List ℕ) (type bpf_type key value : ℕ) (map : BpfMap)
    → map_new sys name type bpf_type key value 0 ≢ ok map
unfolding map_new
no_elems sys name type bpf_type key value map h =
    let (u, e, f) = >>=-eq-ok (assert (is_named name)) _ h in
    let (w, g, k) = >>=-eq-ok (assert (ltb 0 key && (ltb 0 value && ltb 0 0))) _ f in
    never (ltb 0 key) (ltb 0 value) g
  where
    never : (a b : Bool) → assert (a && (b && false)) ≢ ok tt
    never true true g = cc
    never true false g = cc
    never false b g = cc

set_maps-no_elems :
    (sys : System) (id : List ℕ) (index : ℕ) (before after : List KeySet) (set : KeySet)
    (maps : List BpfMap)
    → set.elems ≡ []
    → set_maps sys id index (before ++ (set ∷ after)) ≢ ok maps
unfolding set_maps
set_maps-no_elems sys id index [] after set maps e h =
    let (map, f, k) =
      >>=-eq-ok
        (map_new sys (with_suffix id (set_suffix index)) 2 1 set.elem_size 1 (length set.elems)) _
        h in
    no_elems sys (with_suffix id (set_suffix index)) 2 1 set.elem_size 1 map (
      subst (λ n. map_new sys (with_suffix id (set_suffix index)) 2 1 set.elem_size 1 n ≡ ok map)
        (ap length e) f)
set_maps-no_elems sys id index (x ∷ before) after set maps e h =
    let (map, f, k) =
      >>=-eq-ok (map_new sys (with_suffix id (set_suffix index)) 2 1 x.elem_size 1 (length x.elems))
        _ h in
    let (rest, g, l) = >>=-eq-ok (set_maps sys id (suc index) (before ++ (set ∷ after))) _ k in
    set_maps-no_elems sys id (suc index) before after set rest e g

-- No program is made for a chain that has a set without elements: bf_program_new does not return
-- success, whatever the hook and the other sets are.
pub program_new-no_elems :
    (sys : System) (hook front : ℕ) (chain : Chain) (before after : List KeySet) (set : KeySet)
    (p : StoredProgram)
    → chain.sets ≡ before ++ (set ∷ after)
    → set.elems ≡ []
    → program_new sys hook front chain ≢ ok p
unfolding program_new
program_new-no_elems sys hook front chain before after set p e n h =
    let (u, h₀, k₀) = >>=-eq-ok (assert (ltb hook 10)) _ h in
    let (id, h₁, k₁) = >>=-eq-ok (genid sys hook chain) _ k₀ in
    let (cmap, h₂, k₂) = >>=-eq-ok (map_new sys (with_suffix id cmap_suffix) 0 0 4 16 1) _ k₁ in
    let (pmap, h₃, k₃) =
      >>=-eq-ok (map_new sys (with_suffix id pmap_suffix) 1 0 4 size_unknown 1) _ k₂ in
    let (sets, h₄, k₄) = >>=-eq-ok (set_maps sys id 0 chain.sets) _ k₃ in
    set_maps-no_elems sys id 0 before after set sets n
      (subst (λ l. set_maps sys id 0 l ≡ ok sets) e h₄)
