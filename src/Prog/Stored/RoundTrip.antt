-- ===== src/Prog/Stored/RoundTrip.antt =====
-- The serialised form of a program, written and read.
use bpfilter.Prelude.{
  ℕ, ◌*◌, ◌/◌, ◌^◌, ◌<◌, ◌≡◌, ap, sym, List, [], ◌∷◌, ◌++◌, Option, none, some, length,
  length-append, arith, append_assoc, append-nil, All, map, take, ltb,
}
use bpfilter.Result.{ok, ◌>>=◌, assert, >>=-eq-ok, ok_injective}
use bpfilter.Bytes.{le, At}
use bpfilter.Marsh.{list_marsh, marsh_new, all_children}
use bpfilter.Marsh.Children.{
  enc, children, add_child_raw-marsh_new, add_child_obj-marsh_new, Visits-start,
  require_child-Visits, object-Visits, field-Visits, load-child, data_len-At, length-enc, take_all,
}
use bpfilter.Marsh.Loop.{all_children_back, list_marsh-marsh_new}
use bpfilter.Chain.{Chain}
use bpfilter.Printer.RoundTrip.{printer_bytes, printer_marsh_lem, printer_new_from_marsh-At}
use bpfilter.Printer.RoundTrip as PrinterTrip
use bpfilter.Prog.{System, bpf_obj_get}
use bpfilter.Prog.Map.{map_new, map_new_from_marsh, map_marsh}
use bpfilter.Prog.Map.RoundTrip.{map_bytes, map_marsh_lem, map_new_from_marsh-At}
use bpfilter.Prog.Map.RoundTrip as MapTrip
use bpfilter.Prog.Link.{Link, link_new_from_marsh, link_marsh}
use bpfilter.Prog.Link.RoundTrip.{link_bytes, link_marsh_lem, link_new_from_marsh-At}
use bpfilter.Prog.Link.RoundTrip as LinkTrip
use bpfilter.Prog.Ident.{genid}
use bpfilter.Prog.Stored.{
  StoredProgram, set_maps, program_new, program_marsh, program_unmarsh, with_suffix, cmap_suffix,
  pmap_suffix, size_unknown,
}

-- The fields of a program fit their types, its names are those that its chain gives, and its objects
-- are pinned in the directory of its identifier.
pub record IsValid (sys : System) (chain : Chain) (p : StoredProgram) : Type 0 where
  pub hook_fits : p.hook < 2 ^ 32
  pub front_fits : p.front < 2 ^ 32
  pub counters_fit : p.num_counters < 2 ^ 64
  pub whole_img : length p.img ≡ 8 * p.img_size
  pub base : StoredProgram
  pub made : program_new sys p.hook p.front chain ≡ ok base
  pub same_id : base.id ≡ p.id
  pub same_name : base.prog_name ≡ p.prog_name
  pub dir_fd : ℕ
  pub dir : sys.open_dir p.id ≡ ok dir_fd
  pub valid_cmap : MapTrip.IsValid sys dir_fd p.cmap
  pub valid_pmap : MapTrip.IsValid sys dir_fd p.pmap
  pub valid_sets : All (MapTrip.IsValid sys dir_fd) p.sets
  pub valid_links : All (LinkTrip.IsValid sys dir_fd) p.links
  pub valid_printer : All PrinterTrip.IsValid p.printer
  pub descriptor : ℕ
  pub has_fd : p.prog_fd ≡ some descriptor
  pub found : bpf_obj_get sys p.prog_name dir_fd ≡ ok descriptor

program_fields : StoredProgram → List (List ℕ)
program_fields p =
    le 4 p.hook
    ∷ le 4 p.front
    ∷ map_bytes p.cmap
    ∷ map_bytes p.pmap
    ∷ children (map map_bytes p.sets)
    ∷ children (map link_bytes p.links)
    ∷ printer_bytes p.printer
    ∷ le 8 p.num_counters
    ∷ p.img
    ∷ []

pub program_bytes : StoredProgram → List ℕ
unfolding program_fields
program_bytes p = children (program_fields p)

pub program_bytes-pos : (p : StoredProgram) → 0 < length (program_bytes p)
unfolding program_bytes
program_bytes-pos p =
    let rest = children (
      le 4 p.front
      ∷ map_bytes p.cmap
      ∷ map_bytes p.pmap
      ∷ children (map map_bytes p.sets)
      ∷ children (map link_bytes p.links)
      ∷ printer_bytes p.printer
      ∷ le 8 p.num_counters
      ∷ p.img
      ∷ []) in
    omega (arith, length-append (enc (le 4 p.hook)) rest, length-enc (le 4 p.hook))

take_whole : (xs : List ℕ) (n : ℕ) → n ≡ length xs → take n xs ≡ xs
take_whole xs n e = rw e (take_all xs)

module _ (sys : System) (chain : Chain) where
  pub program_marsh_lem :
      (p : StoredProgram) → IsValid sys chain p → program_marsh p ≡ marsh_new (program_bytes p)
  unfolding program_marsh program_bytes
  program_marsh_lem p v =
      let sets : list_marsh map_marsh p.sets (marsh_new [])
          ≡ marsh_new (children (map map_bytes p.sets)) =
        list_marsh-marsh_new (MapTrip.IsValid sys v.dir_fd) map_marsh map_bytes p.sets []
          v.valid_sets (λ m h. map_marsh_lem m) in
      let links : list_marsh link_marsh p.links (marsh_new [])
          ≡ marsh_new (children (map link_bytes p.links)) =
        list_marsh-marsh_new (LinkTrip.IsValid sys v.dir_fd) link_marsh link_bytes p.links []
          v.valid_links (λ l h. link_marsh_lem l) in
      let whole = take_whole p.img (p.img_size * 8) (omega (arith, v.whole_img)) in
      simp (
        sets,
        links,
        whole,
        printer_marsh_lem p.printer v.valid_printer,
        map_marsh_lem,
        add_child_raw-marsh_new,
        add_child_obj-marsh_new,
        append_assoc,
        append-nil,
      )

  -- A new program has the hook and the front that it is made for, and no links.
  program_new-fields :
      (hook front : ℕ) (base : StoredProgram)
      → program_new sys hook front chain ≡ ok base
      → (base.hook ≡ hook) × (base.front ≡ front) × (base.links ≡ [])
  unfolding program_new
  program_new-fields hook front base h =
      let (u, h₀, k₀) = >>=-eq-ok (assert (ltb hook 10)) _ h in
      let (id, h₁, k₁) = >>=-eq-ok (genid sys hook chain) _ k₀ in
      let (cmap, h₂, k₂) = >>=-eq-ok (map_new sys (with_suffix id cmap_suffix) 0 0 4 16 1) _ k₁ in
      let (pmap, h₃, k₃) =
        >>=-eq-ok (map_new sys (with_suffix id pmap_suffix) 1 0 4 size_unknown 1) _ k₂ in
      let (sets, h₄, k₄) = >>=-eq-ok (set_maps sys id 0 chain.sets) _ k₃ in
      let e = ok_injective k₄ in
      (
        ap (λ (x : StoredProgram). x.hook) (sym e),
        ap (λ (x : StoredProgram). x.front) (sym e),
        ap (λ (x : StoredProgram). x.links) (sym e),
      )

same_program :
    (p : StoredProgram) (hook front : ℕ) (links : List Link) (n : ℕ) (fd : Option ℕ)
    → hook ≡ p.hook
    → front ≡ p.front
    → links ≡ p.links
    → n ≡ p.img_size
    → fd ≡ p.prog_fd
    → record p {
      hook = hook;
      front = front;
      links = links;
      img_size = n;
      img_cap = n;
      prog_fd = fd;
    }
      ≡ record p { img_cap = p.img_size }
same_program p hook front links n fd b c e f g = λ i. record p {
  hook = b i;
  front = c i;
  links = e i;
  img_size = f i;
  img_cap = f i;
  prog_fd = g i;
}

rounds_back : (n x : ℕ) → x ≡ 8 * n → x / 8 ≡ n
rounds_back n x e = omega (arith, e)

module _ (b : List ℕ) (fits : length b < 2 ^ 64) (sys : System) (chain : Chain) where
  pub program_unmarsh-At :
      (c : ℕ) (p : StoredProgram)
      → IsValid sys chain p
      → At b c (enc (program_bytes p))
      → program_unmarsh sys b c chain ≡ ok (record p { img_cap = p.img_size })
  unfolding program_unmarsh program_bytes
  program_unmarsh-At c p v a =
      let d = v.dir_fd in
      let (hook, front, no_links) = program_new-fields sys chain p.hook p.front v.base v.made in
      field-Visits b fits c none 4 p.hook _ _ _ v.hook_fits
        (Visits-start b fits c (program_fields p) a)
        λ c₁ v₁. field-Visits b fits c (some c₁) 4 p.front _ _ _ v.front_fits v₁ λ c₂ v₂.
          rw (v.made, ◌>>=◌, v.same_id, v.dir, ◌>>=◌)
            (object-Visits b fits c (some c₂) _ _ _ p.cmap _ _
              (λ x h. map_new_from_marsh-At b fits sys d x p.cmap v.valid_cmap h) v₂
              λ c₃ v₃.
                object-Visits b fits c (some c₃) _ _ _ p.pmap _ _
                  (λ x h. map_new_from_marsh-At b fits sys d x p.pmap v.valid_pmap h) v₃
                  λ c₄ v₄. object-Visits b fits c (some c₄) _ _ _ p.sets _ _ sets v₄ λ c₅ v₅.
                    object-Visits b fits c (some c₅) _ _ _ p.links _ _ links v₅ λ c₆ v₆.
                      object-Visits b fits c (some c₆) _ _ _ p.printer _ _
                        (λ x h. printer_new_from_marsh-At b fits x p.printer v.valid_printer h) v₆
                        λ c₇ v₇.
                          field-Visits b fits c (some c₇) 8 p.num_counters _ _ _ v.counters_fit v₇
                            λ c₈ v₈. require_child-Visits b fits c (some c₈) _ _ _ _ v₈ λ c₉ a₉ v₉.
                              rw
                                (
                                  data_len-At b fits c₉ p.img a₉,
                                  load-child b fits c₉ p.img a₉,
                                  ◌>>=◌,
                                  v.same_name,
                                  v.found,
                                  ◌>>=◌,
                                )
                                (ap ok (
                                  same_program p _ _ (v.base.links ++ p.links) _ _ hook front
                                    (ap (λ l. l ++ p.links) no_links)
                                    (rounds_back p.img_size _ v.whole_img) (sym v.has_fd))))
    where
      sets :
          (x : ℕ)
          → At b x (enc (children (map map_bytes p.sets)))
          → all_children (map_new_from_marsh sys v.dir_fd b) b x ≡ ok p.sets
      sets x h =
          all_children_back b fits (MapTrip.IsValid sys v.dir_fd) map_bytes
            (map_new_from_marsh sys v.dir_fd b) x p.sets v.valid_sets h
            (map_new_from_marsh-At b fits sys v.dir_fd)

      links :
          (x : ℕ)
          → At b x (enc (children (map link_bytes p.links)))
          → all_children (link_new_from_marsh sys (some v.dir_fd) b) b x ≡ ok p.links
      links x h =
          all_children_back b fits (LinkTrip.IsValid sys v.dir_fd) link_bytes
            (link_new_from_marsh sys (some v.dir_fd) b) x p.links v.valid_links h
            (link_new_from_marsh-At b fits sys v.dir_fd)
