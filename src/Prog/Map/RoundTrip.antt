-- ===== src/Prog/Map/RoundTrip.antt =====
-- The serialised form of a map, written and read.
use bpfilter.Prelude.{
  ℕ, ◌^◌, ◌<◌, ◌≡◌, ap, sym, Option, List, [], ◌∷◌, none, some, length, append_assoc, append-nil,
}
use bpfilter.Result.{ok, ◌>>=◌}
use bpfilter.Bytes.{le, At, c_string}
use bpfilter.Marsh.{marsh_new}
use bpfilter.Marsh.Children.{
  enc, children, add_child_raw-marsh_new, Visits-start, require_child-Visits, load-child,
  field-Visits, next_child-Visits_nil,
}
use bpfilter.Prog.{System, bpf_obj_get}
use bpfilter.Prog.Map.{BpfMap, obj_name_len, map_new_from_marsh, map_marsh}

-- An object is pinned: its array holds a string, under which the directory has the descriptor.
pub record IsPinned (sys : System) (dir_fd fd : ℕ) (name : List ℕ) : Type 0 where
  pub name_fits : length name ≡ obj_name_len
  pub path : List ℕ
  pub is_string : c_string name ≡ ok path
  pub found : bpf_obj_get sys path dir_fd ≡ ok fd

-- The fields fit their types, and the map is pinned with its descriptor.
pub record IsValid (sys : System) (dir_fd : ℕ) (map : BpfMap) : Type 0 where
  pub type_fits : map.type < 2 ^ 32
  pub bpf_type_fits : map.bpf_type < 2 ^ 32
  pub key_size_fits : map.key_size < 2 ^ 64
  pub value_size_fits : map.value_size < 2 ^ 64
  pub n_elems_fits : map.n_elems < 2 ^ 64
  pub descriptor : ℕ
  pub has_fd : map.fd ≡ some descriptor
  pub pinned : IsPinned sys dir_fd descriptor map.name

map_fields : BpfMap → List (List ℕ)
map_fields map =
    le 4 map.type
    ∷ map.name
    ∷ le 4 map.bpf_type
    ∷ le 8 map.key_size
    ∷ le 8 map.value_size
    ∷ le 8 map.n_elems
    ∷ []

pub map_bytes : BpfMap → List ℕ
unfolding map_fields
map_bytes map = children (map_fields map)

pub map_marsh_lem : (map : BpfMap) → map_marsh map ≡ marsh_new (map_bytes map)
unfolding map_marsh map_bytes
map_marsh_lem map = simp (add_child_raw-marsh_new, append_assoc, append-nil)

same_but_fd : (map : BpfMap) (fd : Option ℕ) → fd ≡ map.fd → record map { fd = fd } ≡ map
same_but_fd map fd e = λ i. record map { fd = e i }

module _ (b : List ℕ) (fits : length b < 2 ^ 64) (sys : System) (dir_fd : ℕ) where
  pub map_new_from_marsh-At :
      (c : ℕ) (map : BpfMap)
      → IsValid sys dir_fd map
      → At b c (enc (map_bytes map))
      → map_new_from_marsh sys dir_fd b c ≡ ok map
  unfolding map_new_from_marsh map_bytes
  map_new_from_marsh-At c map v a =
      let p = v.pinned in
      field-Visits b fits c none 4 map.type _ _ _ v.type_fits
        (Visits-start b fits c (map_fields map) a)
        λ c₁ v₁. require_child-Visits b fits c (some c₁) _ _ _ _ v₁ λ c₂ a₂ v₂.
          rw (rw p.name_fits at (load-child b fits c₂ map.name a₂), ◌>>=◌)
            (field-Visits b fits c (some c₂) 4 map.bpf_type _ _ _ v.bpf_type_fits v₂ λ c₃ v₃.
              field-Visits b fits c (some c₃) 8 map.key_size _ _ _ v.key_size_fits v₃ λ c₄ v₄.
                field-Visits b fits c (some c₄) 8 map.value_size _ _ _ v.value_size_fits v₄ λ c₅ v₅.
                  field-Visits b fits c (some c₅) 8 map.n_elems _ _ _ v.n_elems_fits v₅ λ c₆ v₆.
                    rw
                      (
                        next_child-Visits_nil b fits c (some c₆) v₆,
                        p.is_string,
                        ◌>>=◌,
                        p.found,
                        ◌>>=◌,
                      )
                      (ap ok (same_but_fd map _ (sym v.has_fd))))
