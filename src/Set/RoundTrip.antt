-- ===== src/Set/RoundTrip.antt =====
-- The serialised form of a set, written and read.
use bpfilter.Prelude.{
  length-append, ℕ, zero, suc, ◌+◌, ◌*◌, ◌/◌, ◌^◌, ◌<◌, ◌≡◌, refl, List, [], ◌∷◌, ◌++◌, none, some,
  length, arith, append_assoc, append-nil, All, take,
}
use native.Mathlib.Nat.{mul-div_cancel_left}
use bpfilter.Result.{ok, ◌>>=◌}
use bpfilter.Bytes.{le, load, At, load-At, At-left, At-right}
use bpfilter.Marsh.{marsh_new, image}
use bpfilter.Marsh.Children.{
  image-marsh_new, enc, children, add_child_raw-marsh_new, Visits-start, require_child-Visits,
  field-Visits, take_all, data_len-At, At-content,
}
use bpfilter.Set.{
  KeySet, type_elem_size, set_new, load_elems, set_new_from_marsh, set_content, set_marsh,
}

-- What `bf_set_new` and `bf_set_add_elem` keep: the size goes with the type, and every element has it.
pub record IsValid (set : KeySet) : Type 0 where
  pub known_type : type_elem_size set.type ≡ ok set.elem_size
  pub valid_elems : All (λ e. length e ≡ set.elem_size) set.elems

pub set_bytes : KeySet → List ℕ
set_bytes set = children (le 4 set.type ∷ set_content set.elem_size set.elems ∷ [])

pub set_marsh_lem : (set : KeySet) → set_marsh set ≡ marsh_new (set_bytes set)
unfolding set_marsh set_bytes
set_marsh_lem set = simp (add_child_raw-marsh_new, append_assoc, append-nil)

size_cases : (type size : ℕ) → type_elem_size type ≡ ok size → (type < 3) × (0 < size)
unfolding type_elem_size
size_cases zero size h = ground arith
size_cases (suc zero) size h = ground arith
size_cases (suc (suc zero)) size h = ground arith
size_cases (suc (suc (suc type))) size h = cc

take_whole : (size : ℕ) (e : List ℕ) → length e ≡ size → take size e ≡ e
take_whole size e h = rw h at (take_all e)

length-set_content :
    (size : ℕ) (es : List (List ℕ))
    → All (λ e. length e ≡ size) es
    → length (set_content size es) ≡ size * length es
unfolding set_content
length-set_content size [] h = omega arith
length-set_content size (e ∷ es) h =
    rw (take_whole size e h.0)
      (omega (arith, h.0, length-append e (set_content size es), length-set_content size es h.1))

rounds_back : (size n : ℕ) → 0 < size → size * n / size ≡ n
rounds_back size n h = mul-div_cancel_left n h

module _ (b : List ℕ) (fits : length b < 2 ^ 64) where
  load_elems-At :
      (p size : ℕ) (es : List (List ℕ))
      → All (λ e. length e ≡ size) es
      → At b p (set_content size es)
      → load_elems b p size (length es) ≡ ok es
  unfolding load_elems set_content
  load_elems-At p size [] h a = refl
  load_elems-At p size (e ∷ es) h a =
      let here : At b p (e ++ set_content size es) = rw (take_whole size e h.0) at a in
      let first : load b p size ≡ ok e =
        rw h.0 at (load-At e (At-left e (set_content size es) here)) in
      let behind : At b (p + size) (set_content size es) =
        rw h.0 at (At-right e (set_content size es) here) in
      rw (first, ◌>>=◌, load_elems-At (p + size) size es h.1 behind)

  pub set_new_from_marsh-At :
      (c : ℕ) (set : KeySet)
      → IsValid set
      → At b c (enc (set_bytes set))
      → set_new_from_marsh b c ≡ ok set
  unfolding set_new_from_marsh set_bytes set_new
  set_new_from_marsh-At c set v a =
      let (known, nonzero) = size_cases set.type set.elem_size v.known_type in
      field-Visits b fits c none 4 set.type _ _ _ (omega arith)
        (Visits-start b fits c (le 4 set.type ∷ set_content set.elem_size set.elems ∷ []) a)
        λ c₁ v₁.
          rw (v.known_type, ◌>>=◌)
            (require_child-Visits b fits c (some c₁) _ _ _ _ v₁ λ c₂ a₂ v₂.
              let n : length (set_content set.elem_size set.elems) / set.elem_size
                  ≡ length set.elems =
                rw (length-set_content set.elem_size set.elems v.valid_elems)
                  (rounds_back set.elem_size (length set.elems) nonzero) in
              rw (
                data_len-At b fits c₂ _ a₂,
                ◌>>=◌,
                n,
                load_elems-At (c₂ + 8) set.elem_size set.elems v.valid_elems
                    (At-content b fits c₂ _ a₂),
              ))

  -- A set whose element size goes with its type and whose elements have that size is read back from
  -- its serialised form as it was, wherever that form lies in a memory block smaller than
  -- 2^64 bytes.
  pub set_new_from_marsh-set_marsh :
      (c : ℕ) (set : KeySet)
      → IsValid set
      → At b c (image (set_marsh set))
      → set_new_from_marsh b c ≡ ok set
  set_new_from_marsh-set_marsh c set v a =
      set_new_from_marsh-At c set v (rw (set_marsh_lem set, image-marsh_new) at a)
