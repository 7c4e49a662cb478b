-- ===== src/Set.antt =====
-- src/core/set.c: sets of keys of one size, and their serialised form.
use bpfilter.Prelude.{
  ℕ, zero, suc, ◌+◌, ◌*◌, ◌/◌, List, [], ◌∷◌, ◌++◌, Option, none, some, get_elem?, length, take,
}
use bpfilter.Result.{Result, ok, err, fault, ◌>>=◌}
use bpfilter.Bytes.{le, load}
use bpfilter.Marsh.{
  Marsh, header_size, marsh_new, add_child_raw, require_child, load_uint, data_len,
}
pub mod RoundTrip

-- `struct bf_set`; `elems` is the list of the elements' bytes.
pub record KeySet : Type 0 where
  pub type : ℕ
  pub elem_size : ℕ
  pub elems : List (List ℕ)

-- BF_SET_IP4, BF_SET_SRCIP6PORT, BF_SET_SRCIP6
abbrev elem_sizes : List ℕ
elem_sizes = 4 ∷ 18 ∷ 16 ∷ []

-- Reading behind the table is a fault.
unfoldable pub type_elem_size : ℕ → Result ℕ
type_elem_size type = elim (get_elem? elem_sizes type) [ none ↦ fault | some n ↦ ok n ]

unfoldable pub set_new : ℕ → Result KeySet
set_new type = do
  size ← type_elem_size type
  ok (record { type = type; elem_size = size; elems = [] })

-- The loop that copies the elements: `rounds` of them are left, the next one is at `p`.
unfoldable pub load_elems : List ℕ → ℕ → ℕ → ℕ → Result (List (List ℕ))
load_elems b p size zero = ok []
load_elems b p size (suc rounds) = do
  elem ← load b p size
  elems ← load_elems b (p + size) size rounds
  ok (elem ∷ elems)

unfoldable pub set_new_from_marsh : List ℕ → ℕ → Result KeySet
set_new_from_marsh b m = do
  c ← require_child b m none
  type ← load_uint b c 4
  set ← set_new type
  c ← require_child b m (some c)
  n ← data_len b c
  elems ← load_elems b (c + header_size) set.elem_size (n / set.elem_size)
  ok (record set { elems = set.elems ++ elems })

-- The buffer of `elem_size` bytes for each element.
unfoldable pub set_content : ℕ → List (List ℕ) → List ℕ
set_content size [] = []
set_content size (e ∷ es) = take size e ++ set_content size es

unfoldable pub set_marsh : KeySet → Marsh
unfolding set_content
set_marsh set =
    let m = add_child_raw (marsh_new []) (le 4 set.type) in
    add_child_raw m (set_content set.elem_size set.elems)

-- The element is copied from the caller's memory.
unfoldable pub set_add_elem : KeySet → List ℕ → ℕ → Result KeySet
set_add_elem set b p = do
  elem ← load b p set.elem_size
  ok (record set { elems = set.elems ++ elem ∷ [] })
