-- ===== src/Marsh.antt =====
-- src/core/marsh.h and src/core/marsh.c: serialised data as nested length-prefixed blocks.
-- A marsh that is built is a record. One that is read is an offset in a memory block, as the
-- code walks the children in place. A pointer is an offset, as if the block stood at the address 0.
-- What is built is smaller than 2^64 bytes, but a length that is read can be any.
pub mod Children
pub mod Loop
pub mod Endless
pub mod Safety
use bpfilter.Prelude.{
  ℕ, zero, suc, ◌+◌, ◌/◌, ◌%◌, ◌^◌, Bool, true, false, ◌||◌, List, [], ◌∷◌, ◌++◌, Option, none,
  some, ltb, ◌==◌, if◌then◌else◌, length, take, drop,
}
use bpfilter.Result.{Result, ok, err, fault, ◌>>=◌, einval}
use bpfilter.Bytes.{le, of_le, load}

-- `struct bf_marsh`, with `data` the flexible array member.
pub record Marsh : Type 0 where
  pub data_len : ℕ
  pub content : List ℕ

-- `sizeof(struct bf_marsh)`
abbrev pub header_size : ℕ
header_size = 8

-- A NULL `data` is an empty list.
unfoldable pub marsh_new : List ℕ → Marsh
marsh_new bytes = record { data_len = length bytes; content = bytes }

pub marsh_size : Marsh → ℕ
marsh_size m = header_size + m.data_len

-- The object as it lies in memory: the header, then the data.
unfoldable pub image : Marsh → List ℕ
image m = le header_size m.data_len ++ m.content

unfoldable pub add_child_obj : Marsh → Marsh → Marsh
unfolding marsh_size image
add_child_obj m obj = record {
  data_len = m.data_len + marsh_size obj;
  content = take m.data_len m.content ++ take (marsh_size obj) (image obj);
}

unfoldable pub add_child_raw : Marsh → List ℕ → Marsh
unfolding add_child_obj marsh_new
add_child_raw m bytes = add_child_obj m (marsh_new bytes)

-- `marsh->data_len` of the marsh at `p`; a header that is not in the block is a fault.
unfoldable pub data_len : List ℕ → ℕ → Result ℕ
data_len b p = do header ← load b p header_size; ok (of_le header)

unfoldable pub is_empty : List ℕ → ℕ → Result Bool
unfolding data_len
is_empty b p = do n ← data_len b p; ok (n == 0)

-- `data_len` is any number of 64 bits, and the sum wraps.
unfoldable pub marsh_end : List ℕ → ℕ → Result ℕ
unfolding data_len
marsh_end b p = do n ← data_len b p; ok ((p + header_size + n) % 2 ^ 64)

-- The tests stand in the order of the code: `child`'s length is read last. The sum with `sizeof` does
-- not wrap, since no header reaches behind the last address.
unfoldable pub child_is_valid : List ℕ → ℕ → ℕ → Result Bool
unfolding marsh_end
child_is_valid b m child = if ltb child (m + header_size) then ok false else (do
  last ← marsh_end b m
  if ltb last child
      then ok false
      else if ltb last (child + header_size)
      then ok false
      else (do child_last ← marsh_end b child; ok (if ltb last child_last then false else true)))

abbrev pub next_start : List ℕ → ℕ → Option ℕ → Result ℕ
next_start b m none = ok (m + header_size)
next_start b m (some child) = marsh_end b child

-- No child is `none`, which is NULL both as the argument and as the result.
unfoldable pub next_child : List ℕ → ℕ → Option ℕ → Result (Option ℕ)
unfolding child_is_valid marsh_end
next_child b m child = do
  next ← next_start b m child
  valid ← child_is_valid b m next
  ok (if valid then some next else none)

-- `if (!(child = bf_marsh_next_child(marsh, child))) return -EINVAL;`
unfoldable pub require_child : List ℕ → ℕ → Option ℕ → Result ℕ
require_child b m child = do
  next ← next_child b m child
  elim next [ none ↦ err einval | some c ↦ ok c ]

-- `memcpy(&x, child->data, n)` into an unsigned integer of `n` bytes. The code does not compare
-- `n` with the child's own length.
unfoldable pub load_uint : List ℕ → ℕ → ℕ → Result ℕ
load_uint b c n = do bytes ← load b (c + header_size) n; ok (of_le bytes)

-- `while ((elem = bf_marsh_next_child(marsh, elem))) { ... }`: the body's results, in order.
-- The first failure of the body ends the loop. Running out of fuel is a `fault`.
unfoldable pub each_child {ℓ} :
    {A : Type ℓ} → ℕ → (ℕ → Result A) → List ℕ → ℕ → Option ℕ → Result (List A)
each_child zero body b m child = fault
each_child (suc fuel) body b m child = do
  next ← next_child b m child
  elim next [
    | none ↦ ok []
    | some c ↦ do x ← body c; xs ← each_child fuel body b m (some c); ok (x ∷ xs)
  ]

-- A child takes at least the eight bytes of its header. Where an end wraps, the walk can come back to a
-- child and is endless; then it runs out of fuel.
unfoldable pub all_children {ℓ} : {A : Type ℓ} → (ℕ → Result A) → List ℕ → ℕ → Result (List A)
unfolding each_child data_len
all_children body b m = do n ← data_len b m; each_child (suc (n / header_size)) body b m none

-- The same loop where the body updates a state. Running out of fuel is a `fault`.
unfoldable pub fold_child {ℓ} :
    {S : Type ℓ} → ℕ → (S → ℕ → Result S) → S → List ℕ → ℕ → Option ℕ → Result S
fold_child zero body s b m child = fault
fold_child (suc fuel) body s b m child = do
  next ← next_child b m child
  elim next [ none ↦ ok s | some c ↦ do t ← body s c; fold_child fuel body t b m (some c) ]

unfoldable pub fold_children {ℓ} : {S : Type ℓ} → (S → ℕ → Result S) → S → List ℕ → ℕ → Result S
unfolding fold_child data_len
fold_children body s b m = do n ← data_len b m; fold_child (suc (n / header_size)) body s b m none

-- bf_list_marsh (src/core/list.c): each element's marsh is appended as a child.
unfoldable pub list_marsh {ℓ} : {A : Type ℓ} → (A → Marsh) → List A → Marsh → Marsh
list_marsh f [] m = m
list_marsh f (x ∷ xs) m = list_marsh f xs (add_child_obj m (f x))
