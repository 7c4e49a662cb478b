-- ===== src/Linked.antt =====
-- src/core/list.c: the nodes and pointers of a list, on an explicit heap. The addresses that `calloc` gives
-- are arguments.
use bpfilter.Prelude.{
  ℕ, zero, suc, ◌+◌, ◌-◌, ◌%◌, ◌^◌, Bool, List, [], ◌∷◌, Option, none, some, ◌==◌, if◌then◌else◌,
}
use bpfilter.Result.{Result, ok, fault, ◌>>=◌}
pub mod Segments
pub mod Refines
pub mod Splice
pub mod Relink
pub mod Delete

-- `struct bf_list_node`; NULL is `none`.
pub record Node : Type 0 where
  pub node_data : ℕ
  pub prev : Option ℕ
  pub next : Option ℕ

-- `struct bf_list`, but for its callbacks.
pub record Linked : Type 0 where
  pub len : ℕ
  pub head : Option ℕ
  pub tail : Option ℕ

abbrev pub Heap : Type 0
Heap = ℕ → Option Node

unfoldable pub write : Heap → ℕ → Node → Heap
write h a node b = if b == a then some node else h b

-- Reading through a pointer; reading a node that is not there is a fault.
unfoldable pub read : Heap → ℕ → Result Node
read h a = elim (h a) [ none ↦ fault | some node ↦ ok node ]

-- `node->next = next` and `node->prev = prev`
unfoldable pub set_next : Heap → ℕ → Option ℕ → Result Heap
unfolding write read
set_next h a next = do node ← read h a; ok (write h a (record node { next = next }))

unfoldable pub set_prev : Heap → ℕ → Option ℕ → Result Heap
unfolding write read
set_prev h a prev = do node ← read h a; ok (write h a (record node { prev = prev }))

-- bf_list_init
abbrev pub list_init : Linked
list_init = record { len = 0; head = none; tail = none }

-- bf_list_node_new at the address `a`
unfoldable pub node_new : Heap → ℕ → ℕ → Heap
unfolding write
node_new h a x = write h a (record { node_data = x; prev = none; next = none })

-- `if (b) b->prev = node;`
abbrev pub link_prev : Heap → Option ℕ → Option ℕ → Result Heap
link_prev h none prev = ok h
link_prev h (some b) prev = set_prev h b prev

abbrev pub link_next : Heap → Option ℕ → Option ℕ → Result Heap
link_next h none next = ok h
link_next h (some b) next = set_next h b next

-- `if (!end) end = node;`
abbrev pub or_node : Option ℕ → ℕ → Option ℕ
or_node none a = some a
or_node (some b) a = some b

-- bf_list_add_head
unfoldable pub add_head : Heap → Linked → ℕ → ℕ → Result (Heap × Linked)
unfolding node_new set_next set_prev
add_head h list a x = do
  h₁ ← set_next (node_new h a x) a list.head
  h₂ ← link_prev h₁ list.head (some a)
  ok (h₂, record { len = (list.len + 1) % 2 ^ 64; head = some a; tail = or_node list.tail a })

-- bf_list_add_tail
unfoldable pub add_tail : Heap → Linked → ℕ → ℕ → Result (Heap × Linked)
unfolding node_new set_next set_prev
add_tail h list a x = do
  h₁ ← set_prev (node_new h a x) a list.tail
  h₂ ← link_next h₁ list.tail (some a)
  ok (h₂, record { len = (list.len + 1) % 2 ^ 64; head = or_node list.head a; tail = some a })

-- The loop of bf_list_get_at with `bf_list_foreach`, which reads each node that it comes to. The fuel is the
-- number of rounds.
unfoldable pub walk : Heap → ℕ → Option ℕ → ℕ → Result (Option ℕ)
unfolding read
walk h fuel none index = ok none
walk h zero (some a) index = fault
walk h (suc fuel) (some a) index = do
  node ← read h a
  let rest = walk h fuel node.next (index - 1) in
      if index == 0 then ok (some node.node_data) else rest

-- bf_list_get_at; a list of `len` nodes takes as many rounds.
unfoldable pub get_at : Heap → Linked → ℕ → Result (Option ℕ)
unfolding walk
get_at h list index = walk h list.len list.head index

-- `end == node`
abbrev pub is_end : Option ℕ → ℕ → Bool
is_end none a = 0 == 1
is_end (some b) a = b == a

unfoldable pub release : Heap → ℕ → Heap
release h a b = if b == a then none else h b

-- The writes of bf_list_delete to the neighbours of the node at `a`, which is read again behind the first one.
unfoldable pub relink : Heap → ℕ → Option ℕ → Option ℕ → Result Heap
unfolding read set_next set_prev
relink h a prev next = do
  h₁ ← link_next h prev next
  node ← read h₁ a
  link_prev h₁ node.next node.prev

-- bf_list_delete of the node at `a`
unfoldable pub delete : Heap → Linked → ℕ → Result (Heap × Linked)
unfolding read relink release
delete h list a = do
  node ← read h a
  h₂ ← relink h a node.prev node.next
  ok (
    release h₂ a,
    record {
      len = (list.len + (2 ^ 64 - 1)) % 2 ^ 64;
      head = if is_end list.head a then node.next else list.head;
      tail = if is_end list.tail a then node.prev else list.tail;
    },
  )
