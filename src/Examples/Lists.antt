-- ===== src/Examples/Lists.antt =====
-- A list of two nodes in a heap.
use bpfilter.Prelude.{◌≡◌, refl, [], ◌∷◌, none, some, arith, ◌==◌, if◌then◌else◌}
use bpfilter.Result.{ok, Gives}
use bpfilter.Linked.{Linked, Heap, add_head, add_tail, get_at, delete}
use bpfilter.Linked.Segments.{Cells, IsSegment, IsApart, Shows}
use bpfilter.Linked.Delete.{delete_lem}
use bpfilter.Linked.Refines.{add_head_lem, add_tail_lem, get_at_lem}

-- The nodes are at 16 and 48.
abbrev heap : Heap
heap a =
    if a == 16
    then some (record { node_data = 5; prev = none; next = some 48 })
    else if a == 48
    then some (record { node_data = 7; prev = some 16; next = none })
    else none

abbrev two : Linked
two = record { len = 2; head = some 16; tail = some 48 }

abbrev cells : Cells
cells = (16, 5) ∷ (48, 7) ∷ []

two-Shows : Shows heap two cells
unfolding IsSegment IsApart
two-Shows = record {
  counts = refl;
  starts = refl;
  ends = refl;
  linked = (refl, (refl, tt));
  apart = ((omega arith, tt), (tt, tt));
}

add_head_lem_example :
    Gives (add_head heap two 80 9) (λ r. Shows r.0 r.1 ((80, 9) ∷ (16, 5) ∷ (48, 7) ∷ []))
add_head_lem_example = add_head_lem heap two cells 80 9 two-Shows refl (omega arith)

add_tail_lem_example :
    Gives (add_tail heap two 80 9) (λ r. Shows r.0 r.1 ((16, 5) ∷ (48, 7) ∷ (80, 9) ∷ []))
add_tail_lem_example = add_tail_lem heap two cells 80 9 two-Shows refl (omega arith)

get_at_lem_example : get_at heap two 1 ≡ ok (some 7)
get_at_lem_example = get_at_lem heap two cells 1 two-Shows

delete_lem_example :
    Gives (delete heap two 16) (λ r. Shows r.0 r.1 ((48, 7) ∷ []) × (r.0 16 ≡ none))
delete_lem_example = delete_lem heap two [] ((48, 7) ∷ []) 16 5 two-Shows (omega arith)
