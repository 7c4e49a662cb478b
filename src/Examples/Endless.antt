-- ===== src/Examples/Endless.antt =====
-- A block whose only child is its own next child.
use bpfilter.Prelude.{ℕ, ◌-◌, ◌^◌, ◌≡◌, refl, List, ◌++◌, none, some}
use bpfilter.Result.{ok, fault}
use bpfilter.Bytes.{le, of_le, load}
use bpfilter.Marsh.{data_len, marsh_end, child_is_valid, next_child, each_child}
use bpfilter.Marsh.Endless.{each_child_endless}

-- A child that states 2^64 - 8 as its length.
abbrev own_child : List ℕ
own_child = le 8 8 ++ le 8 (2 ^ 64 - 8)

own_child-len : data_len own_child 8 ≡ ok (2 ^ 64 - 8)
unfolding data_len load of_le le
own_child-len = refl

own_child-first : next_child own_child 0 none ≡ ok (some 8)
unfolding next_child child_is_valid marsh_end data_len load of_le le
own_child-first = refl

each_child_endless_example : each_child 1000 (λ c. ok c) own_child 0 none ≡ fault
each_child_endless_example =
    each_child_endless own_child 0 8 own_child-len (λ c. ok c) 8 1000 none refl own_child-first
