-- ===== src/Linked/Refines.antt =====
-- The operations of a list, seen as operations on the sequence that it stands for.
use bpfilter.Prelude.{
  ℕ, zero, suc, ◌+◌, ◌-◌, ◌%◌, ◌^◌, ◌<◌, ◌≡◌, ◌≢◌, refl, sym, ap, ◌∙◌, false, [], ◌∷◌, ◌++◌, length,
  Option, none, some, ◌==◌, map, get_elem?, arith, length-append,
}
use bpfilter.Result.{ok, ◌>>=◌, Gives}
use bpfilter.Linked.{
  Node, Linked, Heap, write, read, set_next, set_prev, node_new, add_head, add_tail, walk, get_at,
}
use bpfilter.Linked.Segments.{
  Cells, first, last_from, last, IsSegment, IsApart, Shows, write_same, write_other,
  IsSegment-write, IsSegment-free, last_node, last_from_ne, last_from-append, IsApart-append,
  IsSegment-append,
}

pub set_next-write :
    (h : Heap) (a : ℕ) (node : Node) (next : Option ℕ)
    → h a ≡ some node
    → set_next h a next ≡ ok (write h a (record node { next = next }))
unfolding set_next read
set_next-write h a node next e = rw (e, read) refl

pub set_prev-write :
    (h : Heap) (a : ℕ) (node : Node) (prev : Option ℕ)
    → h a ≡ some node
    → set_prev h a prev ≡ ok (write h a (record node { prev = prev }))
unfolding set_prev read
set_prev-write h a node prev e = rw (e, read) refl

-- If a list stands for some cells, fewer than 2^64 - 1, and an address is free, bf_list_add_head with a node at that address
-- succeeds, and the list stands for the new cell in front of the others.
pub add_head_lem :
    (h : Heap) (list : Linked) (cells : Cells) (a x : ℕ)
    → Shows h list cells
    → h a ≡ none
    → length cells + 1 < 2 ^ 64
    → Gives (add_head h list a x) (λ r. Shows r.0 r.1 ((a, x) ∷ cells))
unfolding add_head node_new IsSegment IsApart
add_head_lem h list [] a x s free fits =
    let new : Node = record { node_data = x; prev = none; next = none } in
    let h₀ = write h a new in
    let linked : Node = record new { next = none } in
    (
      (write h₀ a linked, record { len = (list.len + 1) % 2 ^ 64; head = some a; tail = some a }),
      rw (s.starts, s.ends, set_next-write h₀ a new none (write_same h a new)) refl,
      record {
        counts = omega (arith, fits, s.counts);
        starts = refl;
        ends = refl;
        linked = (write_same h₀ a linked, tt);
        apart = (tt, tt);
      },
    )
add_head_lem h list (c ∷ cs) a x s free fits =
    let new : Node = record { node_data = x; prev = none; next = none } in
    let h₀ = write h a new in
    let linked : Node = record new { next = some c.0 } in
    let h₁ = write h₀ a linked in
    let old : Node = record { node_data = c.1; prev = none; next = first cs } in
    let behind : Node = record old { prev = some a } in
    let ne = IsSegment-free h a none (c ∷ cs) free s.linked in
    let there : h₁ c.0 ≡ some old =
      write_other h₀ a c.0 linked ne.0 ∙ write_other h a c.0 new ne.0 ∙ s.linked.0 in
    (
      (
        write h₁ c.0 behind,
        record { len = (list.len + 1) % 2 ^ 64; head = some a; tail = last (c ∷ cs) },
      ),
      rw
          (
            s.starts,
            s.ends,
            set_next-write h₀ a new (some c.0) (write_same h a new),
            ◌>>=◌,
            set_prev-write h₁ c.0 old (some a) there,
          )
          refl,
      record {
        counts = omega (arith, fits, s.counts);
        starts = refl;
        ends = refl;
        linked = (
          write_other h₁ c.0 a behind (λ e. ne.0 (sym e)) ∙ write_same h₀ a linked,
          (
            write_same h₁ c.0 behind,
            IsSegment-write h₁ c.0 behind (some c.0) cs s.apart.0 (
                IsSegment-write h₀ a linked (some c.0) cs ne.1
                  (IsSegment-write h a new (some c.0) cs ne.1 s.linked.1)),
          ),
        );
        apart = (ne, s.apart);
      },
    )

-- If a list stands for some cells, fewer than 2^64 - 1, and an address is free, bf_list_add_tail with a node at that address
-- succeeds, and the list stands for the new cell behind the others.
pub add_tail_lem :
    (h : Heap) (list : Linked) (cells : Cells) (a x : ℕ)
    → Shows h list cells
    → h a ≡ none
    → length cells + 1 < 2 ^ 64
    → Gives (add_tail h list a x) (λ r. Shows r.0 r.1 (cells ++ (a, x) ∷ []))
unfolding add_tail node_new IsSegment IsApart
add_tail_lem h list [] a x s free fits =
    let new : Node = record { node_data = x; prev = none; next = none } in
    let h₀ = write h a new in
    (
      (write h₀ a new, record { len = (list.len + 1) % 2 ^ 64; head = some a; tail = some a }),
      rw (s.starts, s.ends, set_prev-write h₀ a new none (write_same h a new)) refl,
      record {
        counts = omega (arith, fits, s.counts);
        starts = refl;
        ends = refl;
        linked = (write_same h₀ a new, tt);
        apart = (tt, tt);
      },
    )
add_tail_lem h list (c ∷ cs) a x s free fits =
    let t = last_from c.0 cs in
    let new : Node = record { node_data = x; prev = none; next = none } in
    let h₀ = write h a new in
    let linked : Node = record new { prev = some t } in
    let h₁ = write h₀ a linked in
    let ne = IsSegment-free h a none (c ∷ cs) free s.linked in
    let other : t ≢ a = last_from_ne a c cs ne in
    let (node, e) = last_node h none c cs s.linked in
    let there : h₁ t ≡ some node =
      write_other h₀ a t linked other ∙ write_other h a t new other ∙ e in
    let h₂ = write h₁ t (record node { next = some a }) in
    let same : (b : ℕ) → b ≢ a → b ≢ t → h₂ b ≡ h b =
      λ b n m. write_other h₁ t b _ m ∙ write_other h₀ a b linked n ∙ write_other h a b new n in
    (
      (h₂, record { len = (list.len + 1) % 2 ^ 64; head = some c.0; tail = some a }),
      rw
          (
            s.starts,
            s.ends,
            set_prev-write h₀ a new (some t) (write_same h a new),
            ◌>>=◌,
            set_next-write h₁ t node (some a) there,
          )
          refl,
      record {
        counts = omega (arith, fits, s.counts, length-append (c ∷ cs) ((a, x) ∷ []));
        starts = refl;
        ends = ap some (sym (last_from-append c.0 a x cs));
        linked =
            IsSegment-append h h₂ a x none c cs node s.linked s.apart ne same e (write_same h₁ t _)
              (write_other h₁ t a _ (λ f. other (sym f)) ∙ write_same h₀ a linked);
        apart = IsApart-append a x (c ∷ cs) ne s.apart;
      },
    )

walk-get_elem? :
    (h : Heap) (prev : Option ℕ) (cells : Cells) (index : ℕ)
    → IsSegment h prev cells
    → walk h (length cells) (first cells) index
      ≡ ok (get_elem? (map (λ (c : ℕ × ℕ). c.1) cells) index)
unfolding walk read IsSegment
walk-get_elem? h prev [] index s = refl
walk-get_elem? h prev (c ∷ cs) zero s = rw (s.0, read, ◌>>=◌) refl
walk-get_elem? h prev (c ∷ cs) (suc i) s =
    let later : (suc i == 0) ≡ false = ground arith in
    let before : suc i - 1 ≡ i = omega arith in
    rw (s.0, read, ◌>>=◌, later, before) (walk-get_elem? h (some c.0) cs i s.1)

-- If a list stands for some cells, bf_list_get_at gives the data of the cell at the index, or NULL when
-- there are not that many.
pub get_at_lem :
    (h : Heap) (list : Linked) (cells : Cells) (index : ℕ)
    → Shows h list cells
    → get_at h list index ≡ ok (get_elem? (map (λ (c : ℕ × ℕ). c.1) cells) index)
unfolding get_at
get_at_lem h list cells index s =
    rw (s.counts, s.starts) (walk-get_elem? h none cells index s.linked)
