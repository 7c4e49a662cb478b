-- ===== src/Linked/Relink.antt =====
-- What the writes of bf_list_delete change in the heap.
use bpfilter.Prelude.{ℕ, ◌≡◌, ◌≢◌, refl, sym, ap, ◌∙◌, Option, none, some, arith, some_injective}
use bpfilter.Result.{◌>>=◌, Gives}
use bpfilter.Linked.{Node, Heap, write, read, release, relink}
use bpfilter.Linked.Segments.{write_same, write_other}
use bpfilter.Linked.Refines.{set_next-write, set_prev-write}
use bpfilter.Linked.Splice.{Unlinks}

-- A neighbour is a node other than the one that is removed.
abbrev pub IsNeighbour : Heap → ℕ → Option ℕ → Type 0
IsNeighbour h a none = Unit {0}
IsNeighbour h a (some b) = (node : Node) × (h b ≡ some node) × (b ≢ a)

release_other : (h : Heap) (a b : ℕ) → b ≢ a → release h a b ≡ h b
unfolding release
release_other h a b ne = ground (arith, ne)

updated :
    (h h' : Heap) (b b' : ℕ) (node node' : Node) (update : Node → Node)
    → some b ≡ some b'
    → h b ≡ some node
    → h b' ≡ some node'
    → h' b ≡ some (update node)
    → h' b' ≡ some (update node')
updated h h' b b' node node' update e f g k =
    let same : b ≡ b' = some_injective e in
    ap h' (sym same) ∙ k ∙ ap (λ n. some (update n)) (some_injective (sym f ∙ ap h same ∙ g))

pub relink-Unlinks :
    (h : Heap) (a x : ℕ) (p q : Option ℕ)
    → h a ≡ some (record { node_data = x; prev = p; next = q })
    → IsNeighbour h a p
    → IsNeighbour h a q
    → ((b : ℕ) → p ≡ some b → some b ≢ q)
    → Gives (relink h a p q) (λ h₂. Unlinks h (release h₂ a) a p q)
unfolding read relink
relink-Unlinks h a x none none e i j ne = (
  h,
  rw (e, read) refl,
  record {
    others = λ b n m k. release_other h a b n;
    prev_node = λ b node f. cc;
    next_node = λ b node f. cc;
  },
)
relink-Unlinks h a x (some b) none e (node, f, n) j ne =
    let changed : Node = record node { next = none } in
    let h₁ = write h b changed in
    let there = write_other h b a changed (λ g. n (sym g)) ∙ e in
    (
      h₁,
      rw (set_next-write h b node none f, ◌>>=◌, there, read) refl,
      record {
        others = λ c m k l. release_other h₁ a c m ∙ write_other h b c changed (λ g. k (ap some g));
        prev_node = λ c node' g k.
            updated h (release h₁ a) b c node node' (λ o. record o { next = none }) g f k
              (release_other h₁ a b n ∙ write_same h b changed);
        next_node = λ c node' g. cc;
      },
    )
relink-Unlinks h a x none (some d) e i (node, f, n) ne =
    let changed : Node = record node { prev = none } in
    let h₁ = write h d changed in
    (
      h₁,
      rw (e, read, ◌>>=◌, set_prev-write h d node none f) refl,
      record {
        others = λ c m k l. release_other h₁ a c m ∙ write_other h d c changed (λ g. l (ap some g));
        prev_node = λ c node' g. cc;
        next_node = λ c node' g k.
            updated h (release h₁ a) d c node node' (λ o. record o { prev = none }) g f k
              (release_other h₁ a d n ∙ write_same h d changed);
      },
    )
relink-Unlinks h a x (some b) (some d) e (node, f, n) (after, g, m) ne =
    let changed : Node = record node { next = some d } in
    let moved : Node = record after { prev = some b } in
    let h₁ = write h b changed in
    let h₂ = write h₁ d moved in
    let apart : d ≢ b = λ k. ne b refl (ap some (sym k)) in
    let there = write_other h b a changed (λ k. n (sym k)) ∙ e in
    let behind = write_other h b d changed apart ∙ g in
    (
      h₂,
      rw
          (
            set_next-write h b node (some d) f,
            ◌>>=◌,
            there,
            read,
            set_prev-write h₁ d after (some b) behind,
          )
          refl,
      record {
        others = λ c k l o.
            release_other h₂ a c k
            ∙ write_other h₁ d c moved (λ w. o (ap some w))
            ∙ write_other h b c changed (λ w. l (ap some w));
        prev_node = λ c node' k l.
            updated h (release h₂ a) b c node node' (λ o. record o { next = some d }) k f l
              (release_other h₂ a b n
                ∙ write_other h₁ d b moved (λ w. apart (sym w))
                ∙ write_same h b changed);
        next_node = λ c node' k l.
            updated h (release h₂ a) d c after node' (λ o. record o { prev = some b }) k g l
              (release_other h₂ a d m ∙ write_same h₁ d moved);
      },
    )
