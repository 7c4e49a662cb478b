-- ===== src/Linked/Segments.antt =====
-- What a list's nodes stand for: the sequence of the data, each node linked to its neighbours.
use bpfilter.Prelude.{
  ℕ, ◌≡◌, ◌≢◌, refl, sym, ap, ◌∙◌, List, [], ◌∷◌, ◌++◌, length, Option, none, some, All, arith,
  some_injective,
}
use bpfilter.Linked.{Node, Linked, Heap, write}

-- An address with the data of its node.
abbrev pub Cells : Type 0
Cells = List (ℕ × ℕ)

abbrev pub first : Cells → Option ℕ
first [] = none
first (c ∷ cs) = some c.0

abbrev pub last_from : ℕ → Cells → ℕ
last_from a [] = a
last_from a (c ∷ cs) = last_from c.0 cs

abbrev pub last : Cells → Option ℕ
last [] = none
last (c ∷ cs) = some (last_from c.0 cs)

-- The cells are in the heap, behind a node `prev`, each linked to the next one and to the one before.
unfoldable pub IsSegment : Heap → Option ℕ → Cells → Type 0
IsSegment h prev [] = Unit {0}
IsSegment h prev (c ∷ cs) =
    (h c.0 ≡ some (record { node_data = c.1; prev = prev; next = first cs }))
    × IsSegment h (some c.0) cs

unfoldable pub IsApart : Cells → Type 0
IsApart [] = Unit {0}
IsApart (c ∷ cs) = All (λ d. d.0 ≢ c.0) cs × IsApart cs

-- A list stands for its cells.
pub record Shows (h : Heap) (list : Linked) (cells : Cells) : Type 0 where
  pub counts : list.len ≡ length cells
  pub starts : list.head ≡ first cells
  pub ends : list.tail ≡ last cells
  pub linked : IsSegment h none cells
  pub apart : IsApart cells

pub write_same : (h : Heap) (a : ℕ) (node : Node) → write h a node a ≡ some node
unfolding write
write_same h a node = ground arith

pub write_other : (h : Heap) (a b : ℕ) (node : Node) → b ≢ a → write h a node b ≡ h b
unfolding write
write_other h a b node ne = ground (arith, ne)

pub IsSegment-write :
    (h : Heap) (a : ℕ) (node : Node) (prev : Option ℕ) (cells : Cells)
    → All (λ c. c.0 ≢ a) cells
    → IsSegment h prev cells
    → IsSegment (write h a node) prev cells
unfolding IsSegment
IsSegment-write h a node prev [] ne s = tt
IsSegment-write h a node prev (c ∷ cs) ne s =
    (write_other h a c.0 node ne.0 ∙ s.0, IsSegment-write h a node (some c.0) cs ne.1 s.1)

-- An address that is free is that of no cell.
pub IsSegment-free :
    (h : Heap) (a : ℕ) (prev : Option ℕ) (cells : Cells)
    → h a ≡ none
    → IsSegment h prev cells
    → All (λ c. c.0 ≢ a) cells
unfolding IsSegment
IsSegment-free h a prev [] free s = tt
IsSegment-free h a prev (c ∷ cs) free s =
    ((λ e. absurd (cc (s.0, ap h e, free))), IsSegment-free h a (some c.0) cs free s.1)

pub last_node :
    (h : Heap) (prev : Option ℕ) (c : ℕ × ℕ) (cs : Cells)
    → IsSegment h prev (c ∷ cs)
    → (node : Node) × (h (last_from c.0 cs) ≡ some node)
unfolding IsSegment
last_node h prev c [] s = (_, s.0)
last_node h prev c (d ∷ ds) s = last_node h (some c.0) d ds s.1

pub last_from_ne :
    (b : ℕ) (c : ℕ × ℕ) (cs : Cells) → All (λ d. d.0 ≢ b) (c ∷ cs) → last_from c.0 cs ≢ b
last_from_ne b c [] ne = ne.0
last_from_ne b c (d ∷ ds) ne = last_from_ne b d ds ne.1

pub last_from-append : (c a x : ℕ) (cs : Cells) → last_from c (cs ++ (a, x) ∷ []) ≡ a
last_from-append c a x [] = refl
last_from-append c a x (d ∷ ds) = last_from-append d.0 a x ds

pub IsApart-append :
    (a x : ℕ) (cells : Cells)
    → All (λ c. c.0 ≢ a) cells
    → IsApart cells
    → IsApart (cells ++ (a, x) ∷ [])
unfolding IsApart
IsApart-append a x [] ne v = (tt, tt)
IsApart-append a x (c ∷ cs) ne v = (others cs v.0, IsApart-append a x cs ne.1 v.1)
  where
    others : (ds : Cells) → All (λ d. d.0 ≢ c.0) ds → All (λ d. d.0 ≢ c.0) (ds ++ (a, x) ∷ [])
    others [] h = ((λ e. ne.0 (sym e)), tt)
    others (d ∷ ds) h = (h.0, others ds h.1)

-- A segment whose last node is linked to a new one.
pub IsSegment-append :
    (h h' : Heap) (a x : ℕ) (prev : Option ℕ) (c : ℕ × ℕ) (cs : Cells) (node : Node)
    → IsSegment h prev (c ∷ cs)
    → IsApart (c ∷ cs)
    → All (λ d. d.0 ≢ a) (c ∷ cs)
    → ((b : ℕ) → b ≢ a → b ≢ last_from c.0 cs → h' b ≡ h b)
    → h (last_from c.0 cs) ≡ some node
    → h' (last_from c.0 cs) ≡ some (record node { next = some a })
    → h' a ≡ some (record { node_data = x; prev = some (last_from c.0 cs); next = none })
    → IsSegment h' prev (c ∷ (cs ++ (a, x) ∷ []))
unfolding IsSegment IsApart
IsSegment-append h h' a x prev c [] node s v ne same e e' new = (
  e' ∙ ap (λ (n : Node). some (record n { next = some a })) (some_injective (sym e ∙ s.0)),
  (new, tt),
)
IsSegment-append h h' a x prev c (d ∷ ds) node s v ne same e e' new = (
  same c.0 ne.0 (λ f. last_from_ne c.0 d ds v.0 (sym f)) ∙ s.0,
  IsSegment-append h h' a x (some c.0) d ds node s.1 v.1 ne.1 same e e' new,
)
