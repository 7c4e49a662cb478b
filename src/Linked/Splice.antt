-- ===== src/Linked/Splice.antt =====
-- A segment from which a cell is taken out.
use bpfilter.Prelude.{ℕ, ◌≡◌, ◌≢◌, refl, sym, ◌∙◌, [], ◌∷◌, ◌++◌, Option, some, All, some_injective}
use bpfilter.Linked.{Node, Heap}
use bpfilter.Linked.Segments.{Cells, first, IsSegment, IsApart}

-- The node before the cells behind `prev`.
abbrev pub last_or : Option ℕ → Cells → Option ℕ
last_or prev [] = prev
last_or prev (c ∷ cs) = last_or (some c.0) cs

-- The middle node of a segment.
pub middle :
    (h : Heap) (prev : Option ℕ) (before after : Cells) (a x : ℕ)
    → IsSegment h prev (before ++ ((a, x) ∷ after))
    → h a ≡ some (record { node_data = x; prev = last_or prev before; next = first after })
unfolding IsSegment
middle h prev [] after a x s = s.0
middle h prev (c ∷ cs) after a x s = middle h (some c.0) cs after a x s.1

-- What is changed in the heap: the node at `a` is gone, the next node of `p` is `q` and the node before `q`
-- is `p`; other nodes are the same.
pub record Unlinks (h h' : Heap) (a : ℕ) (p q : Option ℕ) : Type 0 where
  pub others : (b : ℕ) → b ≢ a → some b ≢ p → some b ≢ q → h' b ≡ h b
  pub prev_node :
      (b : ℕ) (node : Node) → p ≡ some b → h b ≡ some node → h' b ≡ some (record node { next = q })
  pub next_node :
      (b : ℕ) (node : Node) → q ≡ some b → h b ≡ some node → h' b ≡ some (record node { prev = p })

kept-IsSegment :
    (h h' : Heap) (prev : Option ℕ) (cells : Cells)
    → All (λ c. h' c.0 ≡ h c.0) cells
    → IsSegment h prev cells
    → IsSegment h' prev cells
unfolding IsSegment
kept-IsSegment h h' prev [] e s = tt
kept-IsSegment h h' prev (c ∷ cs) e s = (e.0 ∙ s.0, kept-IsSegment h h' (some c.0) cs e.1 s.1)

-- The cells are apart from another address.
abbrev pub Lacks : ℕ → Cells → Type 0
Lacks b cells = All (λ c. c.0 ≢ b) cells

Lacks-right : (b : ℕ) (xs ys : Cells) → Lacks b (xs ++ ys) → Lacks b ys
Lacks-right b [] ys h = h
Lacks-right b (x ∷ xs) ys h = Lacks-right b xs ys h.1

Lacks-left : (b : ℕ) (xs ys : Cells) → Lacks b (xs ++ ys) → Lacks b xs
Lacks-left b [] ys h = tt
Lacks-left b (x ∷ xs) ys h = (h.0, Lacks-left b xs ys h.1)

-- Behind the removed node.
after_splice :
    (h h' : Heap) (a x : ℕ) (prev : Option ℕ) (after : Cells)
    → Unlinks h h' a prev (first after)
    → IsSegment h (some a) after
    → Lacks a after
    → IsApart after
    → All (λ c. some c.0 ≢ prev) after
    → IsSegment h' prev after
unfolding IsSegment IsApart
after_splice h h' a x prev [] u s lacks v ne = tt
after_splice h h' a x prev (d ∷ ds) u s lacks v ne =
    (u.next_node d.0 _ refl s.0, kept-IsSegment h h' (some d.0) ds (kept ds lacks.1 v.0 ne.1) s.1)
  where
    kept :
        (cs : Cells)
        → Lacks a cs
        → Lacks d.0 cs
        → All (λ c. some c.0 ≢ prev) cs
        → All (λ c. h' c.0 ≡ h c.0) cs
    kept [] l m n = tt
    kept (c ∷ cs) l m n = (u.others c.0 l.0 n.0 (λ e. m.0 (some_injective e)), kept cs l.1 m.1 n.1)

last_or_ne : (b : ℕ) (c : ℕ × ℕ) (cs : Cells) → Lacks b (c ∷ cs) → some b ≢ last_or (some c.0) cs
last_or_ne b c [] l e = l.0 (sym (some_injective e))
last_or_ne b c (d ∷ ds) l e = last_or_ne b d ds l.1 e

pub first_ne : (b : ℕ) (cells : Cells) → Lacks b cells → some b ≢ first cells
first_ne b [] l e = cc
first_ne b (c ∷ cs) l e = l.0 (sym (some_injective e))

Lacks-some : (b : ℕ) (cells : Cells) → Lacks b cells → All (λ c. some c.0 ≢ some b) cells
Lacks-some b [] l = tt
Lacks-some b (c ∷ cs) l = ((λ e. l.0 (some_injective e)), Lacks-some b cs l.1)

pub Lacks-here : (b a x : ℕ) (xs ys : Cells) → Lacks b (xs ++ ((a, x) ∷ ys)) → b ≢ a
Lacks-here b a x [] ys l = λ e. l.0 (sym e)
Lacks-here b a x (c ∷ cs) ys l = Lacks-here b a x cs ys l.1

pub splice :
    (h h' : Heap) (a x : ℕ) (prev : Option ℕ) (before after : Cells)
    → Unlinks h h' a (last_or prev before) (first after)
    → IsSegment h prev (before ++ ((a, x) ∷ after))
    → IsApart (before ++ ((a, x) ∷ after))
    → All (λ c. some c.0 ≢ prev) (before ++ ((a, x) ∷ after))
    → IsSegment h' prev (before ++ after)
unfolding IsSegment IsApart
splice h h' a x prev [] after u s v ne = after_splice h h' a x prev after u s.1 v.0 v.1 ne.1
splice h h' a x prev (c ∷ []) after u s v ne = (
  u.prev_node c.0 _ refl s.0,
  splice h h' a x (some c.0) [] after u s.1 v.1 (Lacks-some c.0 ((a, x) ∷ after) v.0),
)
splice h h' a x prev (c ∷ (e ∷ es)) after u s v ne =
    let next = Lacks-right c.0 (e ∷ es) ((a, x) ∷ after) v.0 in
    (
      u.others c.0 (Lacks-here c.0 a x (e ∷ es) after v.0)
            (last_or_ne c.0 e es (Lacks-left c.0 (e ∷ es) ((a, x) ∷ after) v.0))
            (first_ne c.0 after next.1)
          ∙ s.0,
      splice h h' a x (some c.0) (e ∷ es) after u s.1 v.1
          (Lacks-some c.0 ((e ∷ es) ++ ((a, x) ∷ after)) v.0),
    )

pub IsApart-without :
    (a x : ℕ) (before after : Cells)
    → IsApart (before ++ ((a, x) ∷ after))
    → IsApart (before ++ after)
unfolding IsApart
IsApart-without a x [] after v = v.1
IsApart-without a x (c ∷ cs) after v = (shorter cs v.0, IsApart-without a x cs after v.1)
  where
    shorter : (ds : Cells) → Lacks c.0 (ds ++ ((a, x) ∷ after)) → Lacks c.0 (ds ++ after)
    shorter [] l = l.1
    shorter (d ∷ ds) l = (l.0, shorter ds l.1)
