-- ===== src/Linked/Delete.antt =====
-- bf_list_delete, seen on the sequence.
use bpfilter.Prelude.{
  ℕ, ◌+◌, ◌-◌, ◌%◌, ◌^◌, ◌<◌, ◌≡◌, ◌≢◌, refl, ap, subst, true, false, [], ◌∷◌, ◌++◌, length, Option,
  none, some, ◌==◌, if◌then◌else◌, All, arith, length-append, some_injective,
}
use bpfilter.Result.{ok, ◌>>=◌, Gives}
use bpfilter.Linked.{Linked, Heap, read, is_end, release, delete}
use bpfilter.Linked.Segments.{
  Cells, first, last_from, last, IsSegment, IsApart, Shows, last_from_ne,
}
use bpfilter.Linked.Splice.{IsApart-without, Lacks, Lacks-here, first_ne, last_or, middle, splice}
use bpfilter.Linked.Relink.{IsNeighbour, relink-Unlinks}

last_from-cells :
    (b : ℕ) (cs : Cells) (y : ℕ × ℕ) (ys : Cells) → last_from b (cs ++ (y ∷ ys)) ≡ last_from y.0 ys
last_from-cells b [] y ys = refl
last_from-cells b (c ∷ cs) y ys = last_from-cells c.0 cs y ys

last-cells :
    (before : Cells) (y : ℕ × ℕ) (ys : Cells) → last (before ++ (y ∷ ys)) ≡ some (last_from y.0 ys)
last-cells [] y ys = refl
last-cells (c ∷ cs) y ys = ap some (last_from-cells c.0 cs y ys)

last_or-last : (c : ℕ × ℕ) (cs : Cells) → last_or (some c.0) cs ≡ last ((c ∷ cs) ++ [])
last_or-last c [] = refl
last_or-last c (d ∷ ds) = last_or-last d ds

-- The neighbours in a segment.
IsNeighbour-before :
    (h : Heap) (prev : Option ℕ) (c : ℕ × ℕ) (cs after : Cells) (a x : ℕ)
    → IsSegment h prev ((c ∷ cs) ++ ((a, x) ∷ after))
    → IsApart ((c ∷ cs) ++ ((a, x) ∷ after))
    → IsNeighbour h a (last_or (some c.0) cs)
unfolding IsSegment IsApart
IsNeighbour-before h prev c [] after a x s v = (_, s.0, Lacks-here c.0 a x [] after v.0)
IsNeighbour-before h prev c (d ∷ ds) after a x s v =
    IsNeighbour-before h (some c.0) d ds after a x s.1 v.1

IsNeighbour-after :
    (h : Heap) (prev : Option ℕ) (before : Cells) (d : ℕ × ℕ) (ds : Cells) (a x : ℕ)
    → IsSegment h prev (before ++ ((a, x) ∷ (d ∷ ds)))
    → IsApart (before ++ ((a, x) ∷ (d ∷ ds)))
    → IsNeighbour h a (some d.0)
unfolding IsSegment IsApart
IsNeighbour-after h prev [] d ds a x s v = (_, s.1.0, v.0.0)
IsNeighbour-after h prev (c ∷ cs) d ds a x s v = IsNeighbour-after h (some c.0) cs d ds a x s.1 v.1

last_or-first :
    (c : ℕ × ℕ) (cs after : Cells) (a x b : ℕ)
    → IsApart ((c ∷ cs) ++ ((a, x) ∷ after))
    → last_or (some c.0) cs ≡ some b
    → some b ≢ first after
unfolding IsApart
last_or-first c [] after a x b v e =
    first_ne b after (subst (λ z. Lacks z after) (some_injective e) v.0.1)
last_or-first c (d ∷ ds) after a x b v e = last_or-first d ds after a x b v.1 e

same_head :
    (before after : Cells) (a x : ℕ)
    → IsApart (before ++ ((a, x) ∷ after))
    → (if is_end (first (before ++ ((a, x) ∷ after))) a
        then first after
        else first (before ++ ((a, x) ∷ after)))
      ≡ first (before ++ after)
unfolding IsApart
same_head [] after a x v = ground arith
same_head (c ∷ cs) after a x v =
    let ne = Lacks-here c.0 a x cs after v.0 in
    let test : (c.0 == a) ≡ false = ground (arith, ne) in rw test refl

Lacks-after :
    (before after : Cells) (a x : ℕ) → IsApart (before ++ ((a, x) ∷ after)) → Lacks a after
unfolding IsApart
Lacks-after [] after a x v = v.0
Lacks-after (c ∷ cs) after a x v = Lacks-after cs after a x v.1

same_tail :
    (before after : Cells) (a x : ℕ)
    → IsApart (before ++ ((a, x) ∷ after))
    → (if is_end (last (before ++ ((a, x) ∷ after))) a
        then last_or none before
        else last (before ++ ((a, x) ∷ after)))
      ≡ last (before ++ after)
same_tail [] [] a x v = ground arith
same_tail (c ∷ cs) [] a x v =
    let test : (a == a) ≡ true = ground arith in
    rw (last_from-cells c.0 cs (a, x) [], test) (last_or-last c cs)
same_tail before (d ∷ ds) a x v =
    let ne = last_from_ne a d ds (Lacks-after before (d ∷ ds) a x v) in
    let test : (last_from d.0 ds == a) ≡ false = ground (arith, ne) in
    rw (last-cells before (a, x) (d ∷ ds), last-cells before d ds, test) refl

release_same : (h : Heap) (a : ℕ) → release h a a ≡ none
unfolding release
release_same h a = ground arith

-- If a list stands for fewer than 2^64 cells, bf_list_delete of the node of one of them succeeds: the list
-- stands for the other cells in their order, and the node is released.
pub delete_lem :
    (h : Heap) (list : Linked) (before after : Cells) (a x : ℕ)
    → Shows h list (before ++ ((a, x) ∷ after))
    → length (before ++ ((a, x) ∷ after)) < 2 ^ 64
    → Gives (delete h list a) (λ r. Shows r.0 r.1 (before ++ after) × (r.0 a ≡ none))
unfolding delete read
delete_lem h list before after a x s fits =
    let e = middle h none before after a x s.linked in
    let (h₂, done, u) =
      relink-Unlinks h a x (last_or none before) (first after) e (left before s.linked s.apart)
        (right after s.linked s.apart) (differ before s.apart) in
    (
      (
        release h₂ a,
        record {
          len = (list.len + (2 ^ 64 - 1)) % 2 ^ 64;
          head = first (before ++ after);
          tail = last (before ++ after);
        },
      ),
      rw (e, ◌>>=◌, s.starts, s.ends, done, ◌>>=◌)
          (ap (λ l. ok (release h₂ a, l)) (same_ends (list.len + (2 ^ 64 - 1)))),
      (
        record {
          counts = omega (
            arith,
            fits,
            s.counts,
            length-append before ((a, x) ∷ after),
            length-append before after,
          );
          starts = refl;
          ends = refl;
          linked =
              splice h (release h₂ a) a x none before after u s.linked s.apart
                (all_some (before ++ ((a, x) ∷ after)));
          apart = IsApart-without a x before after s.apart;
        },
        release_same h₂ a,
      ),
    )
  where
    same_ends :
        (n : ℕ)
        → (let r : Linked = record {
          len = n % 2 ^ 64;
          head =
              if is_end (first (before ++ ((a, x) ∷ after))) a
              then first after
              else first (before ++ ((a, x) ∷ after));
          tail =
              if is_end (last (before ++ ((a, x) ∷ after))) a
              then last_or none before
              else last (before ++ ((a, x) ∷ after));
        } in
            r)
          ≡ record {
            len = n % 2 ^ 64;
            head = first (before ++ after);
            tail = last (before ++ after);
          }
    same_ends n = rw (same_head before after a x s.apart, same_tail before after a x s.apart) refl

    all_some : (cells : Cells) → All (λ c. some c.0 ≢ none) cells
    all_some [] = tt
    all_some (c ∷ cs) = ((λ e. cc), all_some cs)

    left :
        (before : Cells)
        → IsSegment h none (before ++ ((a, x) ∷ after))
        → IsApart (before ++ ((a, x) ∷ after))
        → IsNeighbour h a (last_or none before)
    left [] l v = tt
    left (c ∷ cs) l v = IsNeighbour-before h none c cs after a x l v

    right :
        (after : Cells)
        → IsSegment h none (before ++ ((a, x) ∷ after))
        → IsApart (before ++ ((a, x) ∷ after))
        → IsNeighbour h a (first after)
    right [] l v = tt
    right (d ∷ ds) l v = IsNeighbour-after h none before d ds a x l v

    differ :
        (before : Cells)
        → IsApart (before ++ ((a, x) ∷ after))
        → (b : ℕ) → last_or none before ≡ some b
        → some b ≢ first after
    differ [] v b e = cc
    differ (c ∷ cs) v b e = last_or-first c cs after a x b v e
