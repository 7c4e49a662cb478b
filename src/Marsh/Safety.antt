-- ===== src/Marsh/Safety.antt =====
-- What the walk over the children does on any block, also on one that nobody has serialised.
use bpfilter.Prelude.{
  ℕ, zero, suc, ◌+◌, ◌-◌, ◌*◌, ◌/◌, ◌%◌, ◌^◌, ◌≤◌, ◌<◌, ◌≡◌, ◌≢◌, ◌⊎◌, inl, inr, some_injective,
  refl, ap, ◌∙◌, subst, Bool, true, false, ltb, leb, length, take, drop, List, Option, none, some,
  arith, Bool-cases, if◌then◌else◌,
}
use bpfilter.Result.{Result, ok, fault, ◌>>=◌, >>=-eq-ok, ok_injective, bind-ne-fault, Gives}
use bpfilter.Bytes.{load, of_le}
use bpfilter.Marsh.{
  data_len, marsh_end, child_is_valid, next_start, next_child, each_child, all_children,
}

-- A child that is accepted, seen from its parent: the ends of both are there.
pub record Inside (b : List ℕ) (m c : ℕ) : Type 0 where
  pub last : ℕ
  pub child_last : ℕ
  pub parent_end : marsh_end b m ≡ ok last
  pub child_end : marsh_end b c ≡ ok child_last
  pub behind_header : m + 8 ≤ c
  pub header_inside : c + 8 ≤ last
  pub data_inside : child_last ≤ last

valid-Inside : (b : List ℕ) (m c : ℕ) → child_is_valid b m c ≡ ok true → Inside b m c
unfolding child_is_valid
valid-Inside b m c h = elim (Bool-cases (ltb c (m + 8))) [
  | inl early ↦ absurd (false_not_true (rw early at h))
  | inr behind ↦
      let (last, e, k) = >>=-eq-ok (marsh_end b m) _ (rw behind at h) in
      elim (Bool-cases (ltb last c)) [
        | inl outside ↦ absurd (false_not_true (rw outside at k))
        | inr starts ↦ elim (Bool-cases (ltb last (c + 8))) [
          | inl short ↦ absurd (false_not_true (rw (starts, short) at k))
          | inr header ↦
              let (child_last, f, l) = >>=-eq-ok (marsh_end b c) _ (rw (starts, header) at k) in
              record {
                last = last;
                child_last = child_last;
                parent_end = e;
                child_end = f;
                behind_header = ground (arith, behind);
                header_inside = ground (arith, header);
                data_inside = by_last last child_last (ok_injective l);
              }
        ]
      ]
]
  where
    false_not_true : ok false ≡ ok true → ⊥
    false_not_true e = cc

    by_last :
        (last child_last : ℕ)
        → (if ltb last child_last then false else true) ≡ true
        → child_last ≤ last
    by_last last child_last e = ground (arith, e)

pub next_child-Inside :
    (b : List ℕ) (m : ℕ) (child : Option ℕ) (c : ℕ)
    → next_child b m child ≡ ok (some c)
    → Inside b m c × ((child_is_valid b m c ≡ ok true) × (next_start b m child ≡ ok c))
unfolding next_child
next_child-Inside b m child c h =
    let (next, e, k) = >>=-eq-ok (next_start b m child) _ h in
    let (valid, f, l) = >>=-eq-ok (child_is_valid b m next) _ k in
    by_valid next valid e f (ok_injective l)
  where
    by_valid :
        (next : ℕ) (valid : Bool)
        → next_start b m child ≡ ok next
        → child_is_valid b m next ≡ ok valid
        → (if valid then some next else none) ≡ some c
        → Inside b m c × ((child_is_valid b m c ≡ ok true) × (next_start b m child ≡ ok c))
    by_valid next true e f g =
        let same = some_injective g in
        (
          subst (Inside b m) same (valid-Inside b m next f),
          (subst (λ p. child_is_valid b m p ≡ ok true) same f, e ∙ ap ok same),
        )
    by_valid next false e f g = cc

-- A child that bf_marsh_next_child returns starts behind its parent's header, where the walk has come
-- to. The end of its parent is there; the child's own header lies before it, and so does all of its
-- data, unless the child's end wraps.
pub next_child_inside :
    (b : List ℕ) (m : ℕ) (child : Option ℕ) (c : ℕ)
    → next_child b m child ≡ ok (some c)
    → Gives (marsh_end b m) (λ last. Gives (data_len b c) (λ n.
      (m + 8 ≤ c)
      × (c + 8 ≤ last)
      × ((c + 8 + n ≤ last) ⊎ (2 ^ 64 ≤ c + 8 + n))
      × (next_start b m child ≡ ok c)))
unfolding marsh_end
next_child_inside b m child c h =
    let (i, (valid, start)) = next_child-Inside b m child c h in
    let (n, e, f) = >>=-eq-ok (data_len b c) _ i.child_end in
    (
      i.last,
      i.parent_end,
      (
        n,
        e,
        (
          i.behind_header,
          i.header_inside,
          within i.last i.child_last (c + 8 + n) i.data_inside (ok_injective f),
          start,
        ),
      ),
    )
  where
    within :
        (last child_last sum : ℕ)
        → child_last ≤ last
        → sum % 2 ^ 64 ≡ child_last
        → (sum ≤ last) ⊎ (2 ^ 64 ≤ sum)
    within last child_last sum h e = elim (Bool-cases (ltb sum (2 ^ 64))) [
      | inl small ↦ inl (omega (arith, h, e, below small))
      | inr large ↦ inr (ground (arith, large))
    ]
      where
        below : ltb sum (2 ^ 64) ≡ true → sum < 2 ^ 64
        below q = ground (arith, q)

module _ (b : List ℕ) (fits : length b < 2 ^ 64)
    (small : (p n : ℕ) → data_len b p ≡ ok n → p + 8 + n < 2 ^ 64) where
  readable : (p : ℕ) → p + 8 ≤ length b → (n : ℕ) × (data_len b p ≡ ok n)
  unfolding data_len load
  readable p h =
      let inside : leb (p + 8) (length b) ≡ true = ground (arith, h) in
      (of_le (take 8 (drop p b)), rw (inside, ◌>>=◌) refl)

  end_of : (p n : ℕ) → data_len b p ≡ ok n → marsh_end b p ≡ ok (p + 8 + n)
  unfolding marsh_end
  end_of p n e = rw (e, ◌>>=◌) (ap ok (omega (arith, small p n e)))

  module _ (m last : ℕ) (parent_end : marsh_end b m ≡ ok last) (whole : last ≤ length b) where
    -- What the test of a place behind the header of the parent gives.
    tested :
        (p : ℕ)
        → m + 8 ≤ p
        → (child_is_valid b m p ≡ ok false)
          ⊎ ((n : ℕ) × (child_is_valid b m p ≡ ok true)
              × (marsh_end b p ≡ ok (p + 8 + n))
              × (p + 8 + n ≤ last))
    unfolding child_is_valid
    tested p h =
        let behind : ltb p (m + 8) ≡ false = ground (arith, h) in
        elim (Bool-cases (ltb last p)) [
          | inl outside ↦ inl (rw (behind, parent_end, ◌>>=◌, outside) refl)
          | inr starts ↦ elim (Bool-cases (ltb last (p + 8))) [
            | inl short ↦ inl (rw (behind, parent_end, ◌>>=◌, starts, short) refl)
            | inr header ↦
                let (n, e) = readable p (ground (arith, header, whole)) in
                let child_end = end_of p n e in
                elim (Bool-cases (ltb last (p + 8 + n))) [
                  | inl long ↦
                      inl (rw (behind, parent_end, ◌>>=◌, starts, header, child_end, long) refl)
                  | inr inside ↦ inr (
                    n,
                    rw (behind, parent_end, ◌>>=◌, starts, header, child_end, inside) refl,
                    child_end,
                    ground (arith, inside),
                  )
                ]
          ]
        ]

    each_child_ends {ℓ} :
        {A : Type ℓ} (body : ℕ → Result A) (fuel : ℕ) (child : Option ℕ) (p : ℕ)
        → ((c : ℕ) → body c ≢ fault)
        → next_start b m child ≡ ok p
        → m + 8 ≤ p
        → last - p < 8 * fuel
        → each_child fuel body b m child ≢ fault
    unfolding each_child next_child
    each_child_ends body zero child p safe start h room = absurd (omega (arith, room))
    each_child_ends body (suc fuel) child p safe start h room = elim (tested p h) [
      | inl e ↦ rw (each_child, start, ◌>>=◌, e) (λ q. cc)
      | inr (n, e, f, inside) ↦
          rw (each_child, start, ◌>>=◌, e)
            (bind-ne-fault (body p) _ (safe p) λ x.
              bind-ne-fault (each_child fuel body b m (some p)) _
                (each_child_ends body fuel (some p) (p + 8 + n) safe f (omega (arith, h))
                  (omega (arith, room, inside)))
                (λ xs q. cc))
    ]

  -- If a marsh lies in a block smaller than 2^64 bytes, and no eight bytes of the block, read as a
  -- length, make the end of a marsh wrap, then the loop over the children ends by itself: with a body that does not fault, it
  -- gives a list or the body's error, reads no header outside of the block, and never runs out of its
  -- rounds.
  pub all_children_ends {ℓ} :
      {A : Type ℓ} (body : ℕ → Result A) (m n : ℕ)
      → ((c : ℕ) → body c ≢ fault)
      → data_len b m ≡ ok n
      → m + 8 + n ≤ length b
      → all_children body b m ≢ fault
  unfolding all_children
  all_children_ends body m n safe e whole =
      rw (e, ◌>>=◌)
        (each_child_ends m (m + 8 + n) (end_of m n e) whole body (suc (n / 8)) none (m + 8) safe
          refl (omega arith) (omega arith))
