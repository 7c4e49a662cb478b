-- ===== src/Marsh/Loop.antt =====
-- The loop over all the children of a marsh, and bf_list_marsh, which writes such a marsh.
use bpfilter.Prelude.{
  refl, All, ap, ℕ, zero, suc, Option, some, ◌*◌, ◌/◌, ◌^◌, ◌≤◌, ◌<◌, ◌≡◌, ◌∙◌, List, [], ◌∷◌, ◌++◌,
  none, append_assoc, append-nil, arith, length, length-append, map,
}
use bpfilter.Result.{Result, ok, ◌>>=◌, Gives}
use bpfilter.Bytes.{At}
use bpfilter.Marsh.{Marsh, marsh_new, all_children, list_marsh, fold_child, fold_children}
use bpfilter.Marsh.Children.{
  enc, children, length-enc, add_child_obj-marsh_new, data_len-At, Visits-start, each_child-Visits,
  Visits, next_child-Visits, next_child-Visits_nil,
}

length-children_le {ℓ} :
    {X : Type ℓ} (bytes : X → List ℕ) (xs : List X)
    → 8 * length xs ≤ length (children (map bytes xs))
length-children_le bytes [] = omega arith
length-children_le bytes (x ∷ xs) = omega (
  arith,
  length-children_le bytes xs,
  length-append (enc (bytes x)) (children (map bytes xs)),
  length-enc (bytes x),
)

map-id {ℓ} : {A : Type ℓ} (xs : List A) → map (λ x. x) xs ≡ xs
map-id [] = refl
map-id (x ∷ xs) = ap (◌∷◌ x) (map-id xs)

module _ (b : List ℕ) (fits : length b < 2 ^ 64) where
  pub all_children-At {ℓ κ ι} :
      {A : Type ℓ} {X : Type κ} (P : X → Type ι) (bytes : X → List ℕ) (value : X → A)
      (body : ℕ → Result A) (m : ℕ) (xs : List X)
      → All P xs
      → At b m (enc (children (map bytes xs)))
      → ((c : ℕ) (x : X) → P x → At b c (enc (bytes x)) → body c ≡ ok (value x))
      → all_children body b m ≡ ok (map value xs)
  unfolding all_children
  all_children-At P bytes value body m xs p a k =
      rw (data_len-At b fits m _ a, ◌>>=◌)
        (each_child-Visits b fits P bytes value body m (suc (length (children (map bytes xs)) / 8))
          none xs (omega (arith, length-children_le bytes xs)) p
          (Visits-start b fits m (map bytes xs) a) k)

  -- The same where the body gives back what was written.
  pub all_children_back {ℓ ι} :
      {A : Type ℓ} (P : A → Type ι) (bytes : A → List ℕ) (body : ℕ → Result A) (m : ℕ) (xs : List A)
      → All P xs
      → At b m (enc (children (map bytes xs)))
      → ((c : ℕ) (x : A) → P x → At b c (enc (bytes x)) → body c ≡ ok x)
      → all_children body b m ≡ ok xs
  all_children_back P bytes body m xs p a k =
      all_children-At P bytes (λ x. x) body m xs p a k ∙ ap ok (map-id xs)

module _ (b : List ℕ) (fits : length b < 2 ^ 64) where
  -- The loop with a state keeps an invariant on the state and the blocks that are left.
  fold_child-Visits {ℓ κ ι} :
      {S : Type ℓ} {X : Type κ} (Inv : List X → S → Type ι) (bytes : X → List ℕ)
      (body : S → ℕ → Result S) (m fuel : ℕ) (child : Option ℕ) (xs : List X) (s : S)
      → length xs < fuel
      → Inv xs s
      → Visits b fits m child (map bytes xs)
      → ((x : X) (ys : List X) (t : S) (c : ℕ)
          → Inv (x ∷ ys) t
          → At b c (enc (bytes x))
          → Gives (body t c) (Inv ys))
      → Gives (fold_child fuel body s b m child) (Inv [])
  unfolding fold_child
  fold_child-Visits Inv bytes body m zero child xs s h i v k = absurd (omega arith)
  fold_child-Visits Inv bytes body m (suc fuel) child [] s h i v k =
      (s, rw (next_child-Visits_nil b fits m child v, fold_child), i)
  fold_child-Visits Inv bytes body m (suc fuel) child (x ∷ xs) s h i v k =
      let (c, e, a, v') = next_child-Visits b fits m child (bytes x) (map bytes xs) v in
      let (t, f, j) = k x xs s c i a in
      let (r, g, l) = fold_child-Visits Inv bytes body m fuel (some c) xs t (omega arith) j v' k in
      (r, rw (e, fold_child, f, ◌>>=◌) g, l)

  pub fold_children-At {ℓ κ ι} :
      {S : Type ℓ} {X : Type κ} (Inv : List X → S → Type ι) (bytes : X → List ℕ)
      (body : S → ℕ → Result S) (m : ℕ) (xs : List X) (s : S)
      → Inv xs s
      → At b m (enc (children (map bytes xs)))
      → ((x : X) (ys : List X) (t : S) (c : ℕ)
          → Inv (x ∷ ys) t
          → At b c (enc (bytes x))
          → Gives (body t c) (Inv ys))
      → Gives (fold_children body s b m) (Inv [])
  unfolding fold_children
  fold_children-At Inv bytes body m xs s i a k =
      rw (data_len-At b fits m _ a, ◌>>=◌)
        (fold_child-Visits Inv bytes body m (suc (length (children (map bytes xs)) / 8)) none xs s
          (omega (arith, length-children_le bytes xs)) i (Visits-start b fits m (map bytes xs) a) k)

pub list_marsh-marsh_new {ℓ ι} :
    {A : Type ℓ} (P : A → Type ι) (f : A → Marsh) (bytes : A → List ℕ) (xs : List A) (y : List ℕ)
    → All P xs
    → ((x : A) → P x → f x ≡ marsh_new (bytes x))
    → list_marsh f xs (marsh_new y) ≡ marsh_new (y ++ children (map bytes xs))
unfolding list_marsh
list_marsh-marsh_new P f bytes [] y p h = rw append-nil
list_marsh-marsh_new P f bytes (x ∷ xs) y p h =
    rw (h x p.0, add_child_obj-marsh_new y (bytes x))
      (list_marsh-marsh_new P f bytes xs (y ++ enc (bytes x)) p.1 h
        ∙ (rw (append_assoc y (enc (bytes x)) (children (map bytes xs)))))
