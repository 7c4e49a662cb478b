-- ===== src/Marsh/Children.antt =====
-- Walking the children of a marsh that the code has built.
use bpfilter.Prelude.{
  All, true, false, ℕ, zero, suc, ◌+◌, ◌^◌, ◌≤◌, ◌<◌, ◌≡◌, refl, ap, ◌∙◌, ltb, List, [], ◌∷◌, ◌++◌,
  Option, none, some, append-nil, arith, length, take, length-append, take-length, map,
}
use bpfilter.Result.{Result, ok, ◌>>=◌, Gives}
use bpfilter.Bytes.{le, of_le-le, length-le, load, At, At-le-length, At-left, At-right, load-At}
use bpfilter.Marsh.{
  header_size, marsh_new, image, add_child_obj, add_child_raw, data_len, marsh_end, next_child,
  require_child, load_uint, each_child, child_is_valid, next_start,
}

-- A block of data behind its header, and such blocks one after the other.
unfoldable pub enc : List ℕ → List ℕ
enc d = le header_size (length d) ++ d

pub image-marsh_new : (d : List ℕ) → image (marsh_new d) ≡ enc d
unfolding image enc marsh_new
image-marsh_new d = refl

abbrev pub children : List (List ℕ) → List ℕ
children [] = []
children (d ∷ ds) = enc d ++ children ds

pub length-enc : (d : List ℕ) → length (enc d) ≡ length d + 8
unfolding enc
length-enc d = omega (arith, length-append (le 8 (length d)) d, length-le 8 (length d))

pub take_all : (xs : List ℕ) → take (length xs) xs ≡ xs
take_all xs = rw append-nil at (take-length xs [])

take-enc : (d : List ℕ) → take (8 + length d) (enc d) ≡ enc d
take-enc d =
    let e : 8 + length d ≡ length (enc d) = omega (arith, length-enc d) in rw e (take_all (enc d))

length-append_enc : (x d : List ℕ) → length x + (8 + length d) ≡ length (x ++ enc d)
length-append_enc x d = omega (arith, length-append x (enc d), length-enc d)

taken_parts : (x d : List ℕ) → take (length x) x ++ take (8 + length d) (enc d) ≡ x ++ enc d
taken_parts x d = rw (take_all x, take-enc d)

-- Appending a marsh that holds `d` to one that holds `x`.
pub add_child_obj-marsh_new :
    (x d : List ℕ) → add_child_obj (marsh_new x) (marsh_new d) ≡ marsh_new (x ++ enc d)
unfolding add_child_obj marsh_new enc
add_child_obj-marsh_new x d =
    λ i. record { data_len = length-append_enc x d i; content = taken_parts x d i }

pub add_child_raw-marsh_new :
    (x d : List ℕ) → add_child_raw (marsh_new x) d ≡ marsh_new (x ++ enc d)
unfolding add_child_raw
add_child_raw-marsh_new x d = add_child_obj-marsh_new x d

module _ (b : List ℕ) (fits : length b < 2 ^ 64) where
  -- The length that is read back is the length that was written.
  pub data_len-At : (c : ℕ) (d : List ℕ) → At b c (enc d) → data_len b c ≡ ok (length d)
  unfolding data_len enc
  data_len-At c d a =
      let at_header : At b c (le 8 (length d)) = At-left (le 8 (length d)) d a in
      let taken : load b c 8 ≡ ok (le 8 (length d)) =
        rw (length-le 8 (length d)) at (load-At (le 8 (length d)) at_header) in
      rw (taken, ◌>>=◌)
        (ap ok (of_le-le 8 (length d) (omega (arith, At-le-length (enc d) a, length-enc d))))

  marsh_end-At : (c : ℕ) (d : List ℕ) → At b c (enc d) → marsh_end b c ≡ ok (c + (length d + 8))
  unfolding marsh_end
  marsh_end-At c d a =
      rw (data_len-At c d a, ◌>>=◌)
        (ap ok (omega (arith, fits, At-le-length (enc d) a, length-enc d)))

  -- From `p` on, up to the end of the marsh at `m`, stand the blocks `ds`.
  pub record Cursor (m p : ℕ) (ds : List (List ℕ)) : Type 0 where
    pub here : At b p (children ds)
    pub stop : marsh_end b m ≡ ok (p + length (children ds))
    pub below : m + 8 ≤ p

  -- The calls of `next_child` that begin at `child` give the blocks `ds`, in order.
  pub Visits : ℕ → Option ℕ → List (List ℕ) → Type 0
  Visits m none ds = Cursor m (m + 8) ds
  Visits m (some c) ds = (d : List ℕ) × Cursor m c (d ∷ ds)

  pub Visits-start : (m : ℕ) (ds : List (List ℕ)) → At b m (enc (children ds)) → Visits m none ds
  unfolding Visits enc
  Visits-start m ds a = record {
    here =
        rw (length-le 8 (length (children ds))) at
          (At-right (le 8 (length (children ds))) (children ds) a);
    stop = marsh_end-At m (children ds) a ∙ ap ok (omega arith);
    below = omega arith;
  }

  Cursor-head : (m p : ℕ) (d : List ℕ) (ds : List (List ℕ)) → Cursor m p (d ∷ ds) → At b p (enc d)
  Cursor-head m p d ds k = At-left (enc d) (children ds) k.here

  Cursor-tail :
      (m p : ℕ) (d : List ℕ) (ds : List (List ℕ))
      → Cursor m p (d ∷ ds)
      → Cursor m (p + (length d + 8)) ds
  Cursor-tail m p d ds k = record {
    here = rw (length-enc d) at (At-right (enc d) (children ds) k.here);
    stop = k.stop ∙ ap ok (omega (arith, length-append (enc d) (children ds), length-enc d));
    below = omega (arith, k.below);
  }

  -- The block at the cursor passes the three tests of `bf_marsh_child_is_valid`.
  Cursor-valid :
      (m p : ℕ) (d : List ℕ) (ds : List (List ℕ))
      → Cursor m p (d ∷ ds)
      → child_is_valid b m p ≡ ok true
  unfolding child_is_valid
  Cursor-valid m p d ds k =
      let last = p + length (children (d ∷ ds)) in
      let size : length (children (d ∷ ds)) ≡ length d + 8 + length (children ds) =
        omega (arith, length-append (enc d) (children ds), length-enc d) in
      let starts : ltb p (m + 8) ≡ false = ground (arith, k.below) in
      let inside : ltb last p ≡ false = ground arith in
      let header : ltb last (p + 8) ≡ false = ground (arith, size) in
      let whole : ltb last (p + (length d + 8)) ≡ false = ground (arith, size) in
      rw (starts, k.stop, ◌>>=◌, inside, header, marsh_end-At p d (Cursor-head m p d ds k), whole)
        refl

  -- Behind the last block the walk ends.
  Cursor-end : (m p : ℕ) → Cursor m p [] → child_is_valid b m p ≡ ok false
  unfolding child_is_valid
  Cursor-end m p k =
      let starts : ltb p (m + 8) ≡ false = ground (arith, k.below) in
      let inside : ltb (p + 0) p ≡ false = ground arith in
      let header : ltb (p + 0) (p + 8) ≡ true = ground arith in
      rw (starts, k.stop, ◌>>=◌, inside, header) refl

  Visits-Cursor :
      (m : ℕ) (child : Option ℕ) (ds : List (List ℕ))
      → Visits m child ds
      → Gives (next_start b m child) (λ p. Cursor m p ds)
  unfolding Visits
  Visits-Cursor m none ds v = (m + 8, refl, v)
  Visits-Cursor m (some c) ds (d, k) =
      (c + (length d + 8), marsh_end-At c d (Cursor-head m c d ds k), Cursor-tail m c d ds k)

  pub next_child-Visits :
      (m : ℕ) (child : Option ℕ) (d : List ℕ) (ds : List (List ℕ))
      → Visits m child (d ∷ ds)
      → (c : ℕ) × (next_child b m child ≡ ok (some c)) × At b c (enc d) × Visits m (some c) ds
  unfolding next_child Visits
  next_child-Visits m child d ds v =
      let (p, e, k) = Visits-Cursor m child (d ∷ ds) v in
      (p, rw (e, ◌>>=◌, Cursor-valid m p d ds k) refl, Cursor-head m p d ds k, (d, k))

  pub next_child-Visits_nil :
      (m : ℕ) (child : Option ℕ) → Visits m child [] → next_child b m child ≡ ok none
  unfolding next_child
  next_child-Visits_nil m child v =
      let (p, e, k) = Visits-Cursor m child [] v in rw (e, ◌>>=◌, Cursor-end m p k) refl

  -- A required child is there: go on with it.
  pub require_child-Visits {ℓ} :
      {B : Type ℓ} (m : ℕ) (child : Option ℕ) (d : List ℕ) (ds : List (List ℕ)) (f : ℕ → Result B)
      (r : Result B)
      → Visits m child (d ∷ ds)
      → ((c : ℕ) → At b c (enc d) → Visits m (some c) ds → f c ≡ r)
      → (require_child b m child >>= f) ≡ r
  unfolding require_child
  require_child-Visits m child d ds f r v k =
      let (c, e, a, v') = next_child-Visits m child d ds v in
      rw (e, require_child, ◌>>=◌) (k c a v')

  pub At-content : (c : ℕ) (d : List ℕ) → At b c (enc d) → At b (c + 8) d
  unfolding enc
  At-content c d a = rw (length-le 8 (length d)) at (At-right (le 8 (length d)) d a)

  pub load-child : (c : ℕ) (d : List ℕ) → At b c (enc d) → load b (c + 8) (length d) ≡ ok d
  unfolding enc
  load-child c d a = load-At d (rw (length-le 8 (length d)) at (At-right (le 8 (length d)) d a))

  -- An integer of `n` bytes is read back from the child that it was written to.
  load_uint-child : (c n x : ℕ) → At b c (enc (le n x)) → x < 256 ^ n → load_uint b c n ≡ ok x
  unfolding load_uint
  load_uint-child c n x a h =
      let loaded : load b (c + 8) n ≡ ok (le n x) =
        rw (length-le n x) at (load-child c (le n x) a) in
      rw loaded (ap ok (of_le-le n x h))

  -- The loop over the children runs its body on each block, in order.
  pub each_child-Visits {ℓ κ ι} :
      {A : Type ℓ} {X : Type κ} (P : X → Type ι) (bytes : X → List ℕ) (value : X → A)
      (body : ℕ → Result A) (m fuel : ℕ) (child : Option ℕ) (xs : List X)
      → length xs < fuel
      → All P xs
      → Visits m child (map bytes xs)
      → ((c : ℕ) (x : X) → P x → At b c (enc (bytes x)) → body c ≡ ok (value x))
      → each_child fuel body b m child ≡ ok (map value xs)
  unfolding each_child
  each_child-Visits P bytes value body m zero child xs h p v k = absurd (omega arith)
  each_child-Visits P bytes value body m (suc fuel) child [] h p v k =
      rw (next_child-Visits_nil m child v, each_child)
  each_child-Visits P bytes value body m (suc fuel) child (x ∷ xs) h p v k =
      let (c, e, a, v') = next_child-Visits m child (bytes x) (map bytes xs) v in
      rw (
        e,
        each_child,
        k c x p.0 a,
        ◌>>=◌,
        each_child-Visits P bytes value body m fuel (some c) xs (omega arith) p.1 v' k,
      )

  -- A required child that holds an integer: go on with the integer.
  pub field-Visits {ℓ} :
      {B : Type ℓ} (m : ℕ) (child : Option ℕ) (n x : ℕ) (ds : List (List ℕ)) (g : ℕ → ℕ → Result B)
      (r : Result B)
      → x < 256 ^ n
      → Visits m child (le n x ∷ ds)
      → ((c : ℕ) → Visits m (some c) ds → g c x ≡ r)
      → (require_child b m child >>= λ c. load_uint b c n >>= λ y. g c y) ≡ r
  field-Visits m child n x ds g r h v k =
      require_child-Visits m child (le n x) ds _ r v
        λ c a v'. rw (load_uint-child c n x a h, ◌>>=◌) (k c v')

  -- A required child that is read to an object: go on with the object.
  pub object-Visits {ℓ κ} :
      {A : Type ℓ} {B : Type κ} (m : ℕ) (child : Option ℕ) (d : List ℕ) (ds : List (List ℕ))
      (body : ℕ → Result A) (x : A) (g : ℕ → A → Result B) (r : Result B)
      → ((c : ℕ) → At b c (enc d) → body c ≡ ok x)
      → Visits m child (d ∷ ds)
      → ((c : ℕ) → Visits m (some c) ds → g c x ≡ r)
      → (require_child b m child >>= λ c. body c >>= λ y. g c y) ≡ r
  object-Visits m child d ds body x g r h v k =
      require_child-Visits m child d ds _ r v λ c a v'. rw (h c a, ◌>>=◌) (k c v')
