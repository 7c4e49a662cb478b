-- ===== src/Bytes.antt =====
-- Memory as a list of bytes: little-endian integers, `memcpy` out of a block, C strings.
-- A memory block is a list of bytes, an address in it is an offset.
use native.Mathlib.Nat.{pow-suc}
use bpfilter.Prelude.{
  ℕ, zero, suc, ◌+◌, ◌*◌, ◌/◌, ◌%◌, ◌^◌, ◌≤◌, ◌<◌, ◌≡◌, refl, ap, ◌∙◌, true, false, List, [], ◌∷◌,
  ◌++◌, append_assoc, arith, leb, ◌==◌, if◌then◌else◌, length, take, drop, length-append,
  drop-length, take-length, le→leb, All,
}
use bpfilter.Result.{Result, ok, fault, ◌>>=◌}

-- The `k` bytes of an unsigned integer, lowest first.
unfoldable pub le : ℕ → ℕ → List ℕ
le zero n = []
le (suc k) n = (n % 256) ∷ le k (n / 256)

unfoldable pub of_le : List ℕ → ℕ
of_le [] = 0
of_le (b ∷ bs) = b + 256 * of_le bs

pub of_le-le : (k n : ℕ) → n < 256 ^ k → of_le (le k n) ≡ n
unfolding of_le le
of_le-le zero n h = omega arith
of_le-le (suc k) n h =
    let below : n < 256 ^ k * 256 = rw pow-suc at h in
    omega (arith, of_le-le k (n / 256) (omega arith))

pub length-le : (k n : ℕ) → length (le k n) ≡ k
unfolding le
length-le zero n = refl
length-le (suc k) n = ap suc (length-le k (n / 256))

-- `memcpy(&x, block + p, n)`
unfoldable pub load : List ℕ → ℕ → ℕ → Result (List ℕ)
load b p n = if leb (p + n) (length b) then ok (take n (drop p b)) else fault

-- The block `b` holds the bytes `xs` at the offset `p`.
pub record At (b : List ℕ) (p : ℕ) (xs : List ℕ) : Type 0 where
  pub pre : List ℕ
  pub post : List ℕ
  pub shape : b ≡ pre ++ (xs ++ post)
  pub offset : length pre ≡ p

pub At-whole : (xs : List ℕ) → At (xs ++ []) 0 xs
At-whole xs = record { pre = []; post = []; shape = refl; offset = refl }

module _ {b : List ℕ} {p : ℕ} where
  pub At-le-length : (xs : List ℕ) → At b p xs → p + length xs ≤ length b
  At-le-length xs a = omega (
    arith,
    ap length a.shape,
    a.offset,
    length-append a.pre (xs ++ a.post),
    length-append xs a.post,
  )

  pub drop-At : (xs : List ℕ) (a : At b p xs) → drop p b ≡ xs ++ a.post
  drop-At xs a = rw (← a.offset, a.shape) (drop-length a.pre (xs ++ a.post))

  pub At-left : (xs ys : List ℕ) → At b p (xs ++ ys) → At b p xs
  At-left xs ys a = record {
    pre = a.pre;
    post = ys ++ a.post;
    shape = a.shape ∙ ap (◌++◌ a.pre) (append_assoc xs ys a.post);
    offset = a.offset;
  }

  pub At-right : (xs ys : List ℕ) → At b p (xs ++ ys) → At b (p + length xs) ys
  At-right xs ys a = record {
    pre = a.pre ++ xs;
    post = a.post;
    shape = a.shape ∙ simp append_assoc;
    offset = omega (arith, length-append a.pre xs, a.offset);
  }

  pub take-At : (xs : List ℕ) → At b p xs → take (length xs) (drop p b) ≡ xs
  take-At xs a = rw (drop-At xs a) (take-length xs a.post)

  -- Reading exactly the bytes that are there.
  pub load-At : (xs : List ℕ) → At b p xs → load b p (length xs) ≡ ok xs
  unfolding load
  load-At xs a = rw (le→leb _ _ (At-le-length xs a)) (ap ok (take-At xs a))

-- `strdup(block + p)`: the bytes up to the first 0, which has to be in the block.
unfoldable pub c_string : List ℕ → Result (List ℕ)
c_string [] = fault
c_string (c ∷ bs) = elim (c == 0) [ true ↦ ok [] | false ↦ (c_string bs >>= λ s. ok (c ∷ s)) ]

abbrev pub load_string : List ℕ → ℕ → Result (List ℕ)
load_string b p = c_string (drop p b)

-- A C string holds no 0 byte before its end.
abbrev pub IsString : List ℕ → Type 0
IsString = All (λ c. 0 < c)

pub c_string_lem : (s rest : List ℕ) → IsString s → c_string (s ++ 0 ∷ rest) ≡ ok s
unfolding c_string
c_string_lem [] rest h = refl
c_string_lem (c ∷ s) rest h = ground (arith, c_string_lem s rest h.1)
