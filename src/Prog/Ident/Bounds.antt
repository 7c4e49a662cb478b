-- ===== src/Prog/Ident/Bounds.antt =====
-- The lengths of a program's names, and which bits of the hash they keep.
use bpfilter.Prelude.{
  ℕ, zero, suc, ◌-◌, ◌/◌, ◌%◌, ◌<◌, ◌≤◌, ◌≡◌, refl, sym, ap, subst, ◌∙◌, false, List, [], ◌∷◌, ◌++◌,
  Option, none, some, if◌then◌else◌, Bool-cases, inl, inr, arith, length, take, All, ltb,
  All-get_elem?, get_elem?,
}
use bpfilter.Result.{Result, ok, fault, ◌>>=◌, >>=-eq-ok, ok_injective}
use bpfilter.Bytes.{IsString, c_string, c_string_lem}
use bpfilter.Hook.{has_flag, opt_name}
use bpfilter.Chain.{Chain}
use bpfilter.Chain.RoundTrip.{IsText}
use bpfilter.Strings.{clip, hex, hex_digit, strncpy}
use bpfilter.Prog.{System}
use bpfilter.Prog.Ident.{prog_id_len, flavor_keys, text_of, id_source, id_text, key_of, genid}

length-take : (n : ℕ) (xs : List ℕ) → length (take n xs) ≤ n
length-take zero xs = omega arith
length-take (suc n) [] = omega arith
length-take (suc n) (x ∷ xs) = omega (arith, length-take n xs)

pub take_short : (n : ℕ) (xs : List ℕ) → length xs ≤ n → take n xs ≡ xs
take_short zero [] h = refl
take_short zero (x ∷ xs) h = absurd (omega arith)
take_short (suc n) [] h = refl
take_short (suc n) (x ∷ xs) h = ap (◌∷◌ x) (take_short n xs (omega arith))

All-take {κ} : (P : ℕ → Type κ) (n : ℕ) (xs : List ℕ) → All P xs → All P (take n xs)
All-take P zero xs h = tt
All-take P (suc n) [] h = tt
All-take P (suc n) (x ∷ xs) h = (h.0, All-take P n xs h.1)

pub All-++ {κ} : (P : ℕ → Type κ) (xs ys : List ℕ) → All P xs → All P ys → All P (xs ++ ys)
All-++ P [] ys h k = k
All-++ P (x ∷ xs) ys h k = (h.0, All-++ P xs ys h.1 k)

pub hex-IsString : (width n : ℕ) → IsString (hex width n)
unfolding hex
hex-IsString zero n = tt
hex-IsString (suc width) n =
    All-++ (λ c. 0 < c) (hex width (n / 16)) (hex_digit (n % 16) ∷ []) (hex-IsString width (n / 16))
      (digit (n % 16), tt)
  where
    digit : (d : ℕ) → 0 < hex_digit d
    digit d = ground arith

keys-IsString : All IsString flavor_keys
keys-IsString = omega arith

key-IsString :
    (hook : ℕ) (key : List ℕ) (found : Option (List ℕ))
    → get_elem? flavor_keys hook ≡ found
    → elim found as (λ _. Result (List ℕ)) [ none ↦ fault | some k ↦ ok k ] ≡ ok key
    → IsString key
key-IsString hook key none e h = cc
key-IsString hook key (some k) e h =
    subst IsString (ok_injective h) (All-get_elem? IsString flavor_keys hook keys-IsString e)

-- A text that is clipped to the identifier's array.
Fits : List ℕ → Type 0
Fits id = (length id < prog_id_len) × IsString id

clip-Fits : (s id : List ℕ) → IsString s → clip prog_id_len s ≡ id → Fits id
unfolding Fits
clip-Fits s id h e =
    subst (λ x. (length x < prog_id_len) × IsString x) e
      (omega (arith, length-take 11 s), All-take (λ c. 0 < c) 11 s h)

named-Fits :
    (name : Option (List ℕ)) (id : List ℕ)
    → IsText name
    → (text_of name >>= λ s. ok (clip prog_id_len s)) ≡ ok id
    → Fits id
named-Fits none id t h = cc
named-Fits (some s) id t h = clip-Fits s id t (ok_injective h)

id_text-IsString :
    (key : List ℕ) (hash : ℕ)
    → IsString key
    → IsString ((b'b' ∷ b'f' ∷ b'_' ∷ []) ++ (key ++ b'_' ∷ hex 4 (hash % 256)))
id_text-IsString key hash k = (
  omega arith,
  (omega arith, (omega arith, All-++ (λ c. 0 < c) key _ k (omega arith, hex-IsString 4 _))),
)

module _ (sys : System) (hook : ℕ) (chain : Chain) where
  -- What bf_program_genid gives: a string that fits its array of BF_PROG_ID_LEN bytes.
  pub genid_fits :
      (id : List ℕ)
      → IsText chain.hook_opts.name
      → genid sys hook chain ≡ ok id
      → (length id < prog_id_len) × IsString id
  unfolding genid Fits
  genid_fits id t h = elim (Bool-cases (has_flag chain.hook_opts.used_opts opt_name)) [
    | inl named ↦ named-Fits chain.hook_opts.name id t (rw named at h)
    | inr unnamed ↦
        let (key, e, f) = >>=-eq-ok (key_of hook) _ (rw unnamed at h) in
        let (text, g, k) = >>=-eq-ok (id_source hook key chain) _ f in
        clip-Fits ((b'b' ∷ b'f' ∷ b'_' ∷ []) ++ (key ++ b'_' ∷ hex 4 (sys.murmur3 text % 256))) id
          (id_text-IsString key (sys.murmur3 text)
            (key-IsString hook key (get_elem? flavor_keys hook) refl e))
          (ok_injective k)
  ]

-- The identifier of a chain without a name is one of 256 that its hook has: it is the text for a number
-- below 256, whatever interface or cgroup the chain is for.
pub genid-id_text :
    (sys : System) (hook : ℕ) (key id : List ℕ) (chain : Chain)
    → get_elem? flavor_keys hook ≡ some key
    → has_flag chain.hook_opts.used_opts opt_name ≡ false
    → genid sys hook chain ≡ ok id
    → (n : ℕ) × (n < 256) × (id ≡ id_text key n)
unfolding genid
genid-id_text sys hook key id chain k unnamed h =
    let (text, g, e) = >>=-eq-ok (id_source hook key chain) _ (rw (unnamed, k) at h) in
    (
      sys.murmur3 text % 256,
      omega arith,
      sym (ok_injective e)
          ∙ same_text key (sys.murmur3 text % 256) (sys.murmur3 text) (omega arith),
    )
  where
    same_text :
        (key : List ℕ) (n hash : ℕ) → hash % 256 ≡ n % 256 → id_text key hash ≡ id_text key n
    same_text key n hash e = rw e refl

-- A string that is shorter than its array is read back from it.
pub c_string-strncpy :
    (dst s : List ℕ) (len : ℕ) → length s < len → IsString s → c_string (strncpy dst len s) ≡ ok s
unfolding strncpy
c_string-strncpy dst s len h v =
    let short : (if ltb (len - 1) (length s) then len - 1 else length s) ≡ length s =
      ground arith in
    rw (short, take_short (length s) s (omega arith)) (c_string_lem s _ v)
