-- ===== src/Matcher/RoundTrip.antt =====
-- The serialised form of a matcher, written and read.
use bpfilter.Prelude.{
  refl, ℕ, ◌+◌, ◌^◌, ◌<◌, ◌≡◌, sym, ap, List, [], ◌∷◌, none, some, lt→ltb, length, arith,
  append_assoc, append-nil,
}
use bpfilter.Result.{fault, ok, ◌>>=◌}
use bpfilter.Bytes.{le, At}
use bpfilter.Marsh.{marsh_new, image}
use bpfilter.Marsh.Children.{
  image-marsh_new, enc, children, add_child_raw-marsh_new, Visits-start, require_child-Visits,
  load-child, take_all, field-Visits,
}
use bpfilter.Matcher.{matcher_new, Matcher, payload_len, matcher_new_from_marsh, matcher_marsh}

-- What `bf_matcher_new` makes of a payload that is there.
pub record IsValid (m : Matcher) : Type 0 where
  pub type_fits : m.type < 2 ^ 32
  pub op_fits : m.op < 2 ^ 32
  pub len_counts : m.len ≡ 16 + length m.payload
  pub some_payload : 0 < length m.payload
  pub len_fits : m.len < 2 ^ 64

same_but_len : (m : Matcher) (len : ℕ) → len ≡ m.len → record m { len = len } ≡ m
same_but_len m len e = λ i. record m { len = e i }

-- The data of a serialised matcher.
matcher_fields : Matcher → List (List ℕ)
matcher_fields m = le 4 m.type ∷ le 4 m.op ∷ le 8 m.len ∷ m.payload ∷ []

pub matcher_bytes : Matcher → List ℕ
unfolding matcher_fields
matcher_bytes m = children (matcher_fields m)

matcher_marsh-bytes :
    (m : Matcher)
    → m.len ≡ 16 + length m.payload
    → m.len < 2 ^ 64
    → matcher_marsh m ≡ marsh_new (matcher_bytes m)
unfolding matcher_marsh matcher_bytes
matcher_marsh-bytes m counts fits =
    let whole : payload_len m.len ≡ length m.payload = omega (arith, counts, fits) in
    simp (whole, take_all, add_child_raw-marsh_new, append_assoc, append-nil)

pub matcher_marsh_lem : (m : Matcher) → IsValid m → matcher_marsh m ≡ marsh_new (matcher_bytes m)
matcher_marsh_lem m v = matcher_marsh-bytes m v.len_counts v.len_fits

made_of :
    (type op : ℕ) (m : Matcher)
    → matcher_new type op none ≡ ok m
    → (m.type ≡ type) × (m.op ≡ op) × (m.len ≡ 16) × (m.payload ≡ [])
unfolding matcher_new
made_of type op m h = ground arith

module _ (b : List ℕ) (fits : length b < 2 ^ 64) where
  pub matcher_new_from_marsh-At :
      (c : ℕ) (m : Matcher)
      → IsValid m
      → At b c (enc (matcher_bytes m))
      → matcher_new_from_marsh b c ≡ ok m
  unfolding matcher_new_from_marsh matcher_bytes
  matcher_new_from_marsh-At c m v a =
      field-Visits b fits c none 4 m.type _ _ _ v.type_fits
        (Visits-start b fits c (matcher_fields m) a)
        λ c₁ v₁. field-Visits b fits c (some c₁) 4 m.op _ _ _ v.op_fits v₁ λ c₂ v₂.
          field-Visits b fits c (some c₂) 8 m.len _ _ _ v.len_fits v₂ λ c₃ v₃.
            require_child-Visits b fits c (some c₃) m.payload [] _ _ v₃ λ c₄ a₄ v₄.
              let whole : payload_len m.len ≡ length m.payload =
                omega (arith, v.len_counts, v.len_fits) in
              rw
                (
                  whole,
                  load-child b fits c₄ m.payload a₄,
                  ◌>>=◌,
                  lt→ltb 0 (length m.payload) v.some_payload,
                )
                (ap ok (same_but_len m _ (sym v.len_counts)))

  -- A matcher with a payload is read back from its serialised form as it was, wherever that lies in a
  -- memory block smaller than 2^64 bytes.
  pub matcher_new_from_marsh-matcher_marsh :
      (c : ℕ) (m : Matcher)
      → IsValid m
      → At b c (image (matcher_marsh m))
      → matcher_new_from_marsh b c ≡ ok m
  matcher_new_from_marsh-matcher_marsh c m v a =
      matcher_new_from_marsh-At c m v (rw (matcher_marsh_lem m v, image-marsh_new) at a)

  no_payload-enc :
      (c type op : ℕ) (m : Matcher)
      → type < 2 ^ 32
      → op < 2 ^ 32
      → matcher_new type op none ≡ ok m
      → At b c (enc (matcher_bytes m))
      → matcher_new_from_marsh b c ≡ fault
  unfolding matcher_new_from_marsh matcher_bytes matcher_new
  no_payload-enc c type op m ht ho made a =
      let (is_type, is_op, is_len, is_empty) = made_of type op m made in
      field-Visits b fits c none 4 m.type _ _ _ (omega (arith, is_type))
        (Visits-start b fits c (matcher_fields m) a)
        λ c₁ v₁. field-Visits b fits c (some c₁) 4 m.op _ _ _ (omega (arith, is_op)) v₁ λ c₂ v₂.
          field-Visits b fits c (some c₂) 8 m.len _ _ _ (omega (arith, is_len)) v₂ λ c₃ v₃.
            require_child-Visits b fits c (some c₃) m.payload [] _ _ v₃ λ c₄ a₄ v₄.
              let none_left : payload_len m.len ≡ length m.payload = rw (is_len, is_empty) in
              rw (none_left, load-child b fits c₄ m.payload a₄, ◌>>=◌, is_empty)

  -- A matcher that bf_matcher_new makes of a NULL payload is not read back from its serialised form in
  -- a memory block smaller than 2^64 bytes:
  -- the pointer to the empty child is not NULL, and the assertion on the payload fails.
  pub matcher_new_from_marsh_no_payload :
      (c type op : ℕ) (m : Matcher)
      → type < 2 ^ 32
      → op < 2 ^ 32
      → matcher_new type op none ≡ ok m
      → At b c (image (matcher_marsh m))
      → matcher_new_from_marsh b c ≡ fault
  matcher_new_from_marsh_no_payload c type op m ht ho made a =
      let (is_type, is_op, is_len, is_empty) = made_of type op m made in
      let counts : m.len ≡ 16 + length m.payload = rw (is_len, is_empty) refl in
      no_payload-enc c type op m ht ho made
        (rw (matcher_marsh-bytes m counts (omega (arith, is_len)), image-marsh_new) at a)
