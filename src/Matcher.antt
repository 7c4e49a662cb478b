-- ===== src/Matcher.antt =====
-- src/core/matcher.c: a matcher, and its serialised form.
-- An enum is the number that C stores for it, as any 32-bit value can come in with a marsh.
use bpfilter.Prelude.{
  ℕ, ◌+◌, ◌-◌, ◌%◌, ◌^◌, ◌<◌, ◌≡◌, Bool, List, [], ◌∷◌, Option, none, some, ltb, length, take,
  arith,
}
use bpfilter.Result.{Result, ok, err, fault, ◌>>=◌, ◌>>◌, assert}
use bpfilter.Bytes.{le, load}
use bpfilter.Marsh.{Marsh, marsh_new, add_child_raw, require_child, load_uint, header_size}
pub mod RoundTrip

-- `struct bf_matcher`; `len` counts the struct's own header too.
pub record Matcher : Type 0 where
  pub type : ℕ
  pub op : ℕ
  pub len : ℕ
  pub payload : List ℕ

-- `sizeof(struct bf_matcher)`
abbrev pub matcher_size : ℕ
matcher_size = 16

abbrev has_bytes : Option (List ℕ) → Bool
has_bytes none = ltb 0 1
has_bytes (some bytes) = ltb 0 (length bytes)

abbrev bytes_of : Option (List ℕ) → List ℕ
bytes_of none = []
bytes_of (some bytes) = bytes

-- `payload` is `none` for NULL, which comes with the length 0. A pointer comes with the bytes at it,
-- which the assertion wants to be at least one.
unfoldable pub matcher_new : ℕ → ℕ → Option (List ℕ) → Result Matcher
matcher_new type op payload = do
  assert (has_bytes payload)
  ok (record {
    type = type;
    op = op;
    len = matcher_size + length (bytes_of payload);
    payload = bytes_of payload;
  })

-- `payload_len -= sizeof(struct bf_matcher)`, in a `size_t`
abbrev payload_len : ℕ → ℕ
payload_len len = (len + 2 ^ 64 - matcher_size) % 2 ^ 64

unfoldable pub matcher_new_from_marsh : List ℕ → ℕ → Result Matcher
unfolding matcher_new
matcher_new_from_marsh b m = do
  c ← require_child b m none
  type ← load_uint b c 4
  c ← require_child b m (some c)
  op ← load_uint b c 4
  c ← require_child b m (some c)
  len ← load_uint b c 8
  c ← require_child b m (some c)
  payload ← load b (c + header_size) (payload_len len)
  matcher_new type op (some payload)

unfoldable pub matcher_marsh : Matcher → Marsh
matcher_marsh m =
    let a = add_child_raw (marsh_new []) (le 4 m.type) in
    let b = add_child_raw a (le 4 m.op) in
    let c = add_child_raw b (le 8 m.len) in add_child_raw c (take (payload_len m.len) m.payload)
