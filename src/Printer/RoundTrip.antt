-- ===== src/Printer/RoundTrip.antt =====
-- The serialised form of a printer, written and read.
use bpfilter.Prelude.{
  ℕ, ◌+◌, ◌-◌, ◌%◌, ◌^◌, ◌<◌, ◌≡◌, refl, List, [], ◌∷◌, ◌++◌, none, some, length, take, arith,
  append_assoc, append-nil, All, map, length-append,
}
use bpfilter.Result.{ok}
use bpfilter.Bytes.{le, At, drop-At, IsString}
use bpfilter.Marsh.{marsh_new}
use bpfilter.Marsh.Children.{
  enc, children, add_child_raw-marsh_new, Visits-start, require_child-Visits, field-Visits,
  At-content, take_all,
}
use bpfilter.Marsh.Loop.{all_children_back, list_marsh-marsh_new}
use bpfilter.Strings.{strndup}
use bpfilter.Printer.{Msg, msg_marsh, msg_new_from_marsh, printer_marsh, printer_new_from_marsh}

-- A message whose length counts the final 0 of its string.
pub record IsValid (msg : Msg) : Type 0 where
  pub offset_fits : msg.offset < 2 ^ 64
  pub len_fits : msg.len < 2 ^ 64
  pub len_counts : msg.len ≡ length msg.str + 1
  pub is_string : IsString msg.str

msg_fields : Msg → List (List ℕ)
msg_fields msg = le 8 msg.offset ∷ le 8 msg.len ∷ (msg.str ++ 0 ∷ []) ∷ []

msg_bytes : Msg → List ℕ
unfolding msg_fields
msg_bytes msg = children (msg_fields msg)

take_whole : (xs : List ℕ) (n : ℕ) → n ≡ length xs → take n xs ≡ xs
take_whole xs n e = rw e (take_all xs)

msg_marsh_lem : (msg : Msg) → IsValid msg → msg_marsh msg ≡ marsh_new (msg_bytes msg)
unfolding msg_marsh msg_bytes
msg_marsh_lem msg v =
    let whole =
      take_whole (msg.str ++ 0 ∷ []) msg.len
        (omega (arith, v.len_counts, length-append msg.str (0 ∷ []))) in
    simp (whole, add_child_raw-marsh_new, append_assoc, append-nil)

pub printer_bytes : List Msg → List ℕ
printer_bytes msgs = children (map msg_bytes msgs)

pub printer_marsh_lem :
    (msgs : List Msg) → All IsValid msgs → printer_marsh msgs ≡ marsh_new (printer_bytes msgs)
unfolding printer_marsh printer_bytes
printer_marsh_lem msgs v = list_marsh-marsh_new IsValid msg_marsh msg_bytes msgs [] v msg_marsh_lem

-- The copy of a whole string: the bytes that are asked for are the string's.
strndup_lem :
    (s rest : List ℕ) (n : ℕ) → n ≡ length s → IsString s → strndup (s ++ (0 ∷ rest)) n ≡ ok s
unfolding strndup
strndup_lem [] rest n e h = ground (arith, e)
strndup_lem (c ∷ s) rest n e h =
    ground (arith, e, h.0, strndup_lem s rest (n - 1) (omega (arith, e)) h.1)

module _ (b : List ℕ) (fits : length b < 2 ^ 64) where
  msg_new_from_marsh-At :
      (c : ℕ) (msg : Msg)
      → IsValid msg
      → At b c (enc (msg_bytes msg))
      → msg_new_from_marsh b c ≡ ok msg
  unfolding msg_new_from_marsh msg_bytes
  msg_new_from_marsh-At c msg v a =
      field-Visits b fits c none 8 msg.offset _ _ _ v.offset_fits
        (Visits-start b fits c (msg_fields msg) a)
        λ c₁ v₁. field-Visits b fits c (some c₁) 8 msg.len _ _ _ v.len_fits v₁ λ c₂ v₂.
          require_child-Visits b fits c (some c₂) _ _ _ _ v₂ λ c₃ a₃ v₃.
            let text = At-content b fits c₃ _ a₃ in
            rw
              (
                drop-At (msg.str ++ 0 ∷ []) text,
                append_assoc,
                strndup_lem msg.str text.post ((msg.len + (2 ^ 64 - 1)) % 2 ^ 64)
                    (omega (arith, v.len_counts, v.len_fits)) v.is_string,
              )
              refl

  pub printer_new_from_marsh-At :
      (c : ℕ) (msgs : List Msg)
      → All IsValid msgs
      → At b c (enc (printer_bytes msgs))
      → printer_new_from_marsh b c ≡ ok msgs
  unfolding printer_new_from_marsh printer_bytes
  printer_new_from_marsh-At c msgs v a =
      all_children_back b fits IsValid msg_bytes (msg_new_from_marsh b) c msgs v a
        msg_new_from_marsh-At
