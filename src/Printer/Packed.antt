-- ===== src/Printer/Packed.antt =====
-- Where the messages of a printer lie, and how two of them compare.
use bpfilter.Prelude.{
  ℕ, suc, ◌+◌, ◌≡◌, ◌≢◌, refl, sym, some_injective, ap, true, List, [], ◌∷◌, ◌++◌, none, some,
  Option-cases, Bool-cases, inl, inr, length, arith, All, get_elem?, length-append,
}
use bpfilter.Hook.Options.{streq}
use bpfilter.Printer.{Msg, total_size, find_msg, new_msg, add_msg}

pub streq_eq : (s t : List ℕ) → streq s t ≡ true → s ≡ t
unfolding streq
streq_eq [] [] h = refl
streq_eq [] (d ∷ t) h = cc
streq_eq (c ∷ s) [] h = cc
streq_eq (c ∷ s) (d ∷ t) h = ground (arith, streq_eq s t)

pub streq_refl : (s : List ℕ) → streq s s ≡ true
unfolding streq
streq_refl [] = refl
streq_refl (c ∷ s) = ground (arith, streq_refl s)

-- From the offset `o` on, the messages lie one behind the other.
unfoldable pub IsPacked : ℕ → List Msg → Type 0
IsPacked o [] = Unit
IsPacked o (msg ∷ msgs) =
    (msg.offset ≡ o) × (msg.len ≡ length msg.str + 1) × IsPacked (o + msg.len) msgs

-- No two messages have the same text.
unfoldable pub IsDistinct : List Msg → Type 0
IsDistinct [] = Unit
IsDistinct (msg ∷ msgs) = All (λ m. m.str ≢ msg.str) msgs × IsDistinct msgs

-- The texts with their final 0, one behind the other.
unfoldable pub text_of : List Msg → List ℕ
text_of [] = []
text_of (msg ∷ msgs) = (msg.str ++ 0 ∷ []) ++ text_of msgs

pub length-text_of :
    (msg : Msg) (msgs : List Msg)
    → length (text_of (msg ∷ msgs)) ≡ length msg.str + 1 + length (text_of msgs)
unfolding text_of
length-text_of msg msgs =
    omega (arith, length-append (msg.str ++ 0 ∷ []) (text_of msgs), length-append msg.str (0 ∷ []))

total_size-cons :
    (o : ℕ) (msg : Msg) (msgs : List Msg)
    → IsPacked o (msg ∷ msgs)
    → total_size (msg ∷ msgs) ≡ o + length (text_of (msg ∷ msgs))
unfolding total_size IsPacked text_of
total_size-cons o msg [] (at, len, rest) = omega (arith, length-text_of msg [])
total_size-cons o msg (next ∷ msgs) (at, len, rest) =
    omega (arith, total_size-cons (o + msg.len) next msgs rest, length-text_of msg (next ∷ msgs))

pub total_size-text_of :
    (msgs : List Msg) → IsPacked 0 msgs → total_size msgs ≡ length (text_of msgs)
unfolding total_size text_of
total_size-text_of [] h = refl
total_size-text_of (msg ∷ msgs) h = omega (arith, total_size-cons 0 msg msgs h)

append-IsPacked :
    (o : ℕ) (msgs : List Msg) (last : Msg)
    → IsPacked o msgs
    → last.offset ≡ o + length (text_of msgs)
    → last.len ≡ length last.str + 1
    → IsPacked o (msgs ++ last ∷ [])
unfolding IsPacked text_of
append-IsPacked o [] last h at len = (omega arith, len, tt)
append-IsPacked o (msg ∷ msgs) last (at, len, rest) there size = (
  at,
  len,
  append-IsPacked (o + msg.len) msgs last rest (omega (arith, length-text_of msg msgs)) size,
)

append-IsDistinct :
    (msgs : List Msg) (last : Msg)
    → IsDistinct msgs
    → All (λ m. m.str ≢ last.str) msgs
    → IsDistinct (msgs ++ last ∷ [])
unfolding IsDistinct
append-IsDistinct [] last h new = (tt, tt)
append-IsDistinct (msg ∷ msgs) last (here, rest) (other, new) =
    (All_last msgs here (λ e. other (sym e)), append-IsDistinct msgs last rest new)
  where
    All_last :
        (ms : List Msg)
        → All (λ m. m.str ≢ msg.str) ms
        → last.str ≢ msg.str
        → All (λ m. m.str ≢ msg.str) (ms ++ last ∷ [])
    All_last [] h k = (k, tt)
    All_last (m ∷ ms) h k = (h.0, All_last ms h.1 k)

find_msg-none :
    (msgs : List Msg) (str : List ℕ) → find_msg msgs str ≡ none → All (λ m. m.str ≢ str) msgs
unfolding find_msg
find_msg-none [] str h = tt
find_msg-none (msg ∷ msgs) str h = elim (Bool-cases (streq msg.str str)) [
  | inl e ↦ absurd (ground arith)
  | inr e ↦
      let differs : msg.str ≢ str =
        λ same. absurd (ground (arith, streq_refl str, (rw same at e))) in
      (differs, find_msg-none msgs str (rw e at h))
]

find_msg-some :
    (msgs : List Msg) (str : List ℕ) (msg : Msg)
    → find_msg msgs str ≡ some msg
    → (msg.str ≡ str) × ((i : ℕ) × (get_elem? msgs i ≡ some msg))
unfolding find_msg
find_msg-some [] str msg h = cc
find_msg-some (m ∷ msgs) str msg h = elim (Bool-cases (streq m.str str)) [
  | inl e ↦
      let same : m ≡ msg = some_injective (rw e at h) in
      (rw (← same) (streq_eq m.str str e), (0, ap some same))
  | inr e ↦
      let (text, (i, there)) = find_msg-some msgs str msg (rw e at h) in (text, (suc i, there))
]

get_last : (msgs : List Msg) (last : Msg) → get_elem? (msgs ++ last ∷ []) (length msgs) ≡ some last
get_last [] last = refl
get_last (m ∷ msgs) last = get_last msgs last

-- Adding a message to a printer whose messages are packed and distinct gives a message with this
-- text that is in the printer, which is packed and distinct again.
pub add_msg_lem :
    (msgs : List Msg) (str : List ℕ)
    → IsPacked 0 msgs
    → IsDistinct msgs
    → ((add_msg msgs str).0.str ≡ str)
      × ((i : ℕ) × (get_elem? (add_msg msgs str).1 i ≡ some (add_msg msgs str).0))
      × IsPacked 0 (add_msg msgs str).1
      × IsDistinct (add_msg msgs str).1
unfolding add_msg
add_msg_lem msgs str packed distinct = elim (Option-cases (find_msg msgs str)) [
  | inl e ↦
      let last = new_msg msgs str in
      rw (add_msg, e)
        (
          refl,
          (length msgs, get_last msgs last),
          append-IsPacked 0 msgs last packed (omega (arith, total_size-text_of msgs packed)) refl,
          append-IsDistinct msgs last distinct (find_msg-none msgs str e),
        )
  | inr (msg, e) ↦
      let (text, there) = find_msg-some msgs str msg e in
      rw (add_msg, e) (text, there, packed, distinct)
]
