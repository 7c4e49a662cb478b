-- ===== src/Printer.antt =====
-- src/bpfilter/cgen/printer.c: the log messages of the generated programs. All messages are
-- stored in one string, and a program refers to a message by its offset in it.
use bpfilter.Prelude.{
  ℕ, ◌+◌, ◌-◌, ◌%◌, ◌^◌, Bool, true, false, List, [], ◌∷◌, ◌++◌, Option, none, some, leb, ◌==◌,
  if◌then◌else◌, length, take, drop,
}
use bpfilter.Result.{Result, ok, err, fault, ◌>>=◌, ◌>>◌}
use bpfilter.Bytes.{le, load, load_string}
use bpfilter.Marsh.{
  Marsh, header_size, marsh_new, add_child_raw, require_child, load_uint, all_children, list_marsh,
}
use bpfilter.Hook.Options.{streq}
use bpfilter.Strings.{strndup}
pub mod Packed
pub mod Assemble
pub mod RoundTrip

-- `struct bf_printer_msg`; the string without its final 0, which `len` counts.
pub record Msg : Type 0 where
  pub offset : ℕ
  pub len : ℕ
  pub str : List ℕ

-- `struct bf_printer` is its list of messages. _bf_printer_total_size:
unfoldable pub total_size : List Msg → ℕ
total_size [] = 0
total_size (msg ∷ []) = msg.offset + msg.len
total_size (msg ∷ next ∷ msgs) = total_size (next ∷ msgs)

unfoldable pub find_msg : List Msg → List ℕ → Option Msg
find_msg [] str = none
find_msg (msg ∷ msgs) str = if streq msg.str str then some msg else find_msg msgs str

abbrev pub new_msg : List Msg → List ℕ → Msg
new_msg msgs str = record { offset = total_size msgs; len = length str + 1; str = str }

-- bf_printer_add_msg: the message, and the printer with it.
unfoldable pub add_msg : List Msg → List ℕ → Msg × List Msg
unfolding find_msg total_size
add_msg msgs str = elim (find_msg msgs str) [
  | none ↦ (new_msg msgs str, msgs ++ new_msg msgs str ∷ [])
  | some msg ↦ (msg, msgs)
]

-- `memcpy(block + p, bytes, length of bytes)`
unfoldable pub store : List ℕ → ℕ → List ℕ → Result (List ℕ)
store block p bytes =
    if leb (p + length bytes) (length block)
    then ok (take p block ++ (bytes ++ drop (p + length bytes) block))
    else fault

-- The loop of bf_printer_assemble.
unfoldable pub copy_msgs : List ℕ → List Msg → Result (List ℕ)
unfolding store
copy_msgs block [] = ok block
copy_msgs block (msg ∷ msgs) = do
  bytes ← load (msg.str ++ 0 ∷ []) 0 msg.len
  next ← store block msg.offset bytes
  copy_msgs next msgs

-- `malloc n` gives a block of n bytes with any content.
unfoldable pub assemble : (ℕ → List ℕ) → List Msg → Result (List ℕ)
unfolding copy_msgs total_size
assemble malloc msgs =
    if total_size msgs == 0 then ok (0 ∷ []) else copy_msgs (malloc (total_size msgs)) msgs

-- _bf_printer_msg_marsh; `str` is stored with its final 0.
unfoldable pub msg_marsh : Msg → Marsh
msg_marsh msg =
    let a = add_child_raw (marsh_new []) (le 8 msg.offset) in
    let b = add_child_raw a (le 8 msg.len) in add_child_raw b (take msg.len (msg.str ++ 0 ∷ []))

-- _bf_printer_msg_new_from_marsh, with `len - 1` of a size_t.
unfoldable pub msg_new_from_marsh : List ℕ → ℕ → Result Msg
unfolding strndup
msg_new_from_marsh b m = do
  c ← require_child b m none
  offset ← load_uint b c 8
  c ← require_child b m (some c)
  len ← load_uint b c 8
  c ← require_child b m (some c)
  str ← strndup (drop (c + header_size) b) ((len + (2 ^ 64 - 1)) % 2 ^ 64)
  ok (record { offset = offset; len = len; str = str })

unfoldable pub printer_marsh : List Msg → Marsh
unfolding msg_marsh
printer_marsh msgs = list_marsh msg_marsh msgs (marsh_new [])

unfoldable pub printer_new_from_marsh : List ℕ → ℕ → Result (List Msg)
unfolding msg_new_from_marsh
printer_new_from_marsh b m = all_children (msg_new_from_marsh b) b m
