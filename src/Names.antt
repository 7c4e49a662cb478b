-- ===== src/Names.antt =====
-- The names of the enumerations: `_bf_verdict_strs` in src/core/verdict.c, `_bf_hook_strs` in
-- src/core/hook.c and the three tables in src/core/matcher.c, with the conversions in both directions.
use bpfilter.Prelude.{
  ℕ, zero, suc, ◌+◌, Bool, true, false, List, [], ◌∷◌, Option, none, some, get_elem?,
}
use bpfilter.Result.{Result, ok, err, fault, ◌>>=◌, einval}
use bpfilter.Hook.Options.{streq}
pub mod Inverse

abbrev pub verdict_strs : List (List ℕ)
verdict_strs =
    (b'A' ∷ b'C' ∷ b'C' ∷ b'E' ∷ b'P' ∷ b'T' ∷ [])
    ∷ (b'D' ∷ b'R' ∷ b'O' ∷ b'P' ∷ [])
    ∷ (b'C' ∷ b'O' ∷ b'N' ∷ b'T' ∷ b'I' ∷ b'N' ∷ b'U' ∷ b'E' ∷ [])
    ∷ []

abbrev pub hook_strs : List (List ℕ)
hook_strs =
    (b'B' ∷ b'F' ∷ b'_' ∷ b'H' ∷ b'O' ∷ b'O' ∷ b'K' ∷ b'_' ∷ b'X' ∷ b'D' ∷ b'P' ∷ [])
    ∷ (b'B' ∷ b'F' ∷ b'_' ∷ b'H' ∷ b'O' ∷ b'O' ∷ b'K' ∷ b'_' ∷ b'T' ∷ b'C' ∷ b'_' ∷ b'I' ∷ b'N'
        ∷ b'G' ∷ b'R' ∷ b'E' ∷ b'S' ∷ b'S' ∷ [])
    ∷ (b'B' ∷ b'F' ∷ b'_' ∷ b'H' ∷ b'O' ∷ b'O' ∷ b'K' ∷ b'_' ∷ b'N' ∷ b'F' ∷ b'_' ∷ b'P' ∷ b'R'
        ∷ b'E' ∷ b'_' ∷ b'R' ∷ b'O' ∷ b'U' ∷ b'T' ∷ b'I' ∷ b'N' ∷ b'G' ∷ [])
    ∷ (b'B' ∷ b'F' ∷ b'_' ∷ b'H' ∷ b'O' ∷ b'O' ∷ b'K' ∷ b'_' ∷ b'N' ∷ b'F' ∷ b'_' ∷ b'L' ∷ b'O'
        ∷ b'C' ∷ b'A' ∷ b'L' ∷ b'_' ∷ b'I' ∷ b'N' ∷ [])
    ∷ (b'B' ∷ b'F' ∷ b'_' ∷ b'H' ∷ b'O' ∷ b'O' ∷ b'K' ∷ b'_' ∷ b'N' ∷ b'F' ∷ b'_' ∷ b'F' ∷ b'O'
        ∷ b'R' ∷ b'W' ∷ b'A' ∷ b'R' ∷ b'D' ∷ [])
    ∷ (b'B' ∷ b'F' ∷ b'_' ∷ b'H' ∷ b'O' ∷ b'O' ∷ b'K' ∷ b'_' ∷ b'C' ∷ b'G' ∷ b'R' ∷ b'O' ∷ b'U'
        ∷ b'P' ∷ b'_' ∷ b'I' ∷ b'N' ∷ b'G' ∷ b'R' ∷ b'E' ∷ b'S' ∷ b'S' ∷ [])
    ∷ (b'B' ∷ b'F' ∷ b'_' ∷ b'H' ∷ b'O' ∷ b'O' ∷ b'K' ∷ b'_' ∷ b'C' ∷ b'G' ∷ b'R' ∷ b'O' ∷ b'U'
        ∷ b'P' ∷ b'_' ∷ b'E' ∷ b'G' ∷ b'R' ∷ b'E' ∷ b'S' ∷ b'S' ∷ [])
    ∷ (b'B' ∷ b'F' ∷ b'_' ∷ b'H' ∷ b'O' ∷ b'O' ∷ b'K' ∷ b'_' ∷ b'N' ∷ b'F' ∷ b'_' ∷ b'L' ∷ b'O'
        ∷ b'C' ∷ b'A' ∷ b'L' ∷ b'_' ∷ b'O' ∷ b'U' ∷ b'T' ∷ [])
    ∷ (b'B' ∷ b'F' ∷ b'_' ∷ b'H' ∷ b'O' ∷ b'O' ∷ b'K' ∷ b'_' ∷ b'N' ∷ b'F' ∷ b'_' ∷ b'P' ∷ b'O'
        ∷ b'S' ∷ b'T' ∷ b'_' ∷ b'R' ∷ b'O' ∷ b'U' ∷ b'T' ∷ b'I' ∷ b'N' ∷ b'G' ∷ [])
    ∷ (b'B' ∷ b'F' ∷ b'_' ∷ b'H' ∷ b'O' ∷ b'O' ∷ b'K' ∷ b'_' ∷ b'T' ∷ b'C' ∷ b'_' ∷ b'E' ∷ b'G'
        ∷ b'R' ∷ b'E' ∷ b'S' ∷ b'S' ∷ [])
    ∷ []

abbrev pub matcher_type_strs : List (List ℕ)
matcher_type_strs =
    (b'm' ∷ b'e' ∷ b't' ∷ b'a' ∷ b'.' ∷ b'i' ∷ b'f' ∷ b'i' ∷ b'n' ∷ b'd' ∷ b'e' ∷ b'x' ∷ [])
    ∷ (b'm' ∷ b'e' ∷ b't' ∷ b'a' ∷ b'.' ∷ b'l' ∷ b'3' ∷ b'_' ∷ b'p' ∷ b'r' ∷ b'o' ∷ b't' ∷ b'o'
        ∷ [])
    ∷ (b'm' ∷ b'e' ∷ b't' ∷ b'a' ∷ b'.' ∷ b'l' ∷ b'4' ∷ b'_' ∷ b'p' ∷ b'r' ∷ b'o' ∷ b't' ∷ b'o'
        ∷ [])
    ∷ (b'm' ∷ b'e' ∷ b't' ∷ b'a' ∷ b'.' ∷ b's' ∷ b'p' ∷ b'o' ∷ b'r' ∷ b't' ∷ [])
    ∷ (b'm' ∷ b'e' ∷ b't' ∷ b'a' ∷ b'.' ∷ b'd' ∷ b'p' ∷ b'o' ∷ b'r' ∷ b't' ∷ [])
    ∷ (b'i' ∷ b'p' ∷ b'4' ∷ b'.' ∷ b's' ∷ b'a' ∷ b'd' ∷ b'd' ∷ b'r' ∷ [])
    ∷ (b'i' ∷ b'p' ∷ b'4' ∷ b'.' ∷ b'd' ∷ b'a' ∷ b'd' ∷ b'd' ∷ b'r' ∷ [])
    ∷ (b'i' ∷ b'p' ∷ b'4' ∷ b'.' ∷ b'p' ∷ b'r' ∷ b'o' ∷ b't' ∷ b'o' ∷ [])
    ∷ (b'i' ∷ b'p' ∷ b'6' ∷ b'.' ∷ b's' ∷ b'a' ∷ b'd' ∷ b'd' ∷ b'r' ∷ [])
    ∷ (b'i' ∷ b'p' ∷ b'6' ∷ b'.' ∷ b'd' ∷ b'a' ∷ b'd' ∷ b'd' ∷ b'r' ∷ [])
    ∷ (b't' ∷ b'c' ∷ b'p' ∷ b'.' ∷ b's' ∷ b'p' ∷ b'o' ∷ b'r' ∷ b't' ∷ [])
    ∷ (b't' ∷ b'c' ∷ b'p' ∷ b'.' ∷ b'd' ∷ b'p' ∷ b'o' ∷ b'r' ∷ b't' ∷ [])
    ∷ (b't' ∷ b'c' ∷ b'p' ∷ b'.' ∷ b'f' ∷ b'l' ∷ b'a' ∷ b'g' ∷ b's' ∷ [])
    ∷ (b'u' ∷ b'd' ∷ b'p' ∷ b'.' ∷ b's' ∷ b'p' ∷ b'o' ∷ b'r' ∷ b't' ∷ [])
    ∷ (b'u' ∷ b'd' ∷ b'p' ∷ b'.' ∷ b'd' ∷ b'p' ∷ b'o' ∷ b'r' ∷ b't' ∷ [])
    ∷ (b's' ∷ b'e' ∷ b't' ∷ b'.' ∷ b's' ∷ b'r' ∷ b'c' ∷ b'i' ∷ b'p' ∷ b'6' ∷ b'p' ∷ b'o' ∷ b'r'
        ∷ b't' ∷ [])
    ∷ (b's' ∷ b'e' ∷ b't' ∷ b'.' ∷ b's' ∷ b'r' ∷ b'c' ∷ b'i' ∷ b'p' ∷ b'6' ∷ [])
    ∷ []

abbrev pub matcher_ops_strs : List (List ℕ)
matcher_ops_strs =
    (b'e' ∷ b'q' ∷ [])
    ∷ (b'n' ∷ b'o' ∷ b't' ∷ [])
    ∷ (b'a' ∷ b'n' ∷ b'y' ∷ [])
    ∷ (b'a' ∷ b'l' ∷ b'l' ∷ [])
    ∷ (b'i' ∷ b'n' ∷ [])
    ∷ (b'r' ∷ b'a' ∷ b'n' ∷ b'g' ∷ b'e' ∷ [])
    ∷ []

abbrev pub matcher_tcp_flags_strs : List (List ℕ)
matcher_tcp_flags_strs =
    (b'F' ∷ b'I' ∷ b'N' ∷ [])
    ∷ (b'S' ∷ b'Y' ∷ b'N' ∷ [])
    ∷ (b'R' ∷ b'S' ∷ b'T' ∷ [])
    ∷ (b'P' ∷ b'S' ∷ b'H' ∷ [])
    ∷ (b'A' ∷ b'C' ∷ b'K' ∷ [])
    ∷ (b'U' ∷ b'R' ∷ b'G' ∷ [])
    ∷ (b'E' ∷ b'C' ∷ b'E' ∷ [])
    ∷ (b'C' ∷ b'W' ∷ b'R' ∷ [])
    ∷ []

-- Every table that the conversions use.
abbrev pub tables : List (List (List ℕ))
tables =
    verdict_strs ∷ hook_strs ∷ matcher_type_strs ∷ matcher_ops_strs ∷ matcher_tcp_flags_strs ∷ []

-- `bf_..._to_str`: a number outside of the enumeration fails the assertion.
unfoldable pub to_str : List (List ℕ) → ℕ → Result (List ℕ)
to_str strs code = elim (get_elem? strs code) [ none ↦ fault | some str ↦ ok str ]

-- The loop of `bf_..._from_str`, `i` being the number of the first string.
unfoldable pub search : List (List ℕ) → List ℕ → ℕ → Result ℕ
search [] str i = err einval
search (first ∷ strs) str i = elim (streq first str) [
  | true ↦ ok i
  | false ↦ search strs str (i + 1)
]

unfoldable pub from_str : List (List ℕ) → List ℕ → Result ℕ
unfolding search
from_str strs str = search strs str 0
