-- ===== src/Strings.antt =====
-- Arrays of characters: bf_strncpy of src/core/helper.c, and what `snprintf` writes for the formats in
-- src/bpfilter/cgen/program.c. A C string is its bytes without the final 0.
use bpfilter.Prelude.{
  ℕ, zero, suc, ◌+◌, ◌-◌, ◌/◌, ◌%◌, List, [], ◌∷◌, ◌++◌, ltb, ◌==◌, if◌then◌else◌, length, take,
  drop,
}
use Prim.Native.Char.{code}
use Prim.Native.String.{String}
use bpfilter.Result.{Result, ok, fault, ◌>>=◌}

-- A string literal of the source.
abbrev pub codes : String → List ℕ
codes String.[] = []
codes (String.◌∷◌ c s) = code c ∷ codes s

-- `bf_min`
abbrev min : ℕ → ℕ → ℕ
min a b = if ltb b a then b else a

-- bf_strncpy into an array of `len` bytes; its callers ignore that the text was cut off.
unfoldable pub strncpy : List ℕ → ℕ → List ℕ → List ℕ
strncpy dst len src = let n = min (length src) (len - 1) in take n src ++ (0 ∷ drop (n + 1) dst)

-- `snprintf(s, len, ...)` keeps at most `len - 1` bytes.
abbrev pub clip : ℕ → List ℕ → List ℕ
clip len text = take (len - 1) text

abbrev pub hex_digit : ℕ → ℕ
hex_digit d = if ltb d 10 then b'0' + d else b'a' + d - 10

-- `%0<width>x` of a number that has at most `width` digits
unfoldable pub hex : ℕ → ℕ → List ℕ
hex zero n = []
hex (suc width) n = hex width (n / 16) ++ hex_digit (n % 16) ∷ []

-- `strndup(p, n)`: up to `n` bytes, or up to the first 0.
unfoldable pub strndup : List ℕ → ℕ → Result (List ℕ)
strndup [] n = if n == 0 then ok [] else fault
strndup (c ∷ bytes) n =
    if n == 0 then ok [] else if c == 0 then ok [] else (strndup bytes (n - 1) >>= λ s. ok (c ∷ s))

-- "%ld" of a number with at most `digits` digits.
unfoldable pub decimal : ℕ → ℕ → List ℕ
decimal zero n = []
decimal (suc digits) n =
    let rest = decimal digits (n / 10) in
    if ltb n 10 then (b'0' + n) ∷ [] else rest ++ (b'0' + n % 10) ∷ []
