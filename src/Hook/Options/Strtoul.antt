-- ===== src/Hook/Options/Strtoul.antt =====
-- C's `strtoul(s, NULL, 0)` on the text of an option: the value, and the errno that it leaves.
use bpfilter.Prelude.{
  ℕ, ◌+◌, ◌-◌, ◌*◌, ◌%◌, ◌^◌, Bool, false, ◌&&◌, ◌||◌, List, [], ◌∷◌, ltb, leb, ◌==◌, if◌then◌else◌,
}

-- `isspace` in the C locale
is_space : ℕ → Bool
is_space c = c == 32 || (leb 9 c && leb c 13)

skip_spaces : List ℕ → List ℕ
skip_spaces [] = []
skip_spaces (c ∷ s) = if is_space c then skip_spaces s else c ∷ s

-- The digit's value; one that is no digit in any base is 36.
digit : ℕ → ℕ
digit c =
    if leb b'0' c && leb c b'9'
    then c - b'0'
    else if leb b'a' c && leb c b'z'
    then c - b'a' + 10
    else if leb b'A' c && leb c b'Z'
    then c - b'A' + 10
    else 36

-- The number that the digits at the front stand for.
digits : ℕ → ℕ → List ℕ → ℕ
digits base acc [] = acc
digits base acc (c ∷ s) =
    let more = digits base (acc * base + digit c) s in if ltb (digit c) base then more else acc

starts_hex : List ℕ → Bool
starts_hex (x ∷ d ∷ s) = (x == b'x' || x == b'X') && ltb (digit d) 16
starts_hex s = false

after_first : List ℕ → List ℕ
after_first [] = []
after_first (c ∷ s) = s

-- Base 0: "0x" begins a hexadecimal number, "0" an octal one.
magnitude : List ℕ → ℕ
magnitude [] = 0
magnitude (c ∷ s) =
    if c == b'0'
    then if starts_hex s then digits 16 0 (after_first s) else digits 8 0 s
    else digits 10 0 (c ∷ s)

-- ERANGE is 34.
abbrev in_range : ℕ → ℕ → ℕ × ℕ
in_range n value = if ltb n (2 ^ 64) then (value, 0) else (2 ^ 64 - 1, 34)

-- A minus sign negates in unsigned arithmetic.
signed : List ℕ → ℕ × ℕ
signed [] = (0, 0)
signed (c ∷ s) =
    if c == b'-'
    then in_range (magnitude s) ((2 ^ 64 - magnitude s) % 2 ^ 64)
    else if c == b'+'
    then in_range (magnitude s) (magnitude s)
    else in_range (magnitude (c ∷ s)) (magnitude (c ∷ s))

unfoldable pub strtoul : List ℕ → ℕ × ℕ
unfolding signed skip_spaces is_space magnitude digits digit starts_hex after_first
strtoul s = signed (skip_spaces s)
