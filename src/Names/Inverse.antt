-- ===== src/Names/Inverse.antt =====
-- The two conversions of an enumeration, one after the other.
use bpfilter.Prelude.{
  ℕ, zero, suc, ◌+◌, ◌≡◌, refl, ap, ◌∙◌, Bool, true, false, not, ◌&&◌, List, [], ◌∷◌, some,
  get_elem?, Bool-cases, Option-cases, inl, inr, arith, All, All-get_elem?, some_injective,
}
use bpfilter.Result.{ok, ok_injective}
use bpfilter.Hook.Options.{streq}
use bpfilter.Printer.Packed.{streq_eq, streq_refl}
use bpfilter.Names.{tables, to_str, search, from_str}

-- No string of the list is `str`.
absent : List ℕ → List (List ℕ) → Bool
absent str [] = true
absent str (first ∷ strs) = not (streq str first) && absent str strs

-- No two strings of the list are equal.
distinct : List (List ℕ) → Bool
unfolding absent
distinct [] = true
distinct (first ∷ strs) = absent first strs && distinct strs

tables-distinct : All (λ strs. distinct strs ≡ true) tables
unfolding distinct streq
tables-distinct = (refl, (refl, (refl, (refl, (refl, tt)))))

absent-get_elem? :
    (first : List ℕ) (strs : List (List ℕ)) (i : ℕ) (str : List ℕ)
    → absent first strs ≡ true
    → get_elem? strs i ≡ some str
    → streq first str ≡ false
unfolding absent
absent-get_elem? first [] i str a h = cc
absent-get_elem? first (other ∷ strs) zero str a h =
    let same : other ≡ str = some_injective h in rw (← same) (ground (arith, a))
absent-get_elem? first (other ∷ strs) (suc i) str a h =
    absent-get_elem? first strs i str (ground (arith, a)) h

search-get_elem? :
    (strs : List (List ℕ)) (str : List ℕ) (i at : ℕ)
    → distinct strs ≡ true
    → get_elem? strs i ≡ some str
    → search strs str at ≡ ok (at + i)
unfolding search distinct
search-get_elem? [] str i at d h = cc
search-get_elem? (first ∷ strs) str zero at d h =
    let same : first ≡ str = some_injective h in
    rw (← same, search, streq_refl first) (ap ok (omega arith))
search-get_elem? (first ∷ strs) str (suc i) at d h =
    let other = absent-get_elem? first strs i str (ground (arith, d)) h in
    rw (search, other)
      (search-get_elem? strs str i (at + 1) (ground (arith, d)) h ∙ ap ok (omega arith))

-- For each enumeration, the number that has a name is what the name is converted back to.
pub from_str-to_str :
    (n code : ℕ) (strs : List (List ℕ)) (str : List ℕ)
    → get_elem? tables n ≡ some strs
    → to_str strs code ≡ ok str
    → from_str strs str ≡ ok code
unfolding from_str to_str
from_str-to_str n code strs str known h =
    let d = All-get_elem? (λ t. distinct t ≡ true) tables n tables-distinct known in
    elim (Option-cases (get_elem? strs code)) [
      | inl e ↦ absurd (ground (arith, e))
      | inr (s, e) ↦
          let same : s ≡ str = ok_injective (rw (to_str, e) at h) in
          search-get_elem? strs str code 0 d (e ∙ ap some same) ∙ ap ok (omega arith)
    ]

search-found :
    (strs : List (List ℕ)) (str : List ℕ) (at code : ℕ)
    → search strs str at ≡ ok code
    → (i : ℕ) × (code ≡ at + i) × (get_elem? strs i ≡ some str)
unfolding search
search-found [] str at code h = cc
search-found (first ∷ strs) str at code h = elim (Bool-cases (streq first str)) [
  | inl e ↦
      let here : at ≡ code = ok_injective (rw (search, e) at h) in
      (0, omega (arith, here), ap some (streq_eq first str e))
  | inr e ↦
      let (i, place, there) = search-found strs str (at + 1) code (rw (search, e) at h) in
      (suc i, omega (arith, place), there)
]

-- For any table of names, when a string is converted to a number, that number's name is the string.
pub to_str-from_str :
    (code : ℕ) (strs : List (List ℕ)) (str : List ℕ)
    → from_str strs str ≡ ok code
    → to_str strs code ≡ ok str
unfolding from_str to_str
to_str-from_str code strs str h =
    let (i, place, there) = search-found strs str 0 code h in
    let same : code ≡ i = omega (arith, place) in rw (to_str, same, there) refl
