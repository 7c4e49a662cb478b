-- ===== src/Hook/Options/Flags.antt =====
-- The flag set `used_opts`: what `|= 1 << opt` does to each flag.
use Prim.Native.Nat.{bit_or}
use bpfilter.Prelude.{
  ℕ, ◌^◌, ◌<◌, ◌≡◌, refl, Bool, true, false, not, ◌||◌, ltb, ◌==◌, every, every-holds, arith,
}
use bpfilter.Hook.{has_flag}

same_bool : Bool → Bool → Bool
same_bool true b = b
same_bool false b = not b

same_bool_eq : (a b : Bool) → same_bool a b ≡ true → a ≡ b
unfolding same_bool
same_bool_eq a b h = ground arith

abbrev row : ℕ → ℕ → ℕ → Bool
row used opt i = same_bool (has_flag (bit_or used (2 ^ opt)) i) (has_flag used i || (i == opt))

flag_table : every 16 (λ used. every 4 (λ opt. every 4 (row used opt))) ≡ true
unfolding every has_flag same_bool
flag_table = refl

bound_table : every 16 (λ used. every 4 (λ opt. ltb (bit_or used (2 ^ opt)) 16)) ≡ true
unfolding every
bound_table = refl

module _ (used opt : ℕ) (used_fits : used < 16) (opt_fits : opt < 4) where
  pub has_flag-bit_or :
      (i : ℕ) → i < 4 → has_flag (bit_or used (2 ^ opt)) i ≡ (has_flag used i || (i == opt))
  has_flag-bit_or i h =
      let table =
        every-holds 16 (λ u. every 4 (λ o. every 4 (row u o))) used flag_table used_fits in
      let rest = every-holds 4 (λ o. every 4 (row used o)) opt table opt_fits in
      same_bool_eq _ _ (every-holds 4 (row used opt) i rest h)

  pub bit_or-lt : bit_or used (2 ^ opt) < 16
  bit_or-lt =
      let table =
        every-holds 16 (λ u. every 4 (λ o. ltb (bit_or u (2 ^ o)) 16)) used bound_table used_fits in
      let rest = every-holds 4 (λ o. ltb (bit_or used (2 ^ o)) 16) opt table opt_fits in
      ground (arith, rest)
