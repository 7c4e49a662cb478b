-- ===== src/Ipt/Bits.antt =====
-- The bits of `valid_hooks`, which are set one after the other.
use Prim.Native.Nat.{bit_or}
use bpfilter.Prelude.{
  ℕ, ◌+◌, ◌^◌, ◌<◌, ◌≡◌, refl, Bool, true, false, not, ◌&&◌, ltb, if◌then◌else◌, every, every-holds,
  arith,
}
use bpfilter.Hook.{has_flag}

same : Bool → Bool → Bool
same a b = if a then b else not b

same-eq : (a b : Bool) → same a b ≡ true → a ≡ b
unfolding same
same-eq true true h = refl
same-eq true false h = cc
same-eq false true h = cc
same-eq false false h = refl

-- The bit of the hook is added to bits below it.
added : ℕ → ℕ → Bool
unfolding same has_flag every
added hook flags =
    has_flag (bit_or flags (2 ^ hook)) hook
    && (not (has_flag flags hook)
        && (ltb (bit_or flags (2 ^ hook)) (2 ^ (hook + 1))
            && every hook
                (λ lower. same (has_flag (bit_or flags (2 ^ hook)) lower) (has_flag flags lower))))

all_added : every 5 (λ hook. every (2 ^ hook) (added hook)) ≡ true
unfolding every added same has_flag
all_added = refl

both : (a b : Bool) → (a && b) ≡ true → (a ≡ true) × (b ≡ true)
both true b h = (refl, h)
both false b h = cc

negated : (a : Bool) → not a ≡ true → a ≡ false
negated true h = cc
negated false h = refl

module _ (hook flags : ℕ) (known : hook < 5) (below : flags < 2 ^ hook) where
  is_added : added hook flags ≡ true
  is_added =
      every-holds (2 ^ hook) (added hook) flags
        (every-holds 5 (λ h. every (2 ^ h) (added h)) hook all_added known) below

  parts :
      (has_flag (bit_or flags (2 ^ hook)) hook ≡ true)
      × (not (has_flag flags hook) ≡ true)
      × (ltb (bit_or flags (2 ^ hook)) (2 ^ (hook + 1)) ≡ true)
      × (every hook
            (λ lower. same (has_flag (bit_or flags (2 ^ hook)) lower) (has_flag flags lower))
          ≡ true)
  unfolding added
  parts =
      let (a, b) = both _ _ is_added in
      let (c, d) = both _ _ b in let (e, f) = both _ _ d in (a, c, e, f)

  pub bit_or_self : has_flag (bit_or flags (2 ^ hook)) hook ≡ true
  bit_or_self = parts.0

  pub has_flag-above : has_flag flags hook ≡ false
  has_flag-above = negated _ parts.1

  pub bit_or-below : bit_or flags (2 ^ hook) < 2 ^ (hook + 1)
  bit_or-below = ground (arith, parts.2)

  pub bit_or-other :
      (lower : ℕ) → lower < hook → has_flag (bit_or flags (2 ^ hook)) lower ≡ has_flag flags lower
  bit_or-other lower h = same-eq _ _ (
      every-holds hook (λ i. same (has_flag (bit_or flags (2 ^ hook)) i) (has_flag flags i)) lower
        parts.3 h)
