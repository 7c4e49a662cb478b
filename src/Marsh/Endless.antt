-- ===== src/Marsh/Endless.antt =====
-- The walk of src/core/marsh.h over a child whose end wraps to its own start.
use bpfilter.Prelude.{ℕ, zero, suc, ◌-◌, ◌^◌, ◌<◌, ◌≡◌, refl, ap, List, Option, some, arith}
use bpfilter.Result.{Result, ok, fault, ◌>>=◌, >>=-eq-ok, ok_injective}
use bpfilter.Marsh.{data_len, marsh_end, next_child, each_child}
use bpfilter.Marsh.Safety.{next_child-Inside}

marsh_end-below : (b : List ℕ) (m last : ℕ) → marsh_end b m ≡ ok last → last < 2 ^ 64
unfolding marsh_end
marsh_end-below b m last h =
    let (n, e, k) = >>=-eq-ok (data_len b m) _ h in omega (arith, ok_injective k)

module _ (b : List ℕ) (m c : ℕ) (long : data_len b c ≡ ok (2 ^ 64 - 8)) where
  own_end : c < 2 ^ 64 → marsh_end b c ≡ ok c
  unfolding marsh_end
  own_end below = rw (long, ◌>>=◌) (ap ok (omega (arith, below)))

  own_next :
      (child : Option ℕ)
      → next_child b m child ≡ ok (some c)
      → next_child b m (some c) ≡ ok (some c)
  unfolding next_child
  own_next child h =
      let (i, (valid, start)) = next_child-Inside b m child c h in
      let below : c < 2 ^ 64 =
        omega (arith, i.header_inside, marsh_end-below b m i.last i.parent_end) in
      rw (own_end below, ◌>>=◌, valid) refl

  -- If bf_marsh_next_child returns a child that states 2^64 - 8 as its length, then the loop over the
  -- children does not end with a body that succeeds on this child: it runs out of any number of rounds.
  pub each_child_endless {ℓ} :
      {A : Type ℓ} (body : ℕ → Result A) (x : A) (fuel : ℕ) (child : Option ℕ)
      → body c ≡ ok x
      → next_child b m child ≡ ok (some c)
      → each_child fuel body b m child ≡ fault
  unfolding each_child
  each_child_endless body x zero child s h = refl
  each_child_endless body x (suc fuel) child s h =
      rw (h, ◌>>=◌, s, each_child_endless body x fuel (some c) s (own_next child h)) refl
