-- ===== src/Prog/Pin/Branches.antt =====
-- Branches on an error, and conditions that are put together.
use bpfilter.Prelude.{
  ℕ, ◌≡◌, ◌≢◌, ◌⊎◌, inl, inr, refl, Bool, true, false, not, ◌&&◌, ◌||◌, ◌==◌, arith,
}
use bpfilter.Result.{Result, Gives, Gives-bind}
use bpfilter.Prog.Pin.{or_fail}

pub or_fail-Gives :
    {Dir : Type 0} (P Q : Dir → Type 0) (R : ℕ × Dir → Type 0) (step : Result (ℕ × Dir))
    (next : Dir → Result (ℕ × Dir)) (fail : ℕ → Dir → Result (ℕ × Dir))
    → Gives step (λ x. ((x.0 ≡ 0) × P x.1) ⊎ ((x.0 ≢ 0) × Q x.1))
    → ((d : Dir) → P d → Gives (next d) R)
    → ((r : ℕ) (d : Dir) → r ≢ 0 → Q d → Gives (fail r d) R)
    → Gives (or_fail step next fail) R
unfolding or_fail
or_fail-Gives P Q R step next fail g a b =
    Gives-bind g λ x h. elim h [
      | inl (z, k) ↦ rw z (a x.1 k)
      | inr (n, k) ↦ rw (not_zero x.0 n) (b x.0 x.1 n k)
    ]
  where
    not_zero : (n : ℕ) → n ≢ 0 → (n == 0) ≡ false
    not_zero n h = ground (arith, h)

pub and_true : (a : Bool) → (a && true) ≡ a
and_true true = refl
and_true false = refl

pub or_swap : (a b c : Bool) → (a || (b || c)) ≡ ((b || a) || c)
or_swap true true c = refl
or_swap true false c = refl
or_swap false true c = refl
or_swap false false c = refl

pub or_right : (a b : Bool) → (a || b) ≡ false → b ≡ false
or_right true b q = cc
or_right false b q = q

pub and_not : (a b c : Bool) → ((a && not b) && not c) ≡ (a && not (b || c))
and_not false b c = refl
and_not true true c = refl
and_not true false c = refl

pub and_false : (a : Bool) → (a && false) ≡ false
and_false true = refl
and_false false = refl

pub or_assoc : (a b c : Bool) → (a || (b || c)) ≡ ((a || b) || c)
or_assoc true b c = refl
or_assoc false b c = refl
