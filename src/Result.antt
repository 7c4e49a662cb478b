-- ===== src/Result.antt =====
-- How a C function of the repository ends. Allocations succeed, so no -ENOMEM is modelled.
use bpfilter.Prelude.{ℕ, ◌≡◌, ◌≢◌, refl, Bool, true, false}

-- `ok`: 0 was returned and the out-parameters are set. `err e`: the function returned -e.
-- `fault`: a failed assertion, or an access outside of the memory block it is made in.
pub data Result {ℓ} (A : Type ℓ) : Type ℓ where
  ok : A → Result A
  err : ℕ → Result A
  fault : Result A

infixl 5 ◌>>=◌ ◌>>◌
-- A failure ends the sequence of calls.
abbrev pub ◌>>=◌ {ℓ κ} : {A : Type ℓ} {B : Type κ} → Result A → (A → Result B) → Result B
fault >>= rest = fault
err errno >>= rest = err errno
ok value >>= rest = rest value

abbrev pub ◌>>◌ {ℓ} : {B : Type ℓ} → Result (Unit {0}) → Result B → Result B
m >> k = m >>= λ _. k

-- `bf_assert(b)`
abbrev pub assert : Bool → Result (Unit {0})
assert true = ok tt
assert false = fault

-- `if (!b) return -e;`
abbrev pub require : Bool → ℕ → Result (Unit {0})
require true e = ok tt
require false e = err e

-- The errno values that the modelled code returns.
abbrev pub enoent : ℕ
enoent = 2

abbrev pub eperm : ℕ
eperm = 1

abbrev pub e2big : ℕ
e2big = 7

abbrev pub eexist : ℕ
eexist = 17

abbrev pub einval : ℕ
einval = 22

abbrev pub enotsup : ℕ
enotsup = 95

pub bind-ne-fault {ℓ κ} :
    {A : Type ℓ} {B : Type κ} (r : Result A) (f : A → Result B)
    → r ≢ fault
    → ((a : A) → f a ≢ fault)
    → (r >>= f) ≢ fault
bind-ne-fault (ok a) f h k = k a
bind-ne-fault (err e) f h k = cc
bind-ne-fault fault f h k = absurd (h refl)

pub ok_injective {ℓ} : {A : Type ℓ} {a b : A} → ok a ≡ ok b → a ≡ b
ok_injective h = cc

-- Inversion of a successful step.
pub >>=-eq-ok {ℓ κ} :
    {A : Type ℓ} {B : Type κ} (r : Result A) (f : A → Result B) {b : B}
    → (r >>= f) ≡ ok b
    → (a : A) × (r ≡ ok a) × (f a ≡ ok b)
>>=-eq-ok (ok a) f h = (a, refl, h)
>>=-eq-ok (err e) f h = cc
>>=-eq-ok fault f h = cc

-- The call succeeds, and its result has the property.
abbrev pub Gives {ℓ κ} : {A : Type ℓ} → Result A → (A → Type κ) → Type (ℓ ⊔ κ)
Gives m P = (a : _) × (m ≡ ok a) × P a

-- A sequence of calls: what the first one gives is what the second one needs.
pub Gives-bind {ℓ κ μ ν} :
    {A : Type ℓ} {B : Type κ} {m : Result A} {k : A → Result B} {P : A → Type μ} {Q : B → Type ν}
    → Gives m P
    → ((a : A) → P a → Gives (k a) Q)
    → Gives (m >>= k) Q
Gives-bind (a, e, h) then = let (b, f, g) = then a h in (b, rw (e, ◌>>=◌) f, g)
