-- ===== src/Base/Result.antt =====
-- Code that may throw: a value, or the exception that leaves the function.
use mathlib.Core.Path.{◌≡◌, refl, ap, subst}
use mathlib.Core.Bool.{Bool, true, false}

pub data Result {ℓ κ} (E : Type κ) (A : Type ℓ) : Type (ℓ ⊔ κ) where
  ok : A → Result E A
  err : E → Result E A

infixl 5 ◌>>=◌ ◌>>◌
abbrev pub ◌>>=◌ {ℓ κ μ} :
    {E : Type μ} {A : Type ℓ} {B : Type κ} → Result E A → (A → Result E B) → Result E B
ok a >>= f = f a
err e >>= f = err e

abbrev pub ◌>>◌ {ℓ μ} : {E : Type μ} {B : Type ℓ} → Result E (Unit {0}) → Result E B → Result E B
m >> k = m >>= λ _. k

-- `if (test) { throw e; }`
abbrev pub throw_if {μ} : {E : Type μ} → Bool → E → Result E (Unit {0})
throw_if true e = err e
throw_if false e = ok tt

-- What came first, where a chain returned.
pub bind_ok {ℓ κ μ} :
    {E : Type μ} {A : Type ℓ} {B : Type κ} {f : A → Result E B} {b : B} (m : Result E A)
    → (m >>= f) ≡ ok b
    → (a : A) × (f a ≡ ok b) × (m ≡ ok a)
bind_ok (ok a) h = (a, h, refl)
bind_ok (err e) h = cc

pub >>-eq-ok {κ μ} :
    {E : Type μ} {B : Type κ} (t : Bool) (e : E) (k : Result E B) {b : B}
    → (throw_if t e >> k) ≡ ok b
    → (t ≡ false) × (k ≡ ok b)
>>-eq-ok true e k h = cc
>>-eq-ok false e k h = (refl, h)

-- If the code returns, the value is as `P` says.
pub data Ensures {ℓ κ μ} {E : Type μ} {A : Type ℓ} (P : A → Type κ)
    : Result E A → Type (ℓ ⊔ κ ⊔ μ) where
  returns : {a : A} → P a → Ensures P (ok a)
  throws : {e : E} → Ensures P (err e)

module _ {ℓ κ μ ν ξ} {E : Type μ} {A : Type ℓ} {B : Type ν} {P : A → Type κ} {Q : B → Type ξ} where
  pub Ensures-bind :
      {m : Result E A} {f : A → Result E B}
      → Ensures P m
      → ((a : A) → P a → Ensures Q (f a))
      → Ensures Q (m >>= f)
  Ensures-bind (returns {a} p) k = k a p
  Ensures-bind throws k = throws

pub Ensures-guard {ν μ ξ} :
    {E : Type μ} {B : Type ν} {Q : B → Type ξ} (test : Bool) (e : E) (k : Result E B)
    → (test ≡ false → Ensures Q k)
    → Ensures Q (throw_if test e >> k)
Ensures-guard true e k h = throws
Ensures-guard false e k h = h refl

pub Ensures-value {ℓ κ μ} :
    {E : Type μ} {A : Type ℓ} {P : A → Type κ} {r : Result E A}
    → Ensures P r
    → {a : A} → r ≡ ok a
    → P a
Ensures-value {P} (returns p) h = subst P (cc) p
Ensures-value throws h = cc

abbrev pub is_ok {ℓ μ} : {E : Type μ} {A : Type ℓ} → Result E A → Bool
is_ok (ok a) = true
is_ok (err e) = false

pub is_ok-value {ℓ μ} :
    {E : Type μ} {A : Type ℓ} (r : Result E A) → is_ok r ≡ true → (a : A) × (r ≡ ok a)
is_ok-value (ok a) h = (a, refl)
is_ok-value (err e) h = cc

abbrev value_or {ℓ μ} : {E : Type μ} {A : Type ℓ} → A → Result E A → A
value_or d (ok a) = a
value_or d (err e) = d

pub ok-injective {ℓ μ} :
    {E : Type μ} {A : Type ℓ} {a b : A} → ◌≡◌ {A = Result E A} (ok a) (ok b) → a ≡ b
ok-injective {a} h = ap (value_or a) h
