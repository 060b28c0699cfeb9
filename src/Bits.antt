-- ===== src/Bits.antt =====
-- `|` and `&` with one bit, on the native numbers: what `w |= 1 << k` does to each bit.
use Prim.Native.Nat.{digits, bitwise, bit_and, bit_or, bit_and-bitwise, bit_or-bitwise}
use aurhub.Base.{ℕ, zero, suc, ◌+◌, ◌*◌, ◌/◌, ◌%◌, ◌≤◌, min, max, ◌≡◌, refl, arith}

-- The recursion on digits has enough fuel as soon as the fuel reaches the left number.
digits_enough :
    (z : ℕ → ℕ) (f : ℕ → ℕ → ℕ) (n m a b : ℕ) → a ≤ n → a ≤ m → digits z f n a b ≡ digits z f m a b
digits_enough z f zero zero zero b p q = refl
digits_enough z f zero (suc m) zero b p q = refl
digits_enough z f (suc n) zero zero b p q = refl
digits_enough z f (suc n) (suc m) zero b p q = refl
digits_enough z f zero m (suc a) b p q = absurd (omega arith)
digits_enough z f (suc n) zero (suc a) b p q = absurd (omega arith)
digits_enough z f (suc n) (suc m) (suc a) b p q =
    rw (digits_enough z f n m (suc a / 2) (b / 2) (omega arith) (omega arith))

digits-halves :
    (z : ℕ → ℕ) (f : ℕ → ℕ → ℕ) (a b : ℕ)
    → bitwise z f (suc a) b ≡ bitwise z f (suc a / 2) (b / 2) * 2 + f (suc a % 2) (b % 2)
digits-halves z f a b =
    rw (digits_enough z f a (suc a / 2) (suc a / 2) (b / 2) (omega arith) (omega arith))

and-halves : (a b : ℕ) → bit_and a b ≡ bit_and (a / 2) (b / 2) * 2 + min (a % 2) (b % 2)
and-halves zero b = omega (arith, bit_and-bitwise 0 b, bit_and-bitwise 0 (b / 2))
and-halves (suc a) b = omega (
  arith,
  bit_and-bitwise (suc a) b,
  bit_and-bitwise (suc a / 2) (b / 2),
  digits-halves (λ y. 0) min a b,
)

or-halves : (a b : ℕ) → bit_or a b ≡ bit_or (a / 2) (b / 2) * 2 + max (a % 2) (b % 2)
or-halves zero b = omega (arith, bit_or-bitwise 0 b, bit_or-bitwise 0 (b / 2))
or-halves (suc a) b = omega (
  arith,
  bit_or-bitwise (suc a) b,
  bit_or-bitwise (suc a / 2) (b / 2),
  digits-halves (λ y. y) max a b,
)

or-half : (a b : ℕ) → bit_or a b / 2 ≡ bit_or (a / 2) (b / 2)
or-half a b = omega (arith, or-halves a b)

or-low : (a b : ℕ) → bit_or a b % 2 ≡ max (a % 2) (b % 2)
or-low a b = omega (arith, or-halves a b)

and-or-halves :
    (w b c : ℕ)
    → bit_and (bit_or w b) c
      ≡ bit_and (bit_or (w / 2) (b / 2)) (c / 2) * 2 + min (max (w % 2) (b % 2)) (c % 2)
and-or-halves w b c = rw (← or-half w b, ← or-low w b) (and-halves (bit_or w b) c)

and-le-and-or_fuel : (n w b c : ℕ) → w ≤ n → bit_and w c ≤ bit_and (bit_or w b) c
and-le-and-or_fuel n zero b c h = omega (arith, bit_and-bitwise 0 c)
and-le-and-or_fuel zero (suc w) b c h = absurd (omega arith)
and-le-and-or_fuel (suc n) (suc w) b c h = omega (
  arith,
  and-halves (suc w) c,
  and-or-halves (suc w) b c,
  and-le-and-or_fuel n (suc w / 2) (b / 2) (c / 2) (omega arith),
)

-- Bits that a mask selects are still selected after other bits are set.
pub and-le-and-or : (w b c : ℕ) → bit_and w c ≤ bit_and (bit_or w b) c
and-le-and-or w b c = and-le-and-or_fuel w w b c (omega arith)

le-and-or_fuel : (n w b : ℕ) → b ≤ n → b ≤ bit_and (bit_or w b) b
le-and-or_fuel n w zero h = omega arith
le-and-or_fuel zero w (suc b) h = absurd (omega arith)
le-and-or_fuel (suc n) w (suc b) h =
    omega
      (arith, and-or-halves w (suc b) (suc b), le-and-or_fuel n (w / 2) (suc b / 2) (omega arith))

-- Every bit of a mask is selected after the mask is set.
pub le-and-or : (w b : ℕ) → b ≤ bit_and (bit_or w b) b
le-and-or w b = le-and-or_fuel b w b (omega arith)
