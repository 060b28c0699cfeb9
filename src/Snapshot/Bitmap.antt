-- ===== src/Snapshot/Bitmap.antt =====
-- The bitmaps of a search block: arrays of 64-bit words, where bit `x` is bit `x & 63` of word
-- `x >> 6`. A mask is `1 << (x & 63)`, which is below 2 ^ 64, so no shift here loses a bit.
use Prim.Native.Nat.{bit_and, bit_or}
use native.Mathlib.Nat.{one-le-pow}
use aurhub.Base.{
  ℕ, ◌/◌, ◌^◌, ◌≤◌, ◌<◌, ◌≡◌, Bool, true, not, List, length, get_or, set, length-set,
  get_or-set_self, get_or-set_ne, ◌==◌, arith, ℕ_discrete,
}
use aurhub.Bits.{and-le-and-or, le-and-or}

abbrev pub Words : Type 0
Words = List ℕ

-- `std::uint64_t{1} << (x & 63U)`
pub mask : ℕ → ℕ
mask x = 2 ^ bit_and x 63

-- `words[x >> 6U] |= std::uint64_t{1} << (x & 63U)`
unfoldable pub set_bit : Words → ℕ → Words
unfolding mask
set_bit ws x = set ws (x / 64) (bit_or (get_or ws (x / 64) 0) (mask x))

-- `(words[x >> 6U] & (std::uint64_t{1} << (x & 63U))) != 0`
unfoldable pub has_bit : Words → ℕ → Bool
unfolding mask
has_bit ws x = not (bit_and (get_or ws (x / 64) 0) (mask x) == 0)

-- `big` has every bit that `small` has.
abbrev pub Extends : Words → Words → Type 0
Extends small big = (x : ℕ) → has_bit small x ≡ true → has_bit big x ≡ true

pub length-set_bit : (ws : Words) (x : ℕ) → length (set_bit ws x) ≡ length ws
unfolding set_bit
length-set_bit ws x = length-set ws _ _

pos-mask : (x : ℕ) → 1 ≤ mask x
unfolding mask
pos-mask x = one-le-pow (bit_and x 63) 2 (omega arith)

-- Setting a bit of the array sets it.
pub has_bit-set_bit : (ws : Words) (x : ℕ) → x / 64 < length ws → has_bit (set_bit ws x) x ≡ true
unfolding set_bit has_bit
has_bit-set_bit ws x h =
    let w = get_or ws (x / 64) 0 in
    rw (get_or-set_self ws (x / 64) (bit_or w (mask x)) 0 h)
      (ground (arith, le-and-or w (mask x), pos-mask x))

set_bit-same_word :
    (ws : Words) (x y : ℕ)
    → x / 64 ≡ y / 64
    → y / 64 < length ws
    → has_bit ws y ≡ true
    → has_bit (set_bit ws x) y ≡ true
unfolding set_bit has_bit
set_bit-same_word ws x y e h b =
    let w = get_or ws (y / 64) 0 in
    rw (e, get_or-set_self ws (y / 64) (bit_or w (mask x)) 0 h)
      (ground (arith, and-le-and-or w (mask x) (mask y)))

pub set_bit-Extends : (ws : Words) (x : ℕ) → x / 64 < length ws → Extends ws (set_bit ws x)
set_bit-Extends ws x h y b = elim (ℕ_discrete (x / 64) (y / 64)) [
  | yes e ↦ set_bit-same_word ws x y e (omega arith) b
  | no ne ↦
      unfold set_bit has_bit in
      rw (get_or-set_ne ws (x / 64) (y / 64) (bit_or (get_or ws (x / 64) 0) (mask x)) 0 ne) b
]
