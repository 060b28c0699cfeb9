-- ===== src/Search/Query.antt =====
-- The query side of src/search.cpp: `normalize_search_query`, and the test of a query against the
-- bitmaps of a block.
pub mod Sound
pub mod Complete
use Prim.Native.Nat.{bit_or, bit_xor}
use aurhub.Base.{
  ℕ, ◌+◌, ◌-◌, ◌*◌, ◌/◌, ◌%◌, ◌^◌, Bool, true, false, ◌&&◌, [], ◌∷◌, map, leb, if◌then◌else◌,
}
use aurhub.Bytes.{Bytes}
use aurhub.Snapshot.Bitmap.{Words, has_bit}
use aurhub.Snapshot.Block.{SearchBlock}

-- the body of the loop of `normalize_search_query`
unfoldable pub lower_byte : ℕ → ℕ
lower_byte byte = if leb b'A' byte && leb byte b'Z' then byte + (b'a' - b'A') else byte

unfoldable pub normalize_search_query : Bytes → Bytes
normalize_search_query = map lower_byte

-- `std::uint32_t` arithmetic
unfoldable pub trigram_hash : ℕ → ℕ
trigram_hash value =
    let a = bit_xor value (value / 2 ^ 16) in
    let b = a * 0x7feb352d % 2 ^ 32 in
    let c = bit_xor b (b / 2 ^ 15) in let d = c * 0x846ca68b % 2 ^ 32 in bit_xor d (d / 2 ^ 16)

unfoldable pub trigram_maybe_present : SearchBlock → ℕ → Bool
trigram_maybe_present block trigram =
    let mixed = trigram_hash trigram in
    has_bit block.trigrams (mixed % 2 ^ 16) && has_bit block.trigrams (mixed / 2 ^ 16 % 2 ^ 16)

-- The two loops of `bitmap_contains`, each of which leaves with `false` at the first miss.
unfoldable pub trigrams_present : SearchBlock → Bytes → Bool
trigrams_present block [] = true
trigrams_present block (a ∷ []) = true
trigrams_present block (a ∷ b ∷ []) = true
trigrams_present block (a ∷ b ∷ c ∷ q) =
    trigram_maybe_present block (bit_or (bit_or (a * 2 ^ 16 % 2 ^ 32) (b * 2 ^ 8 % 2 ^ 32)) c)
    && trigrams_present block (b ∷ c ∷ q)

unfoldable pub bigrams_present : SearchBlock → Bytes → Bool
bigrams_present block [] = true
bigrams_present block (a ∷ []) = true
bigrams_present block (a ∷ b ∷ q) =
    has_bit block.bigrams (bit_or (a * 2 ^ 8) b % 2 ^ 16) && bigrams_present block (b ∷ q)

unfoldable pub bitmap_contains : SearchBlock → Bytes → Bool
unfolding trigrams_present bigrams_present trigram_maybe_present
bitmap_contains block [] = false
bitmap_contains block (a ∷ []) = has_bit block.bytes a
bitmap_contains block (a ∷ b ∷ q) =
    trigrams_present block (a ∷ b ∷ q) && bigrams_present block (a ∷ b ∷ q)
