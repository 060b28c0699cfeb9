-- ===== src/Snapshot/Block.antt =====
-- `SearchBlock` and `add_search_text` of src/snapshot.cpp: the three bitmaps that summarise the
-- search texts of a run of packages. `const unsigned char` values are numbers below 256.
pub mod Grows
use Prim.Native.Nat.{bit_or, bit_xor}
use aurhub.Base.{ℕ, zero, suc, ◌+◌, ◌*◌, ◌/◌, ◌%◌, ◌^◌, List, [], ◌∷◌, replicate}
use aurhub.Bytes.{Bytes}
use aurhub.Snapshot.Bitmap.{Words, set_bit}

-- kByteBitmapWords and kBitmapWords
abbrev pub byte_bitmap_words : ℕ
byte_bitmap_words = 4

abbrev pub bitmap_words : ℕ
bitmap_words = 1024

pub record SearchBlock : Type 0 where
  pub first_package : ℕ
  pub package_count : ℕ
  pub reserved : ℕ
  pub bytes : Words
  pub bigrams : Words
  pub trigrams : Words

-- `SearchBlock{}`
unfoldable pub empty_block : SearchBlock
empty_block = record {
  first_package = 0;
  package_count = 0;
  reserved = 0;
  bytes = replicate byte_bitmap_words 0;
  bigrams = replicate bitmap_words 0;
  trigrams = replicate bitmap_words 0;
}

abbrev u16 : ℕ → ℕ
u16 x = x % 2 ^ 16

abbrev u32 : ℕ → ℕ
u32 x = x % 2 ^ 32

-- `std::uint32_t` arithmetic
unfoldable pub trigram_hash : ℕ → ℕ
trigram_hash value =
    let a = bit_xor value (value / 2 ^ 16) in
    let b = u32 (a * 0x7feb352d) in
    let c = bit_xor b (b / 2 ^ 15) in let d = u32 (c * 0x846ca68b) in bit_xor d (d / 2 ^ 16)

-- `first` and `second` are the low and the high half of the hash.
unfoldable pub add_trigram : Words → ℕ → Words
add_trigram ws trigram =
    let mixed = trigram_hash trigram in set_bit (set_bit ws (u16 mixed)) (u16 (mixed / 2 ^ 16))

-- `static_cast<std::uint16_t>((high << 8U) | low)`
unfoldable pub bigram : ℕ → ℕ → ℕ
bigram high low = u16 (bit_or (high * 2 ^ 8) low)

-- `(first << 16U) | (second << 8U) | third`, of 32 bits
unfoldable pub trigram_of : ℕ → ℕ → ℕ → ℕ
trigram_of first second third = bit_or (bit_or (u32 (first * 2 ^ 16)) (u32 (second * 2 ^ 8))) third

-- The three loops of `add_search_text`: every byte, every pair and every triple of neighbours.
unfoldable pub add_bytes : Words → Bytes → Words
add_bytes ws [] = ws
add_bytes ws (a ∷ t) = add_bytes (set_bit ws a) t

unfoldable pub add_bigrams : Words → Bytes → Words
add_bigrams ws [] = ws
add_bigrams ws (a ∷ []) = ws
add_bigrams ws (a ∷ b ∷ t) = add_bigrams (set_bit ws (bigram a b)) (b ∷ t)

unfoldable pub add_trigrams : Words → Bytes → Words
add_trigrams ws [] = ws
add_trigrams ws (a ∷ []) = ws
add_trigrams ws (a ∷ b ∷ []) = ws
add_trigrams ws (a ∷ b ∷ c ∷ t) = add_trigrams (add_trigram ws (trigram_of a b c)) (b ∷ c ∷ t)

unfoldable pub add_search_text : SearchBlock → Bytes → SearchBlock
add_search_text block text = record block {
  bytes = add_bytes block.bytes text;
  bigrams = add_bigrams block.bigrams text;
  trigrams = add_trigrams block.trigrams text;
}
