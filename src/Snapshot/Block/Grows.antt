-- ===== src/Snapshot/Block/Grows.antt =====
-- The sizes and the bits of the bitmaps in `add_search_text` of src/snapshot.cpp.
use aurhub.Base.{ℕ, ◌/◌, ◌%◌, ◌^◌, ◌<◌, ◌≡◌, refl, ◌∙◌, [], ◌∷◌, length, length-replicate, arith}
use aurhub.Bytes.{Bytes, AreBytes}
use aurhub.Snapshot.Bitmap.{Words, Extends, length-set_bit, set_bit, set_bit-Extends}
use aurhub.Snapshot.Block.{
  SearchBlock, empty_block, byte_bitmap_words, bitmap_words, bigram, trigram_hash, add_trigram,
  trigram_of, add_bytes, add_bigrams, add_trigrams, add_search_text,
}

-- The arrays have their declared sizes.
pub record IsSized (block : SearchBlock) : Type 0 where
  pub bytes_size : length block.bytes ≡ byte_bitmap_words
  pub bigrams_size : length block.bigrams ≡ bitmap_words
  pub trigrams_size : length block.trigrams ≡ bitmap_words

pub record BlockExtends (small big : SearchBlock) : Type 0 where
  pub bytes_grow : Extends small.bytes big.bytes
  pub bigrams_grow : Extends small.bigrams big.bigrams
  pub trigrams_grow : Extends small.trigrams big.trigrams

pub bigram-lt : (a b : ℕ) → bigram a b / 64 < bitmap_words
unfolding bigram
bigram-lt a b = omega arith

pub length-add_trigram : (ws : Words) (g : ℕ) → length (add_trigram ws g) ≡ length ws
unfolding add_trigram
length-add_trigram ws g = length-set_bit _ _ ∙ length-set_bit _ _

pub length-add_bytes : (ws : Words) (t : Bytes) → length (add_bytes ws t) ≡ length ws
unfolding add_bytes
length-add_bytes ws [] = refl
length-add_bytes ws (a ∷ t) = length-add_bytes (set_bit ws a) t ∙ length-set_bit ws a

pub length-add_bigrams : (ws : Words) (t : Bytes) → length (add_bigrams ws t) ≡ length ws
unfolding add_bigrams
length-add_bigrams ws [] = refl
length-add_bigrams ws (a ∷ []) = refl
length-add_bigrams ws (a ∷ b ∷ t) =
    length-add_bigrams (set_bit ws (bigram a b)) (b ∷ t) ∙ length-set_bit ws (bigram a b)

pub length-add_trigrams : (ws : Words) (t : Bytes) → length (add_trigrams ws t) ≡ length ws
unfolding add_trigrams
length-add_trigrams ws [] = refl
length-add_trigrams ws (a ∷ []) = refl
length-add_trigrams ws (a ∷ b ∷ []) = refl
length-add_trigrams ws (a ∷ b ∷ c ∷ t) =
    length-add_trigrams (add_trigram ws (trigram_of a b c)) (b ∷ c ∷ t)
    ∙ length-add_trigram ws (trigram_of a b c)

pub Extends-trans : (a b c : Words) → Extends a b → Extends b c → Extends a c
Extends-trans a b c p q x h = q x (p x h)

pub add_trigram-Extends :
    (ws : Words) (g : ℕ) → length ws ≡ bitmap_words → Extends ws (add_trigram ws g)
unfolding add_trigram
add_trigram-Extends ws g h =
    let low = trigram_hash g % 2 ^ 16 in
    let high = trigram_hash g / 2 ^ 16 % 2 ^ 16 in
    Extends-trans ws (set_bit ws low) _ (set_bit-Extends ws low (omega arith))
      (set_bit-Extends (set_bit ws low) high (omega (arith, length-set_bit ws low)))

pub add_bytes-Extends :
    (ws : Words) (t : Bytes)
    → length ws ≡ byte_bitmap_words
    → AreBytes t
    → Extends ws (add_bytes ws t)
unfolding add_bytes
add_bytes-Extends ws [] h s = λ x k. k
add_bytes-Extends ws (a ∷ t) h s =
    Extends-trans ws (set_bit ws a) _ (set_bit-Extends ws a (omega arith))
      (add_bytes-Extends (set_bit ws a) t (length-set_bit ws a ∙ h) s.1)

pub add_bigrams-Extends :
    (ws : Words) (t : Bytes) → length ws ≡ bitmap_words → Extends ws (add_bigrams ws t)
unfolding add_bigrams
add_bigrams-Extends ws [] h = λ x k. k
add_bigrams-Extends ws (a ∷ []) h = λ x k. k
add_bigrams-Extends ws (a ∷ b ∷ t) h =
    let g = bigram a b in
    Extends-trans ws (set_bit ws g) _ (set_bit-Extends ws g (omega (arith, bigram-lt a b)))
      (add_bigrams-Extends (set_bit ws g) (b ∷ t) (length-set_bit ws g ∙ h))

pub add_trigrams-Extends :
    (ws : Words) (t : Bytes) → length ws ≡ bitmap_words → Extends ws (add_trigrams ws t)
unfolding add_trigrams
add_trigrams-Extends ws [] h = λ x k. k
add_trigrams-Extends ws (a ∷ []) h = λ x k. k
add_trigrams-Extends ws (a ∷ b ∷ []) h = λ x k. k
add_trigrams-Extends ws (a ∷ b ∷ c ∷ t) h =
    let g = trigram_of a b c in
    Extends-trans ws (add_trigram ws g) _ (add_trigram-Extends ws g h)
      (add_trigrams-Extends (add_trigram ws g) (b ∷ c ∷ t) (length-add_trigram ws g ∙ h))

pub empty_block-IsSized : IsSized empty_block
unfolding empty_block
empty_block-IsSized = record {
  bytes_size = length-replicate byte_bitmap_words _;
  bigrams_size = length-replicate bitmap_words _;
  trigrams_size = length-replicate bitmap_words _;
}

pub add_search_text-IsSized :
    (block : SearchBlock) (t : Bytes) → IsSized block → IsSized (add_search_text block t)
unfolding add_search_text
add_search_text-IsSized block t z = record {
  bytes_size = length-add_bytes block.bytes t ∙ z.bytes_size;
  bigrams_size = length-add_bigrams block.bigrams t ∙ z.bigrams_size;
  trigrams_size = length-add_trigrams block.trigrams t ∙ z.trigrams_size;
}

-- Adding a byte string to a block whose arrays have their sizes clears no bit of the block.
pub add_search_text-BlockExtends :
    (block : SearchBlock) (t : Bytes)
    → IsSized block
    → AreBytes t
    → BlockExtends block (add_search_text block t)
unfolding add_search_text
add_search_text-BlockExtends block t z s = record {
  bytes_grow = add_bytes-Extends block.bytes t z.bytes_size s;
  bigrams_grow = add_bigrams-Extends block.bigrams t z.bigrams_size;
  trigrams_grow = add_trigrams-Extends block.trigrams t z.trigrams_size;
}
