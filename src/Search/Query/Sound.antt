-- ===== src/Search/Query/Sound.antt =====
-- The bits of a text that was added to a block, as src/snapshot.cpp sets them and as src/search.cpp
-- tests them.
use aurhub.Base.{ℕ, ◌/◌, ◌%◌, ◌^◌, ◌≡◌, refl, ◌∙◌, Bool, true, ◌&&◌, [], ◌∷◌, length, arith}
use aurhub.Bytes.{Bytes, AreBytes}
use aurhub.Snapshot.Bitmap.{
  Words, Extends, has_bit, set_bit, length-set_bit, has_bit-set_bit, set_bit-Extends,
}
use aurhub.Snapshot.Block.{
  SearchBlock, byte_bitmap_words, bitmap_words, bigram, add_trigram, trigram_of, add_bytes,
  add_bigrams, add_trigrams, add_search_text,
}
use aurhub.Snapshot.Block
use aurhub.Snapshot.Block.Grows.{
  IsSized, BlockExtends, bigram-lt, length-add_trigram, add_bytes-Extends, add_bigrams-Extends,
  add_trigrams-Extends,
}
use aurhub.Search.Query.{trigram_hash, trigram_maybe_present, trigrams_present, bigrams_present}

-- every byte of the text has its bit
unfoldable pub bytes_present : SearchBlock → Bytes → Bool
bytes_present block [] = true
bytes_present block (a ∷ t) = has_bit block.bytes a && bytes_present block t

-- The bitmaps have the bits of every byte, pair and triple of the text.
pub record Covers (block : SearchBlock) (t : Bytes) : Type 0 where
  pub bytes_covered : bytes_present block t ≡ true
  pub bigrams_covered : bigrams_present block t ≡ true
  pub trigrams_covered : trigrams_present block t ≡ true

module _ {small big : SearchBlock} (g : BlockExtends small big) where
  bytes_present_mono : (t : Bytes) → bytes_present small t ≡ true → bytes_present big t ≡ true
  unfolding bytes_present
  bytes_present_mono [] h = refl
  bytes_present_mono (a ∷ t) h = ground (arith, g.bytes_grow a, bytes_present_mono t)

  bigrams_present_mono : (t : Bytes) → bigrams_present small t ≡ true → bigrams_present big t ≡ true
  unfolding bigrams_present bigram
  bigrams_present_mono [] h = refl
  bigrams_present_mono (a ∷ []) h = refl
  bigrams_present_mono (a ∷ b ∷ t) h =
      ground (arith, g.bigrams_grow (bigram a b), bigrams_present_mono (b ∷ t))

  trigram_maybe_present_mono :
      (x : ℕ) → trigram_maybe_present small x ≡ true → trigram_maybe_present big x ≡ true
  unfolding trigram_maybe_present
  trigram_maybe_present_mono x h = ground (
    arith,
    g.trigrams_grow (trigram_hash x % 2 ^ 16),
    g.trigrams_grow (trigram_hash x / 2 ^ 16 % 2 ^ 16),
  )

  trigrams_present_mono :
      (t : Bytes) → trigrams_present small t ≡ true → trigrams_present big t ≡ true
  unfolding trigrams_present trigram_of
  trigrams_present_mono [] h = refl
  trigrams_present_mono (a ∷ []) h = refl
  trigrams_present_mono (a ∷ b ∷ []) h = refl
  trigrams_present_mono (a ∷ b ∷ c ∷ t) h =
      ground
        (arith, trigram_maybe_present_mono (trigram_of a b c), trigrams_present_mono (b ∷ c ∷ t))

  pub Covers-mono : {t : Bytes} → Covers small t → Covers big t
  Covers-mono {t} c = record {
    bytes_covered = bytes_present_mono t c.bytes_covered;
    bigrams_covered = bigrams_present_mono t c.bigrams_covered;
    trigrams_covered = trigrams_present_mono t c.trigrams_covered;
  }

-- the two copies of the hash agree
hash_agrees : (x : ℕ) → Block.trigram_hash x ≡ trigram_hash x
unfolding trigram_hash Block.trigram_hash
hash_agrees x = refl

module _ (big : SearchBlock) where
  add_bytes-present :
      (ws : Words) (t : Bytes)
      → length ws ≡ byte_bitmap_words
      → AreBytes t
      → Extends (add_bytes ws t) big.bytes
      → bytes_present big t ≡ true
  unfolding bytes_present add_bytes
  add_bytes-present ws [] h s g = refl
  add_bytes-present ws (a ∷ t) h s g =
      let w = set_bit ws a in
      let size = length-set_bit ws a ∙ h in
      let here = add_bytes-Extends w t size s.1 a (has_bit-set_bit ws a (omega arith)) in
      rw (g a here) (add_bytes-present w t size s.1 g)

  add_bigrams-present :
      (ws : Words) (t : Bytes)
      → length ws ≡ bitmap_words
      → Extends (add_bigrams ws t) big.bigrams
      → bigrams_present big t ≡ true
  unfolding bigrams_present add_bigrams bigram
  add_bigrams-present ws [] h g = refl
  add_bigrams-present ws (a ∷ []) h g = refl
  add_bigrams-present ws (a ∷ b ∷ t) h g =
      let x = bigram a b in
      let w = set_bit ws x in
      let size = length-set_bit ws x ∙ h in
      let set = has_bit-set_bit ws x (omega (arith, bigram-lt a b)) in
      let here = g x (add_bigrams-Extends w (b ∷ t) size x set) in
      rw here (add_bigrams-present w (b ∷ t) size g)

  -- both bits of a trigram are set
  add_trigram-present :
      (ws : Words) (x : ℕ)
      → length ws ≡ bitmap_words
      → Extends (add_trigram ws x) big.trigrams
      → trigram_maybe_present big x ≡ true
  unfolding trigram_maybe_present add_trigram
  add_trigram-present ws x h g =
      let low = Block.trigram_hash x % 2 ^ 16 in
      let high = Block.trigram_hash x / 2 ^ 16 % 2 ^ 16 in
      let w = set_bit ws low in
      let size = length-set_bit ws low in
      let first =
        g low (set_bit-Extends w high (omega arith) low (has_bit-set_bit ws low (omega arith))) in
      let second = g high (has_bit-set_bit w high (omega arith)) in
      rw (← hash_agrees x, first) second

  add_trigrams-present :
      (ws : Words) (t : Bytes)
      → length ws ≡ bitmap_words
      → Extends (add_trigrams ws t) big.trigrams
      → trigrams_present big t ≡ true
  unfolding trigrams_present add_trigrams trigram_of
  add_trigrams-present ws [] h g = refl
  add_trigrams-present ws (a ∷ []) h g = refl
  add_trigrams-present ws (a ∷ b ∷ []) h g = refl
  add_trigrams-present ws (a ∷ b ∷ c ∷ t) h g =
      let x = trigram_of a b c in
      let w = add_trigram ws x in
      let size = length-add_trigram ws x ∙ h in
      let here =
        add_trigram-present ws x h (λ y k. g y (add_trigrams-Extends w (b ∷ c ∷ t) size y k)) in
      rw here (add_trigrams-present w (b ∷ c ∷ t) size g)

-- A block covers a text that was added to it.
pub add_search_text-Covers :
    (block : SearchBlock) (t : Bytes)
    → IsSized block
    → AreBytes t
    → Covers (add_search_text block t) t
unfolding add_search_text
add_search_text-Covers block t z s =
    let big = add_search_text block t in
    record {
      bytes_covered = add_bytes-present big block.bytes t z.bytes_size s (λ x k. k);
      bigrams_covered = add_bigrams-present big block.bigrams t z.bigrams_size (λ x k. k);
      trigrams_covered = add_trigrams-present big block.trigrams t z.trigrams_size (λ x k. k);
    }
