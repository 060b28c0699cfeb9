-- ===== src/Search/Query/Complete.antt =====
-- `bitmap_contains` of src/search.cpp on a block into which a text was added.
use aurhub.Base.{ℕ, ◌≡◌, ◌≢◌, refl, true, [], ◌∷◌, arith, Bool-cases, inl, inr}
use aurhub.Bytes.{Bytes, AreBytes, starts_with, contains}
use aurhub.Snapshot.Block.{SearchBlock, add_search_text}
use aurhub.Snapshot.Block.Grows.{IsSized}
use aurhub.Search.Query.{trigrams_present, bigrams_present, bitmap_contains}
use aurhub.Search.Query.Sound.{bytes_present, Covers, add_search_text-Covers}

module _ (block : SearchBlock) where
  bigrams_present_prefix :
      (t q : Bytes)
      → starts_with t q ≡ true
      → bigrams_present block t ≡ true
      → bigrams_present block q ≡ true
  unfolding starts_with bigrams_present
  bigrams_present_prefix t [] h p = refl
  bigrams_present_prefix t (y ∷ []) h p = refl
  bigrams_present_prefix [] (y ∷ z ∷ q) h p = cc
  bigrams_present_prefix (a ∷ []) (y ∷ z ∷ q) h p = ground arith
  bigrams_present_prefix (a ∷ b ∷ t) (y ∷ z ∷ q) h p =
      ground (arith, bigrams_present_prefix (b ∷ t) (z ∷ q))

  trigrams_present_prefix :
      (t q : Bytes)
      → starts_with t q ≡ true
      → trigrams_present block t ≡ true
      → trigrams_present block q ≡ true
  unfolding starts_with trigrams_present
  trigrams_present_prefix t [] h p = refl
  trigrams_present_prefix t (y ∷ []) h p = refl
  trigrams_present_prefix t (y ∷ z ∷ []) h p = refl
  trigrams_present_prefix [] (y ∷ z ∷ u ∷ q) h p = cc
  trigrams_present_prefix (a ∷ []) (y ∷ z ∷ u ∷ q) h p = ground arith
  trigrams_present_prefix (a ∷ b ∷ []) (y ∷ z ∷ u ∷ q) h p = ground arith
  trigrams_present_prefix (a ∷ b ∷ c ∷ t) (y ∷ z ∷ u ∷ q) h p =
      ground (arith, trigrams_present_prefix (b ∷ c ∷ t) (z ∷ u ∷ q))

  -- what covers a text covers its tail
  Covers-tail : (a : ℕ) (t : Bytes) → Covers block (a ∷ t) → Covers block t
  unfolding bytes_present bigrams_present trigrams_present
  Covers-tail a [] c = record {
    bytes_covered = refl;
    bigrams_covered = refl;
    trigrams_covered = refl;
  }
  Covers-tail a (b ∷ []) c = ground (arith, c.bytes_covered)
  Covers-tail a (b ∷ d ∷ t) c =
      ground (arith, c.bytes_covered, c.bigrams_covered, c.trigrams_covered)

  -- a covered text that starts with the query passes the test
  bitmap_contains_prefix :
      (t q : Bytes)
      → q ≢ []
      → starts_with t q ≡ true
      → Covers block t
      → bitmap_contains block q ≡ true
  unfolding bitmap_contains bytes_present starts_with
  bitmap_contains_prefix t [] ne h c = absurd (ne refl)
  bitmap_contains_prefix [] (y ∷ q) ne h c = cc
  bitmap_contains_prefix (a ∷ t) (y ∷ []) ne h c = ground (arith, c.bytes_covered)
  bitmap_contains_prefix (a ∷ t) (y ∷ z ∷ q) ne h c = rw (
    trigrams_present_prefix (a ∷ t) (y ∷ z ∷ q) h c.trigrams_covered,
    bigrams_present_prefix (a ∷ t) (y ∷ z ∷ q) h c.bigrams_covered,
  )

  -- No false negative: a block that covers a text passes every non-empty query that the text
  -- contains.
  pub bitmap_contains_complete :
      (t q : Bytes) → q ≢ [] → Covers block t → contains t q ≡ true → bitmap_contains block q ≡ true
  unfolding contains
  bitmap_contains_complete [] q ne c h = bitmap_contains_prefix [] q ne h c
  bitmap_contains_complete (a ∷ t) q ne c h = elim (Bool-cases (starts_with (a ∷ t) q)) [
    | inl s ↦ bitmap_contains_prefix (a ∷ t) q ne s c
    | inr s ↦ bitmap_contains_complete t q ne (Covers-tail a t c) (rw s at h)
  ]

-- No false negative: after `add_search_text` of a byte string to a block whose arrays have their
-- sizes, `bitmap_contains` accepts every non-empty query that the byte string contains.
pub bitmap_contains-add_search_text :
    (block : SearchBlock) (text query : Bytes)
    → IsSized block
    → AreBytes text
    → query ≢ []
    → contains text query ≡ true
    → bitmap_contains (add_search_text block text) query ≡ true
bitmap_contains-add_search_text block text query sized bytes asks found =
    bitmap_contains_complete (add_search_text block text) text query asks
      (add_search_text-Covers block text sized bytes) found
