-- ===== src/Snapshot/Builder/Fill.antt =====
-- One level of `write_search_blocks` in src/snapshot.cpp: the block being filled and the blocks
-- written.
use aurhub.Base.{
  ℕ, ◌+◌, ◌*◌, ◌-◌, ◌^◌, ◌≤◌, ◌<◌, min, ◌≡◌, ◌≢◌, refl, inl, inr, List, [], ◌∷◌, ◌++◌,
  length-append, get_or-append_left, get_or-append_end, length, length-append, get_or-append_left,
  get_or-append_end, get_or, arith, ◌==◌, ℕ_discrete, Bool-cases,
}
use aurhub.Bytes.{Bytes, AreBytes}
use aurhub.Snapshot.Block.{SearchBlock, empty_block, add_search_text}
use aurhub.Snapshot.Block.Grows.{
  IsSized, BlockExtends, empty_block-IsSized, add_search_text-IsSized, add_search_text-BlockExtends,
}
use aurhub.Snapshot.Builder.{begin_block, add_package}
use aurhub.Search.Query.Sound.{Covers, Covers-mono, add_search_text-Covers}

-- Block `block` stands for the packages `first ..< end`.
pub record Summary (text : ℕ → Bytes) (first end : ℕ) (block : SearchBlock) : Type 0 where
  pub first_is : block.first_package ≡ first
  pub counts : first + block.package_count ≡ end
  pub covers : (p : ℕ) → first ≤ p → p < end → Covers block (text p)

-- The block being filled before package `index`, after `done` blocks of `limit` packages.
pub record Filling (text : ℕ → Bytes) (start index : ℕ) (block : SearchBlock) : Type 0 where
  pub counts : start + block.package_count ≡ index
  pub sized : IsSized block
  pub first_is : block.package_count ≢ 0 → block.first_package ≡ start
  pub covers : (p : ℕ) → start ≤ p → p < index → Covers block (text p)

-- The blocks `written` stand for `limit` packages each, the last one for what is left of `total`.
pub record Partition (text : ℕ → Bytes) (limit total : ℕ) (written : List SearchBlock)
    : Type 0 where
  pub summary :
      (j : ℕ)
      → j < length written
      → Summary text (j * limit) (min (j * limit + limit) total) (get_or written j empty_block)

module _ (text : ℕ → Bytes) (limit total : ℕ) where
  pub empty_block-Filling : (start : ℕ) → Filling text start start empty_block
  unfolding empty_block
  empty_block-Filling start = record {
    counts = omega arith;
    sized = empty_block-IsSized;
    first_is = λ ne. absurd (ne refl);
    covers = λ p l u. absurd (omega arith);
  }

  begin_block-BlockExtends :
      (index : ℕ) (block : SearchBlock) → BlockExtends block (begin_block index block)
  unfolding begin_block
  begin_block-BlockExtends index block = elim (Bool-cases (block.package_count == 0)) [
    | inl e ↦
        rw e (record { bytes_grow = λ x h. h; bigrams_grow = λ x h. h; trigrams_grow = λ x h. h })
    | inr e ↦
        rw e (record { bytes_grow = λ x h. h; bigrams_grow = λ x h. h; trigrams_grow = λ x h. h })
  ]

  begin_block-IsSized :
      (index : ℕ) (block : SearchBlock) → IsSized block → IsSized (begin_block index block)
  unfolding begin_block
  begin_block-IsSized index block z = elim (Bool-cases (block.package_count == 0)) [
    | inl e ↦ rw e (record {
      bytes_size = z.bytes_size;
      bigrams_size = z.bigrams_size;
      trigrams_size = z.trigrams_size;
    })
    | inr e ↦ rw e z
  ]

  add_package-BlockExtends :
      (search : Bytes) (block : SearchBlock)
      → BlockExtends (add_search_text block search) (add_package search block)
  unfolding add_package
  add_package-BlockExtends search block = record {
    bytes_grow = λ x h. h;
    bigrams_grow = λ x h. h;
    trigrams_grow = λ x h. h;
  }

  add_package-IsSized :
      (search : Bytes) (block : SearchBlock) → IsSized block → IsSized (add_package search block)
  unfolding add_package
  add_package-IsSized search block z =
      let y = add_search_text-IsSized block search z in
      record {
        bytes_size = y.bytes_size;
        bigrams_size = y.bigrams_size;
        trigrams_size = y.trigrams_size;
      }

  unfoldable pub added : ℕ → SearchBlock → SearchBlock
  added index block = add_package (text index) (begin_block index block)

  pub added_header :
      (start index : ℕ) (block : SearchBlock)
      → Filling text start index block
      → block.package_count < 2 ^ 16 - 1
      → index < 2 ^ 32
      → ((added index block).first_package ≡ start)
        × (start + (added index block).package_count ≡ index + 1)
  unfolding added add_package begin_block add_search_text
  added_header start index block f room small = elim (ℕ_discrete block.package_count 0) [
    | yes e ↦ ground (arith, f.counts)
    | no ne ↦ ground (arith, f.counts, f.first_is ne)
  ]

  -- the block after the package at `index` was added
  pub added-Summary :
      (start index : ℕ) (block : SearchBlock)
      → Filling text start index block
      → block.package_count < 2 ^ 16 - 1
      → index < 2 ^ 32
      → AreBytes (text index)
      → Summary text start (index + 1) (added index block)
  unfolding added
  added-Summary start index block f room small bytes =
      let b = begin_block index block in
      let t = text index in
      let sized = begin_block-IsSized index block f.sized in
      let header = added_header start index block f room small in
      record {
        first_is = header.0;
        counts = header.1;
        covers = λ p l u. Covers-mono (add_package-BlockExtends t b) (elim (ℕ_discrete p index) [
          | yes e ↦ rw e (add_search_text-Covers b t sized bytes)
          | no ne ↦
              Covers-mono (add_search_text-BlockExtends b t sized bytes)
                (Covers-mono (begin_block-BlockExtends index block) (f.covers p l (omega arith)))
        ]);
      }

  pub added-IsSized :
      (index : ℕ) (block : SearchBlock) → IsSized block → IsSized (added index block)
  unfolding added
  added-IsSized index block z =
      add_package-IsSized (text index) (begin_block index block) (begin_block-IsSized index block z)

  pub Partition-append :
      (written : List SearchBlock) (block : SearchBlock)
      → Partition text limit total written
      → Summary text (length written * limit) (min (length written * limit + limit) total) block
      → Partition text limit total (written ++ block ∷ [])
  Partition-append written block part s = record {
    summary = λ j l. elim (ℕ_discrete j (length written)) [
      | yes e ↦ rw (e, get_or-append_end written block empty_block) s
      | no ne ↦
          let below : j < length written = omega (arith, length-append written (block ∷ [])) in
          rw (get_or-append_left written (block ∷ []) j empty_block below) (part.summary j below)
    ];
  }
