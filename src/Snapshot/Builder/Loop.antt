-- ===== src/Snapshot/Builder/Loop.antt =====
-- The loop of `write_search_blocks` on one level: its invariant, and the blocks at its end.
use aurhub.Base.{
  ℕ, suc, ◌+◌, ◌*◌, ◌^◌, ◌≤◌, ◌<◌, min, ◌≡◌, ap, subst, inl, inr, true, false, ◌||◌, List, [], ◌∷◌,
  ◌++◌, length, length-append, arith, ◌==◌, Bool-cases,
}
use native.Mathlib.Numerals.{add-one}
use aurhub.Bytes.{Bytes, AreBytes}
use aurhub.Snapshot.Block.{SearchBlock, empty_block}
use aurhub.Snapshot.Builder.{Level, flush_block, level_step, no_blocks}
use aurhub.Snapshot.Builder.Fill.{
  Summary, Filling, Partition, empty_block-Filling, added, added-Summary, added-IsSized,
  Partition-append,
}

-- Every package is in a block, and the last block is not empty.
pub record Covered (text : ℕ → Bytes) (limit total : ℕ) (written : List SearchBlock) : Type 0 where
  pub parts : Partition text limit total written
  pub enough : total ≤ length written * limit
  pub tight : length written * limit < total + limit

record LevelInv (text : ℕ → Bytes) (limit total index : ℕ) (level : Level) : Type 0 where
  filling : Filling text (length level.written * limit) index level.block
  room : level.block.package_count < limit
  parts : Partition text limit total level.written

-- `texts` are the texts of the packages from `index` on.
abbrev pub Agrees : (ℕ → Bytes) → ℕ → List Bytes → Type 0
Agrees text index [] = Unit
Agrees text index (t ∷ ts) = (text index ≡ t) × AreBytes t × Agrees text (suc index) ts

unfoldable pub level_loop : ℕ → ℕ → ℕ → List Bytes → Level → Level
level_loop limit total index [] level = level
level_loop limit total index (t ∷ ts) level =
    level_loop limit total (suc index) ts (level_step limit total index t level)

-- What one round leaves: the invariant, or at the last package the finished level.
record After (text : ℕ → Bytes) (limit total index : ℕ) (level : Level) : Type 0 where
  more : index + 1 < total → LevelInv text limit total (index + 1) level
  done : index + 1 ≡ total → Covered text limit total level.written

module _ (text : ℕ → Bytes) (limit total : ℕ) (pos : 0 < limit) (small : limit < 2 ^ 16)
    (few : total < 2 ^ 32) (index : ℕ) (level : Level) (inv : LevelInv text limit total index level)
    (below : index < total) (bytes : AreBytes (text index)) where
  abbrev start : ℕ
  start = length level.written * limit

  block : SearchBlock
  block = added text limit total index level.block

  summary : Summary text start (index + 1) block
  unfolding block
  summary =
      added-Summary text limit total (length level.written * limit) index level.block inv.filling
        (omega arith) (omega arith) bytes

  -- the block is not full, and this is not the last package
  kept :
      (block.package_count == limit || index + 1 == total) ≡ false
      → After text limit total index (record { block = block; written = level.written })
  unfolding block
  kept e = record {
    more = λ h. record {
      filling = record {
        counts = summary.counts;
        sized = added-IsSized text limit total index level.block inv.filling.sized;
        first_is = λ ne. summary.first_is;
        covers = summary.covers;
      };
      room = ground (arith, summary.counts, inv.filling.counts);
      parts = inv.parts;
    };
    done = λ h. absurd (ground arith);
  }

  -- where a block ends
  end :
      (block.package_count == limit || index + 1 == total) ≡ true
      → index + 1 ≡ min (start + limit) total
  end e = ground (arith, summary.counts, inv.filling.counts)

  written : List SearchBlock
  written = level.written ++ block ∷ []

  next_start : length written * limit ≡ start + limit
  unfolding written
  next_start = omega (arith, ap (λ (n : ℕ). n * limit) (length-append level.written (block ∷ [])))

  flushed :
      (block.package_count == limit || index + 1 == total) ≡ true
      → After text limit total index (record { block = empty_block; written = written })
  unfolding written empty_block
  flushed e =
      let parts =
        Partition-append text limit total level.written block inv.parts (rw (← end e) summary) in
      record {
        more = λ h. record {
          filling =
              subst (λ x. Filling text (length written * limit) x empty_block)
                (omega (arith, next_start, end e))
                (empty_block-Filling text limit total (length written * limit));
          room = pos;
          parts = parts;
        };
        done = λ h. record {
          parts = parts;
          enough = omega (arith, next_start, end e);
          tight = omega (arith, next_start, inv.filling.counts);
        };
      }

  -- one round of the loop
  level_step-After : After text limit total index (level_step limit total index (text index) level)
  unfolding block written level_step flush_block added
  level_step-After = elim (Bool-cases (block.package_count == limit || index + 1 == total)) [
    | inl e ↦ rw e (flushed e)
    | inr e ↦ rw e (kept e)
  ]

module _ (text : ℕ → Bytes) (limit total : ℕ) (pos : 0 < limit) (small : limit < 2 ^ 16)
    (few : total < 2 ^ 32) where
  level_loop-Covered :
      (texts : List Bytes) (index : ℕ) (t : Bytes) (level : Level)
      → LevelInv text limit total index level
      → Agrees text index (t ∷ texts)
      → index + 1 + length texts ≡ total
      → Covered text limit total (level_loop limit total index (t ∷ texts) level).written
  unfolding level_loop
  level_loop-Covered [] index t level inv (e, b, _) h = rw (← e) (
      (level_step-After text limit total pos small few index level inv (omega arith) (rw e b)).done
        (omega arith))
  level_loop-Covered (u ∷ texts) index t level inv (e, b, rest) h =
      let after =
        level_step-After text limit total pos small few index level inv (omega arith) (rw e b) in
      let next : LevelInv text limit total (suc index) _ =
        rw add-one at (after.more (omega arith)) in
      level_loop-Covered texts (suc index) u (level_step limit total index t level) (rw e at next)
        rest (omega arith)

  -- From no block, the loop leaves blocks that partition the packages and cover their texts.
  pub level_loop-no_blocks :
      (texts : List Bytes)
      → length texts ≡ total
      → Agrees text 0 texts
      → Covered text limit total (level_loop limit total 0 texts no_blocks).written
  unfolding level_loop empty_block
  level_loop-no_blocks [] h a = record {
    parts = record { summary = λ j l. elim l [ ] };
    enough = omega arith;
    tight = omega arith;
  }
  level_loop-no_blocks (t ∷ texts) h a =
      level_loop-Covered texts 0 t no_blocks
        (record {
          filling =
              let z : 0 ≡ 0 * limit = omega arith in
              subst (λ x. Filling text x 0 empty_block) z (empty_block-Filling text limit total 0);
          room = pos;
          parts = record { summary = λ j l. elim l [ ] };
        })
        a (omega arith)
