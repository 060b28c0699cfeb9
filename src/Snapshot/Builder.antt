-- ===== src/Snapshot/Builder.antt =====
-- `block_count` and `write_search_blocks` of src/snapshot.cpp: the loop that fills the fine and
-- the coarse search blocks. A region of the file is the list of blocks written to it, so
-- `fine_index` and `coarse_index`, which number the writes, are the lengths of the lists.
pub mod Fill
pub mod Loop
pub mod Count
use aurhub.Base.{
  ℕ, suc, ◌+◌, ◌/◌, ◌%◌, ◌^◌, Bool, ◌||◌, not, List, [], ◌∷◌, ◌++◌, Option, none, some, length,
  ◌==◌, if◌then◌else◌,
}
use aurhub.Bytes.{Bytes}
use aurhub.Snapshot.Block.{SearchBlock, empty_block, add_search_text}

unfoldable pub block_count : ℕ → ℕ → ℕ
block_count packages packages_per_block =
    packages / packages_per_block + (if packages % packages_per_block == 0 then 0 else 1)

-- One level of the loop: the block being filled, and the blocks written.
pub record Level : Type 0 where
  pub block : SearchBlock
  pub written : List SearchBlock

unfoldable pub begin_block : ℕ → SearchBlock → SearchBlock
begin_block package_index block =
    if block.package_count == 0
    then record block { first_package = package_index % 2 ^ 32 }
    else block

unfoldable pub add_package : Bytes → SearchBlock → SearchBlock
add_package search block =
    let added = add_search_text block search in
    record added { package_count = (block.package_count + 1) % 2 ^ 16 }

-- `last` is `package_index + 1 == packages.size()`.
unfoldable pub flush_block : ℕ → Bool → SearchBlock → List SearchBlock → Level
flush_block limit last block written =
    if block.package_count == limit || last
    then record { block = empty_block; written = written ++ block ∷ [] }
    else record { block = block; written = written }

-- The statements of the loop's body that are about one level.
unfoldable pub level_step : ℕ → ℕ → ℕ → Bytes → Level → Level
unfolding begin_block add_package flush_block
level_step limit total package_index search level =
    flush_block limit (package_index + 1 == total)
      (add_package search (begin_block package_index level.block)) level.written

pub record Blocks : Type 0 where
  pub fine : Level
  pub coarse : Level

-- The two levels share no variable, so the statements of the coarse level are run behind those
-- of the fine level.
unfoldable pub blocks_step : ℕ → ℕ → ℕ → ℕ → Bytes → Blocks → Blocks
unfolding level_step
blocks_step fine_limit coarse_limit total package_index search blocks = record {
  fine = level_step fine_limit total package_index search blocks.fine;
  coarse =
      if coarse_limit == 0
      then blocks.coarse
      else level_step coarse_limit total package_index search blocks.coarse;
}

unfoldable pub blocks_loop : ℕ → ℕ → ℕ → ℕ → List Bytes → Blocks → Blocks
unfolding blocks_step
blocks_loop fine_limit coarse_limit total package_index [] blocks = blocks
blocks_loop fine_limit coarse_limit total package_index (search ∷ rest) blocks =
    blocks_loop fine_limit coarse_limit total (suc package_index) rest
      (blocks_step fine_limit coarse_limit total package_index search blocks)

abbrev pub no_blocks : Level
no_blocks = record { block = empty_block; written = [] }

-- `none` is the exception "search block count changed while writing". The arguments are the
-- fields of the header: the two limits and the two counts.
unfoldable pub write_search_blocks :
    ℕ → ℕ → ℕ → ℕ → List Bytes → Option (List SearchBlock × List SearchBlock)
unfolding blocks_loop
write_search_blocks fine_limit coarse_limit fine_count coarse_count searches =
    let blocks =
      blocks_loop fine_limit coarse_limit (length searches) 0 searches
        (record { fine = no_blocks; coarse = no_blocks }) in
    if not (length blocks.fine.written == fine_count)
      || not (length blocks.coarse.written == coarse_count)
    then none
    else some (blocks.fine.written, blocks.coarse.written)
