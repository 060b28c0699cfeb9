-- ===== src/Snapshot/Format.antt =====
-- The structures of src/snapshot.hpp that stand in a snapshot file, and the accessors of
-- `SnapshotView`. The file is kept as its regions: each region is the array that the writer puts
-- there and that the reader maps, at the offset that the header names.
use aurhub.Base.{ℕ, List, get_or, take, drop, []}
use aurhub.Bytes.{Bytes}
use aurhub.Model.{ℤ, pos, BranchInfo}
use aurhub.Snapshot.Block.{SearchBlock, empty_block}

pub record Slice32 : Type 0 where
  pub offset : ℕ
  pub size : ℕ

-- The reserved fields are written as 0 and never read.
pub record SnapshotHeader : Type 0 where
  pub magic : Bytes
  pub version : ℕ
  pub header_size : ℕ
  pub package_count : ℕ
  pub shadow_package_count : ℕ
  pub branch_count : ℕ
  pub records_offset : ℕ
  pub shadow_records_offset : ℕ
  pub branches_offset : ℕ
  pub search_blocks_offset : ℕ
  pub search_block_count : ℕ
  pub strings_offset : ℕ
  pub strings_size : ℕ
  pub search_texts_offset : ℕ
  pub search_texts_size : ℕ
  pub packages_gz_offset : ℕ
  pub packages_gz_size : ℕ
  pub created_at : ℤ
  pub search_super_blocks_offset : ℕ
  pub search_super_block_count : ℕ
  pub search_block_packages : ℕ
  pub search_super_block_packages : ℕ

pub record PackageRecord : Type 0 where
  pub name : Slice32
  pub search : Slice32
  pub json : Slice32
  pub branch_index : ℕ
  pub updated_at : ℤ

pub record BranchRecord : Type 0 where
  pub name : Slice32
  pub oid : Bytes
  pub updated_at : ℤ

-- A mapped snapshot.
pub record SnapshotView : Type 0 where
  pub header : SnapshotHeader
  pub records : List PackageRecord
  pub shadow_records : List PackageRecord
  pub branches : List BranchRecord
  pub search_super_blocks : List SearchBlock
  pub search_blocks : List SearchBlock
  pub strings : Bytes
  pub search_texts : Bytes
  pub packages_gz : Bytes

abbrev pub no_slice : Slice32
no_slice = record { offset = 0; size = 0 }

abbrev pub no_record : PackageRecord
no_record = record {
  name = no_slice;
  search = no_slice;
  json = no_slice;
  branch_index = 0;
  updated_at = pos 0;
}

abbrev pub no_branch : BranchRecord
no_branch = record { name = no_slice; oid = []; updated_at = pos 0 }

-- `{data + slice.offset, slice.size}`
unfoldable pub slice_of : Bytes → Slice32 → Bytes
slice_of section slice = take slice.size (drop slice.offset section)

-- The indexed accessors. The callers stay in range; out of range the default stands for what the
-- source leaves undefined.
unfoldable pub package_record : SnapshotView → ℕ → PackageRecord
package_record view index = get_or view.records index no_record

unfoldable pub shadow_record : SnapshotView → ℕ → PackageRecord
shadow_record view index = get_or view.shadow_records index no_record

unfoldable pub branch_record : SnapshotView → ℕ → BranchRecord
branch_record view index = get_or view.branches index no_branch

unfoldable pub search_block : SnapshotView → ℕ → SearchBlock
search_block view index = get_or view.search_blocks index empty_block

unfoldable pub search_super_block : SnapshotView → ℕ → SearchBlock
search_super_block view index = get_or view.search_super_blocks index empty_block

unfoldable pub name : SnapshotView → ℕ → Bytes
unfolding package_record slice_of
name view index = slice_of view.strings (package_record view index).name

unfoldable pub shadow_name : SnapshotView → ℕ → Bytes
unfolding shadow_record slice_of
shadow_name view index = slice_of view.strings (shadow_record view index).name

unfoldable pub branch_name : SnapshotView → ℕ → Bytes
unfolding branch_record slice_of
branch_name view index = slice_of view.strings (branch_record view index).name

unfoldable pub branch_info : SnapshotView → ℕ → BranchInfo
unfolding branch_name branch_record
branch_info view index =
    let r = branch_record view index in
    record { name = branch_name view index; oid = r.oid; updated_at = r.updated_at }

unfoldable pub search_text : SnapshotView → ℕ → Bytes
unfolding package_record slice_of
search_text view index = slice_of view.search_texts (package_record view index).search

unfoldable pub shadow_search_text : SnapshotView → ℕ → Bytes
unfolding shadow_record slice_of
shadow_search_text view index = slice_of view.search_texts (shadow_record view index).search

unfoldable pub json : SnapshotView → ℕ → Bytes
unfolding package_record slice_of
json view index = slice_of view.strings (package_record view index).json

unfoldable pub shadow_json : SnapshotView → ℕ → Bytes
unfolding shadow_record slice_of
shadow_json view index = slice_of view.strings (shadow_record view index).json
