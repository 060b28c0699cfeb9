-- ===== src/Snapshot/Reader.antt =====
-- `region_valid`, `slice_valid` and the constructor of `SnapshotView` in src/snapshot.cpp: what a
-- reader checks of a mapped file of `file_size` bytes before it uses it. Opening and mapping the
-- file are not modelled.
pub mod Accepts
use aurhub.Base.{
  ℕ, zero, suc, ◌+◌, ◌-◌, ◌*◌, ◌/◌, ◌%◌, ◌^◌, Bool, true, false, not, ◌&&◌, ◌||◌, List, [], ◌∷◌,
  length, ltb, leb, ◌==◌, if◌then◌else◌,
}
use aurhub.Base.Result.{Result, ok, err, ◌>>=◌, ◌>>◌, throw_if}
use aurhub.Bytes.{Bytes, bytes_eq, bytes_lt}
use aurhub.Snapshot.Block.{SearchBlock}
use aurhub.Snapshot.Format.{
  Slice32, SnapshotHeader, PackageRecord, BranchRecord, SnapshotView, slice_of,
}
use aurhub.Snapshot.Writer.{
  header_size, record_size, branch_size, block_size, snapshot_magic, snapshot_version,
}

pub data ReadError : Type 0 where
  smaller_than_header unsupported_format invalid_package_count invalid_shadow_count : ReadError
  invalid_branch_count invalid_block_count invalid_super_block_count : ReadError
  invalid_region invalid_layout invalid_slice invalid_shadow_slice : ReadError
  invalid_branch_slice branches_not_sorted invalid_block blocks_do_not_cover : ReadError
  invalid_super_block super_blocks_do_not_cover : ReadError

pub data SnapshotValidation : Type 0 where
  full records_only : SnapshotValidation

abbrev pub u64_max : ℕ
u64_max = 2 ^ 64 - 1

unfoldable pub region_valid : ℕ → ℕ → ℕ → Bool
region_valid offset size file_size = leb offset file_size && leb size (file_size - offset)

unfoldable pub slice_valid : Slice32 → ℕ → Bool
slice_valid slice section_size =
    leb slice.offset section_size && leb slice.size (section_size - slice.offset)

-- the tests of the header's format and counts
unfoldable pub check_counts : SnapshotHeader → ℕ → Result ReadError (Unit {0})
check_counts h file_size = do
  throw_if (ltb file_size header_size) smaller_than_header
  throw_if
      (not (bytes_eq h.magic snapshot_magic)
        || not (h.version == snapshot_version)
        || not (h.header_size == header_size))
      unsupported_format
  throw_if (ltb (u64_max / record_size) h.package_count) invalid_package_count
  throw_if (ltb (u64_max / record_size) h.shadow_package_count) invalid_shadow_count
  throw_if (ltb (u64_max / branch_size) h.branch_count) invalid_branch_count
  throw_if (ltb (u64_max / block_size) h.search_block_count) invalid_block_count
  throw_if (ltb (u64_max / block_size) h.search_super_block_count) invalid_super_block_count
  ok tt

-- the condition of "snapshot contains an invalid region", negated
unfoldable pub regions_valid : SnapshotHeader → ℕ → Bool
unfolding region_valid
regions_valid h file_size =
    region_valid h.records_offset (h.package_count * record_size) file_size
    && region_valid h.shadow_records_offset (h.shadow_package_count * record_size) file_size
    && region_valid h.branches_offset (h.branch_count * branch_size) file_size
    && region_valid h.search_super_blocks_offset (h.search_super_block_count * block_size) file_size
    && region_valid h.search_blocks_offset (h.search_block_count * block_size) file_size
    && region_valid h.strings_offset h.strings_size file_size
    && region_valid h.search_texts_offset h.search_texts_size file_size
    && region_valid h.packages_gz_offset h.packages_gz_size file_size

unfoldable pub limits_valid : SnapshotHeader → Bool
limits_valid h =
    not (h.search_block_packages == 0)
    && not (
        not (h.search_super_block_packages == 0)
        && (ltb h.search_super_block_packages h.search_block_packages
            || not (h.search_super_block_packages % h.search_block_packages == 0)))

unfoldable pub expected_blocks : ℕ → ℕ → ℕ
expected_blocks packages limit = packages / limit + (if packages % limit == 0 then 0 else 1)

unfoldable pub check_layout : SnapshotHeader → ℕ → Result ReadError (Unit {0})
unfolding regions_valid limits_valid expected_blocks
check_layout h file_size = do
  throw_if (not (regions_valid h file_size && limits_valid h)) invalid_region
  throw_if
      (not (h.search_block_count == expected_blocks h.package_count h.search_block_packages)
        || not (
            h.search_super_block_count == (
              if h.search_super_block_packages == 0
              then 0
              else expected_blocks h.package_count h.search_super_block_packages)))
      invalid_layout
  ok tt

-- the loop over the package records, or the one over the shadow records
unfoldable pub check_records :
    SnapshotHeader → ReadError → List PackageRecord → Result ReadError (Unit {0})
unfolding slice_valid
check_records h e [] = ok tt
check_records h e (r ∷ records) = do
  throw_if
      (not (slice_valid r.name h.strings_size)
        || not (slice_valid r.json h.strings_size)
        || not (slice_valid r.search h.search_texts_size)
        || leb h.branch_count r.branch_index)
      e
  check_records h e records

-- the loop over the branches behind the first one
unfoldable pub check_branches_after :
    Bytes → SnapshotHeader → BranchRecord → List BranchRecord → Result ReadError (Unit {0})
unfolding slice_valid
check_branches_after strings h previous [] = ok tt
check_branches_after strings h previous (r ∷ branches) = do
  throw_if (not (slice_valid r.name h.strings_size)) invalid_branch_slice
  throw_if (not (bytes_lt (slice_of strings previous.name) (slice_of strings r.name)))
      branches_not_sorted
  check_branches_after strings h r branches

unfoldable pub check_branches :
    Bytes → SnapshotHeader → List BranchRecord → Result ReadError (Unit {0})
unfolding check_branches_after
check_branches strings h [] = ok tt
check_branches strings h (r ∷ branches) = do
  throw_if (not (slice_valid r.name h.strings_size)) invalid_branch_slice
  check_branches_after strings h r branches

-- The loop over the blocks of one level: the number of packages that they cover.
unfoldable pub check_blocks : ℕ → ℕ → ReadError → ℕ → List SearchBlock → Result ReadError ℕ
check_blocks package_count limit e expected_first [] = ok expected_first
check_blocks package_count limit e expected_first (block ∷ blocks) = do
  throw_if
      (not (block.first_package == expected_first)
        || ltb package_count expected_first
        || block.package_count == 0
        || ltb limit block.package_count
        || ltb (package_count - expected_first) block.package_count)
      e
  check_blocks package_count limit e (expected_first + block.package_count) blocks

unfoldable pub check_search : SnapshotView → Result ReadError (Unit {0})
unfolding check_blocks
check_search view =
    let h = view.header in
    do
      covered ←
          check_blocks h.package_count h.search_block_packages invalid_block 0 view.search_blocks
      throw_if (not (covered == h.package_count)) blocks_do_not_cover
      super_covered ←
          check_blocks h.package_count h.search_super_block_packages invalid_super_block 0
            view.search_super_blocks
      throw_if (not (h.search_super_block_packages == 0) && not (super_covered == h.package_count))
          super_blocks_do_not_cover
      ok tt

unfoldable pub validate : SnapshotView → ℕ → SnapshotValidation → Result ReadError (Unit {0})
unfolding check_counts check_layout check_records check_branches check_search
validate view file_size validation = do
  check_counts view.header file_size
  check_layout view.header file_size
  check_records view.header invalid_slice view.records
  check_records view.header invalid_shadow_slice view.shadow_records
  check_branches view.strings view.header view.branches
  elim validation [ full ↦ check_search view | records_only ↦ ok tt ]
