-- ===== src/Snapshot/Writer.antt =====
-- `assign_slice`, `gzip_names` and `write_snapshot` of src/snapshot.cpp: the tables, the layout and
-- the contents of a snapshot file. zlib and the clock are parameters. The system calls that put
-- the bytes into a temporary file and rename it are not modelled.
pub mod Slices
pub mod File
pub mod Returns
use Prim.Native.Nat.{bit_and}
use aurhub.Base.{
  ℕ, ◌+◌, ◌-◌, ◌*◌, ◌%◌, ◌^◌, Bool, ◌||◌, not, ◌&&◌, List, [], ◌∷◌, ◌++◌, map, Option, none, some,
  length, take, ltb, leb, ◌==◌, if◌then◌else◌,
}
use aurhub.Base.Result.{Result, ok, err, ◌>>=◌, ◌>>◌, throw_if}
use aurhub.Bytes.{Bytes}
use aurhub.Model.{ℤ, BranchInfo, CompiledPackageView}
use aurhub.Snapshot.Block.{SearchBlock}
use aurhub.Snapshot.Builder.{block_count, write_search_blocks}
use aurhub.Snapshot.Format.{Slice32, SnapshotHeader, PackageRecord, BranchRecord, SnapshotView}

pub data WriteError : Type 0 where
  bad_block_packages bad_super_block_packages too_many_packages section_too_large : WriteError
  invalid_branch invalid_shadow_branch gzip_failed block_count_changed file_too_large : WriteError

abbrev pub u32_max : ℕ
u32_max = 2 ^ 32 - 1

-- sizeof(SnapshotHeader), sizeof(PackageRecord), sizeof(BranchRecord), sizeof(SearchBlock)
abbrev pub header_size : ℕ
header_size = 176

abbrev pub record_size : ℕ
record_size = 40

abbrev pub branch_size : ℕ
branch_size = 40

abbrev pub block_size : ℕ
block_size = 16424

-- `(value + alignment - 1U) & ~(alignment - 1U)` on 64 bits
unfoldable pub align_up : ℕ → ℕ → ℕ
align_up value alignment = bit_and (value + alignment - 1) (2 ^ 64 - 1 - (alignment - 1))

-- The slice, and the new size of the section.
unfoldable pub assign_slice : ℕ → Bytes → Result WriteError (Slice32 × ℕ)
assign_slice section_size value = do
  throw_if
      (ltb u32_max section_size
        || ltb u32_max (length value)
        || ltb (u32_max - section_size) (length value))
      section_too_large
  ok (
    record { offset = section_size % 2 ^ 32; size = length value % 2 ^ 32 },
    section_size + length value,
  )

-- the loop over the branches, with the size of the string section so far
unfoldable pub branch_records : ℕ → List BranchInfo → Result WriteError (List BranchRecord × ℕ)
unfolding assign_slice
branch_records strings_size [] = ok ([], strings_size)
branch_records strings_size (b ∷ branches) = do
  (slice, strings_size') ← assign_slice strings_size b.name
  (records, last) ← branch_records strings_size' branches
  ok (record { name = slice; oid = b.oid; updated_at = b.updated_at } ∷ records, last)

-- The sizes of the string section and of the search text section.
pub record Sizes : Type 0 where
  pub strings_size : ℕ
  pub search_texts_size : ℕ

-- the body of the loop over the packages; `invalid` is the exception for a bad branch
unfoldable pub make_record :
    WriteError → ℕ → Sizes → CompiledPackageView → Result WriteError (PackageRecord × Sizes)
unfolding assign_slice
make_record invalid branch_count sizes p = do
  throw_if (leb branch_count p.branch_index) invalid
  (name, after_name) ← assign_slice sizes.strings_size p.name
  (search, after_search) ← assign_slice sizes.search_texts_size p.search
  (json, after_json) ← assign_slice after_name p.json
  ok (
    record {
      name = name;
      search = search;
      json = json;
      branch_index = p.branch_index;
      updated_at = p.updated_at;
    },
    record { strings_size = after_json; search_texts_size = after_search },
  )

-- the loop over the active packages, or the one over the shadow packages
unfoldable pub package_records :
    WriteError
    → ℕ
    → Sizes
    → List CompiledPackageView
    → Result WriteError (List PackageRecord × Sizes)
unfolding make_record
package_records invalid branch_count sizes [] = ok ([], sizes)
package_records invalid branch_count sizes (p ∷ packages) = do
  (r, sizes') ← make_record invalid branch_count sizes p
  (records, last) ← package_records invalid branch_count sizes' packages
  ok (r ∷ records, last)

-- the text that `gzip_names` makes
unfoldable pub joined_names : List CompiledPackageView → Bytes
joined_names [] = []
joined_names (p ∷ packages) = p.name ++ b'\n' ∷ joined_names packages

-- what it gives to the compression, of which the length is a number of 32 bits
unfoldable pub gzip_input : List CompiledPackageView → Bytes
unfolding joined_names take
gzip_input packages = let names = joined_names packages in take (length names % 2 ^ 32) names

-- what the writer appends to the string section for branches and for packages
unfoldable pub branch_strings : List BranchInfo → Bytes
branch_strings [] = []
branch_strings (b ∷ branches) = b.name ++ branch_strings branches

unfoldable pub package_strings : List CompiledPackageView → Bytes
package_strings [] = []
package_strings (p ∷ packages) = p.name ++ p.json ++ package_strings packages

unfoldable pub package_searches : List CompiledPackageView → Bytes
package_searches [] = []
package_searches (p ∷ packages) = p.search ++ package_searches packages

-- The arguments of `write_snapshot`, less the path.
pub record SnapshotInput : Type 0 where
  pub packages : List CompiledPackageView
  pub shadow_packages : List CompiledPackageView
  pub branches : List BranchInfo
  pub search_block_packages : ℕ
  pub search_super_block_packages : ℕ

-- `kSnapshotMagic` and `kSnapshotVersion`
abbrev pub snapshot_magic : Bytes
snapshot_magic = b'A' ∷ b'U' ∷ b'R' ∷ b'H' ∷ b'S' ∷ b'N' ∷ b'P' ∷ 0 ∷ []

abbrev pub snapshot_version : ℕ
snapshot_version = 1

-- The header: every region begins where the one before it ends, rounded up to 8.
unfoldable pub make_header : SnapshotInput → Sizes → ℕ → ℤ → SnapshotHeader
unfolding align_up block_count
make_header input sizes packages_gz_size now =
    let n = length input.packages in
    let records_offset = align_up header_size 8 in
    let shadow_records_offset = align_up (records_offset + n * record_size) 8 in
    let branches_offset =
      align_up (shadow_records_offset + length input.shadow_packages * record_size) 8 in
    let search_super_blocks_offset =
      align_up (branches_offset + length input.branches * branch_size) 8 in
    let search_super_block_count : ℕ =
      if input.search_super_block_packages == 0
      then 0
      else block_count n input.search_super_block_packages in
    let search_blocks_offset =
      align_up (search_super_blocks_offset + search_super_block_count * block_size) 8 in
    let search_block_count = block_count n input.search_block_packages in
    let strings_offset = align_up (search_blocks_offset + search_block_count * block_size) 8 in
    let search_texts_offset = align_up (strings_offset + sizes.strings_size) 8 in
    let packages_gz_offset = align_up (search_texts_offset + sizes.search_texts_size) 8 in
    record {
      magic = snapshot_magic;
      version = snapshot_version;
      header_size = header_size;
      package_count = n;
      shadow_package_count = length input.shadow_packages;
      branch_count = length input.branches;
      records_offset = records_offset;
      shadow_records_offset = shadow_records_offset;
      branches_offset = branches_offset;
      search_blocks_offset = search_blocks_offset;
      search_block_count = search_block_count;
      strings_offset = strings_offset;
      strings_size = sizes.strings_size;
      search_texts_offset = search_texts_offset;
      search_texts_size = sizes.search_texts_size;
      packages_gz_offset = packages_gz_offset;
      packages_gz_size = packages_gz_size;
      created_at = now;
      search_super_blocks_offset = search_super_blocks_offset;
      search_super_block_count = search_super_block_count;
      search_block_packages = input.search_block_packages;
      search_super_block_packages = input.search_super_block_packages;
    }

abbrev pub off_t_max : ℕ
off_t_max = 2 ^ 63 - 1

-- the tests at the head of `write_snapshot`
unfoldable pub check_input : SnapshotInput → Result WriteError (Unit {0})
check_input input =
    let fine = input.search_block_packages in
    let coarse = input.search_super_block_packages in
    do
      throw_if (fine == 0 || ltb 65535 fine) bad_block_packages
      throw_if
          (not (coarse == 0) && (ltb 65535 coarse || ltb coarse fine || not (coarse % fine == 0)))
          bad_super_block_packages
      throw_if (ltb u32_max (length input.packages)) too_many_packages
      ok tt

-- the three tables
pub record Tables : Type 0 where
  pub branches : List BranchRecord
  pub records : List PackageRecord
  pub shadow_records : List PackageRecord
  pub sizes : Sizes

unfoldable pub make_tables : SnapshotInput → Result WriteError Tables
unfolding branch_records package_records
make_tables input = do
  (branches, strings_size) ← branch_records 0 input.branches
  (records, sizes) ←
      package_records invalid_branch (length input.branches)
        (record { strings_size = strings_size; search_texts_size = 0 }) input.packages
  (shadows, sizes') ←
      package_records invalid_shadow_branch (length input.branches) sizes input.shadow_packages
  ok (record { branches = branches; records = records; shadow_records = shadows; sizes = sizes' })

-- the exception of an empty `Option`
unfoldable pub require {ℓ} : {A : Type ℓ} → WriteError → Option A → Result WriteError A
require e none = err e
require e (some a) = ok a

-- The regions of the file, as the writer fills them.
unfoldable pub make_view :
    SnapshotInput
    → Tables
    → Bytes
    → SnapshotHeader
    → List SearchBlock
    → List SearchBlock
    → SnapshotView
unfolding branch_strings package_strings package_searches
make_view input tables packages_gz header fine coarse = record {
  header = header;
  records = tables.records;
  shadow_records = tables.shadow_records;
  branches = tables.branches;
  search_super_blocks = coarse;
  search_blocks = fine;
  strings =
      branch_strings input.branches
      ++ package_strings input.packages
      ++ package_strings input.shadow_packages;
  search_texts = package_searches input.packages ++ package_searches input.shadow_packages;
  packages_gz = packages_gz;
}

-- The contents of the file. `gzip` is the compression by zlib, which may fail, and `now` the clock.
unfoldable pub write_snapshot :
    (Bytes → Option Bytes) → ℤ → SnapshotInput → Result WriteError SnapshotView
unfolding check_input make_tables make_header require write_search_blocks gzip_input make_view
write_snapshot gzip now input = do
  check_input input
  tables ← make_tables input
  packages_gz ← require gzip_failed (gzip (gzip_input input.packages))
  let header = make_header input tables.sizes (length packages_gz) now
  throw_if (ltb off_t_max (header.packages_gz_offset + header.packages_gz_size)) file_too_large
  (fine, coarse) ← require block_count_changed (
      write_search_blocks header.search_block_packages header.search_super_block_packages
        header.search_block_count header.search_super_block_count
        (map (λ p. p.search) input.packages))
  ok (make_view input tables packages_gz header fine coarse)
