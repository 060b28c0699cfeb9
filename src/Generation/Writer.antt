-- ===== src/Generation/Writer.antt =====
-- `write_generation_overlay` of src/generation.cpp: the tables, the layout and the contents of an
-- overlay file. zlib, the clock and the size of the base's file are parameters. The system calls
-- that put the bytes into a temporary file and rename it are not modelled.
pub mod Stored
pub mod Written
use aurhub.Base.{
  ℕ, ◌+◌, ◌-◌, ◌%◌, ◌^◌, Bool, true, false, not, ◌&&◌, ◌||◌, List, [], ◌∷◌, ◌++◌, Option, none,
  some, get_or, length, ltb, leb, ◌==◌, if◌then◌else◌,
}
use aurhub.Base.Result.{Result, ok, err, ◌>>=◌, ◌>>◌, throw_if}
use aurhub.Bytes.{Bytes}
use aurhub.Model.{ℤ, pos, BranchInfo}
use aurhub.Snapshot.Format.{Slice32, SnapshotView}
use aurhub.Snapshot.Writer.{align_up}
use aurhub.Generation.Format
use aurhub.Generation.Format.{
  GenerationSource, GenerationLocation, GenerationBranchRef, GenerationPackageRef,
  InlineBranchRecord, InlinePackageRecord, GenerationHeader, Overlay, GenerationPackageInput,
  GenerationPackageDetails, generation_magic, generation_version, source_value, u32_max,
}
use aurhub.Generation.Ref.{Get}
use aurhub.Generation.Check.{byte_size, overlay_header_size, to_u64}

-- The slice, and the new section.
unfoldable pub append_slice : Bytes → Bytes → Get (Slice32 × Bytes)
append_slice blob value = do
  throw_if
      (ltb u32_max (length blob)
        || ltb u32_max (length value)
        || ltb (u32_max - length blob) (length value))
      Format.section_too_large
  ok (record { offset = length blob % 2 ^ 32; size = length value % 2 ^ 32 }, blob ++ value)

-- The tables that the loops fill.
pub record Tables : Type 0 where
  pub inline_branches : List InlineBranchRecord
  pub inline_packages : List InlinePackageRecord
  pub strings : Bytes
  pub search_texts : Bytes

abbrev pub no_tables : Tables
no_tables = record { inline_branches = []; inline_packages = []; strings = []; search_texts = [] }

-- `location.source == GenerationSource::base_branch`
abbrev pub in_base : GenerationLocation → Bool
in_base location = elim location.source [ GenerationSource.base_branch ↦ true | _ ↦ false ]

-- the body of the loop over the branches
unfoldable pub append_branch :
    SnapshotView → BranchInfo → GenerationLocation → Tables → Get (GenerationBranchRef × Tables)
unfolding append_slice source_value
append_branch base branch location t =
    if in_base location
    then (throw_if (leb base.header.branch_count location.index) Format.invalid_base_branch_location
        >> ok (
          record { source = source_value GenerationSource.base_branch; index = location.index },
          t,
        ))
    else (append_slice t.strings branch.name >>= λ (name, strings). ok (
      record {
        source = source_value GenerationSource.inline_record;
        index = length t.inline_branches % 2 ^ 32;
      },
      record t {
        inline_branches =
            t.inline_branches
            ++ record { name = name; oid = branch.oid; updated_at = branch.updated_at } ∷ [];
        strings = strings;
      },
    ))

unfoldable pub append_branches :
    SnapshotView
    → List BranchInfo
    → List GenerationLocation
    → Tables
    → Get (List GenerationBranchRef × Tables)
unfolding append_branch
append_branches base [] locations t = ok ([], t)
append_branches base (b ∷ branches) [] t = ok ([], t)
append_branches base (b ∷ branches) (l ∷ locations) t = append_branch base b l t >>= λ (ref, next).
    append_branches base branches locations next >>= λ (refs, last). ok (ref ∷ refs, last)

-- The package of the base is still there.
unfoldable pub reusable : SnapshotView → GenerationLocation → Bool
reusable base location = elim location.source [
  | GenerationSource.base_active ↦ ltb location.index base.header.package_count
  | GenerationSource.base_shadow ↦ ltb location.index base.header.shadow_package_count
  | _ ↦ false
]

abbrev pub no_details : GenerationPackageDetails
no_details = record { search = []; json = []; updated_at = pos 0 }

-- the record of a package that is not in the base, and its reference
unfoldable pub append_inline :
    GenerationPackageInput → GenerationPackageDetails → Tables → Get (GenerationPackageRef × Tables)
unfolding append_slice source_value
append_inline input details t = append_slice t.strings input.name >>= λ (name, after_name).
    append_slice t.search_texts details.search >>= λ (search, search_texts).
    append_slice after_name details.json >>= λ (json, strings). ok (
      record {
        source = source_value GenerationSource.inline_record;
        index = length t.inline_packages % 2 ^ 32;
        branch_index = input.branch_index;
      },
      record t {
        inline_packages =
            t.inline_packages
            ++ record { name = name; search = search; json = json; updated_at = details.updated_at }
              ∷ [];
        strings = strings;
        search_texts = search_texts;
      },
    )

-- the lambda `append_package`
unfoldable pub append_package :
    SnapshotView
    → ℕ
    → List GenerationPackageDetails
    → GenerationPackageInput
    → Tables
    → Get (GenerationPackageRef × Tables)
unfolding reusable append_inline source_value
append_package base branch_count details input t = do
  throw_if (leb branch_count input.branch_index) Format.invalid_branch
  (if reusable base input.location
      then ok (
        record {
          source = source_value input.location.source;
          index = input.location.index;
          branch_index = input.branch_index;
        },
        t,
      )
      else (throw_if (leb (length details) input.details_index) Format.lacks_details
          >> append_inline input (get_or details input.details_index no_details) t))

unfoldable pub append_packages :
    SnapshotView
    → ℕ
    → List GenerationPackageDetails
    → List GenerationPackageInput
    → Tables
    → Get (List GenerationPackageRef × Tables)
unfolding append_package
append_packages base branch_count details [] t = ok ([], t)
append_packages base branch_count details (input ∷ inputs) t =
    append_package base branch_count details input t >>= λ (ref, next).
    append_packages base branch_count details inputs next >>= λ (refs, last). ok (ref ∷ refs, last)

-- the text that `gzip_names` compresses
unfoldable pub input_names : List GenerationPackageInput → Bytes
input_names [] = []
input_names (p ∷ packages) = p.name ++ b'\n' ∷ input_names packages

-- `gzip` is the compression by zlib, which may fail.
unfoldable pub gzip_names : (Bytes → Option Bytes) → List GenerationPackageInput → Get Bytes
unfolding input_names
gzip_names gzip packages = do
  throw_if (ltb u32_max (length (input_names packages))) Format.name_list_too_large
  elim (gzip (input_names packages)) [ none ↦ err Format.gzip_failed | some bytes ↦ ok bytes ]

-- The sizes that the header names.
pub record Counts : Type 0 where
  pub branches : ℕ
  pub packages : ℕ
  pub shadow_packages : ℕ

unfoldable pub make_header : SnapshotView → ℕ → ℤ → Counts → Tables → Bytes → Get GenerationHeader
unfolding align_up byte_size to_u64
make_header base base_size now n t packages_gz = do
  let branch_refs_offset = align_up overlay_header_size 8
  branch_refs_size ← byte_size 8 n.branches
  let package_refs_offset = align_up (branch_refs_offset + branch_refs_size) 8
  package_refs_size ← byte_size 16 n.packages
  let shadow_package_refs_offset = align_up (package_refs_offset + package_refs_size) 8
  shadow_refs_size ← byte_size 16 n.shadow_packages
  let inline_branches_offset = align_up (shadow_package_refs_offset + shadow_refs_size) 8
  inline_branches_size ← byte_size 40 (length t.inline_branches)
  let inline_packages_offset = align_up (inline_branches_offset + inline_branches_size) 8
  inline_packages_size ← byte_size 32 (length t.inline_packages)
  let strings_offset = align_up (inline_packages_offset + inline_packages_size) 8
  let search_texts_offset = align_up (strings_offset + length t.strings) 8
  ok (record {
    magic = generation_magic;
    version = generation_version;
    header_size = overlay_header_size;
    base_created_at = to_u64 base.header.created_at;
    base_file_size = base_size;
    branch_count = n.branches;
    package_count = n.packages;
    shadow_package_count = n.shadow_packages;
    branch_refs_offset = branch_refs_offset;
    package_refs_offset = package_refs_offset;
    shadow_package_refs_offset = shadow_package_refs_offset;
    inline_branches_offset = inline_branches_offset;
    inline_branch_count = length t.inline_branches;
    inline_packages_offset = inline_packages_offset;
    inline_package_count = length t.inline_packages;
    strings_offset = strings_offset;
    strings_size = length t.strings;
    search_texts_offset = search_texts_offset;
    search_texts_size = length t.search_texts;
    packages_gz_offset = align_up (search_texts_offset + length t.search_texts) 8;
    packages_gz_size = length packages_gz;
    created_at = now;
  })

-- What is written: the branches with their places, and the packages.
pub record GenerationInput : Type 0 where
  pub branches : List BranchInfo
  pub branch_locations : List GenerationLocation
  pub packages : List GenerationPackageInput
  pub shadow_packages : List GenerationPackageInput
  pub package_details : List GenerationPackageDetails

abbrev pub counts_of : GenerationInput → Counts
counts_of input = record {
  branches = length input.branches;
  packages = length input.packages;
  shadow_packages = length input.shadow_packages;
}

-- the part behind the loops
unfoldable pub finish_overlay :
    (Bytes → Option Bytes)
    → ℤ
    → SnapshotView
    → ℕ
    → GenerationInput
    → List GenerationBranchRef
    → List GenerationPackageRef
    → List GenerationPackageRef
    → Tables
    → Get Overlay
unfolding gzip_names make_header
finish_overlay gzip now base base_size input branch_refs package_refs shadow_refs t = do
  packages_gz ← gzip_names gzip input.packages
  header ← make_header base base_size now (counts_of input) t packages_gz
  ok (record {
    header = header;
    branch_refs = branch_refs;
    package_refs = package_refs;
    shadow_package_refs = shadow_refs;
    inline_branches = t.inline_branches;
    inline_packages = t.inline_packages;
    strings = t.strings;
    search_texts = t.search_texts;
    packages_gz = packages_gz;
  })

-- The contents of the file.
unfoldable pub write_generation_overlay :
    (Bytes → Option Bytes) → ℤ → SnapshotView → ℕ → GenerationInput → Get Overlay
unfolding append_branches append_packages finish_overlay
write_generation_overlay gzip now base base_size input = do
  throw_if (not (length input.branches == length input.branch_locations))
      Format.branch_locations_differ
  throw_if (ltb u32_max (length input.branches)) Format.too_many_branches
  (branch_refs, t1) ← append_branches base input.branches input.branch_locations no_tables
  (package_refs, t2) ←
      append_packages base (length input.branches) input.package_details input.packages t1
  (shadow_refs, t3) ←
      append_packages base (length input.branches) input.package_details input.shadow_packages t2
  finish_overlay gzip now base base_size input branch_refs package_refs shadow_refs t3
