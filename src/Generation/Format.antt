-- ===== src/Generation/Format.antt =====
-- The structures of src/generation.hpp that stand in an overlay file, the sources of a reference
-- and what may be thrown. An overlay is kept as its regions.
use aurhub.Base.{ℕ, ◌^◌, ◌-◌, List, [], ◌∷◌, Option, ◌==◌, if◌then◌else◌}
use aurhub.Base.Result.{Result, ok, err}
use aurhub.Bytes.{Bytes}
use aurhub.Model.{ℤ, pos}
use aurhub.Snapshot.Reader.{ReadError}
use aurhub.Snapshot.Format.{Slice32, SnapshotView, no_slice}

pub data GenerationError : Type 0 where
  base_rejected : ReadError → GenerationError
  invalid_source invalid_package_source smaller_than_header unsupported_format : GenerationError
  base_does_not_match table_too_large invalid_region invalid_inline_branch : GenerationError
  invalid_inline_package invalid_branch_reference base_branches_not_ordered : GenerationError
  branches_not_sorted invalid_package_reference base_packages_not_ordered : GenerationError
  active_packages_not_sorted shadow_packages_not_sorted reuses_base_package : GenerationError
  no_generation_index section_too_large branch_locations_differ too_many_branches : GenerationError
  invalid_base_branch_location invalid_branch lacks_details name_list_too_large gzip_failed :
      GenerationError

-- `kGenerationMagic` and `kGenerationVersion`
abbrev pub generation_magic : Bytes
generation_magic = b'A' ∷ b'U' ∷ b'R' ∷ b'H' ∷ b'O' ∷ b'V' ∷ b'R' ∷ 0 ∷ []

abbrev pub generation_version : ℕ
generation_version = 1

pub data GenerationSource : Type 0 where
  base_active base_shadow base_branch inline_record : GenerationSource

pub record GenerationLocation : Type 0 where
  pub source : GenerationSource
  pub index : ℕ

pub record GenerationBranchRef : Type 0 where
  pub source : ℕ
  pub index : ℕ

-- The reserved field is written as 0 and never read.
pub record GenerationPackageRef : Type 0 where
  pub source : ℕ
  pub index : ℕ
  pub branch_index : ℕ

pub record InlineBranchRecord : Type 0 where
  pub name : Slice32
  pub oid : Bytes
  pub updated_at : ℤ

pub record InlinePackageRecord : Type 0 where
  pub name : Slice32
  pub search : Slice32
  pub json : Slice32
  pub updated_at : ℤ

pub record GenerationHeader : Type 0 where
  pub magic : Bytes
  pub version : ℕ
  pub header_size : ℕ
  pub base_created_at : ℕ
  pub base_file_size : ℕ
  pub branch_count : ℕ
  pub package_count : ℕ
  pub shadow_package_count : ℕ
  pub branch_refs_offset : ℕ
  pub package_refs_offset : ℕ
  pub shadow_package_refs_offset : ℕ
  pub inline_branches_offset : ℕ
  pub inline_branch_count : ℕ
  pub inline_packages_offset : ℕ
  pub inline_package_count : ℕ
  pub strings_offset : ℕ
  pub strings_size : ℕ
  pub search_texts_offset : ℕ
  pub search_texts_size : ℕ
  pub packages_gz_offset : ℕ
  pub packages_gz_size : ℕ
  pub created_at : ℤ

-- A mapped overlay file.
pub record Overlay : Type 0 where
  pub header : GenerationHeader
  pub branch_refs : List GenerationBranchRef
  pub package_refs : List GenerationPackageRef
  pub shadow_package_refs : List GenerationPackageRef
  pub inline_branches : List InlineBranchRecord
  pub inline_packages : List InlinePackageRecord
  pub strings : Bytes
  pub search_texts : Bytes
  pub packages_gz : Bytes

-- The members of the class. There is no overlay where `header_` is null.
pub record GenerationView : Type 0 where
  pub base : SnapshotView
  pub overlay : Option Overlay
  pub base_active_kept : List ℕ
  pub base_dirty_search_blocks : List ℕ
  pub base_to_current : List ℕ
  pub extra_active : List ℕ

pub record GenerationPackageInput : Type 0 where
  pub name : Bytes
  pub location : GenerationLocation
  pub branch_index : ℕ
  pub details_index : ℕ

pub record GenerationPackageDetails : Type 0 where
  pub search : Bytes
  pub json : Bytes
  pub updated_at : ℤ

-- The values that the enumeration gives to its constants.
unfoldable pub source_value : GenerationSource → ℕ
source_value GenerationSource.base_active = 0
source_value GenerationSource.base_shadow = 1
source_value GenerationSource.base_branch = 2
source_value GenerationSource.inline_record = 3

unfoldable pub checked_source : ℕ → Result GenerationError GenerationSource
checked_source source =
    if source == 0
    then ok GenerationSource.base_active
    else if source == 1
    then ok GenerationSource.base_shadow
    else if source == 2
    then ok GenerationSource.base_branch
    else if source == 3
    then ok GenerationSource.inline_record
    else err invalid_source

abbrev pub no_branch_ref : GenerationBranchRef
no_branch_ref = record { source = 3; index = 0 }

abbrev pub no_package_ref : GenerationPackageRef
no_package_ref = record { source = 3; index = 0; branch_index = 0 }

abbrev pub no_inline_branch : InlineBranchRecord
no_inline_branch = record { name = no_slice; oid = []; updated_at = pos 0 }

abbrev pub no_inline_package : InlinePackageRecord
no_inline_package = record {
  name = no_slice;
  search = no_slice;
  json = no_slice;
  updated_at = pos 0;
}

abbrev pub u32_max : ℕ
u32_max = 2 ^ 32 - 1
