-- ===== src/Generation/View.antt =====
-- The accessors of `GenerationView` in src/generation.cpp. Where the source of a reference is
-- invalid they throw. Out of range a default stands for what the source leaves undefined.
use aurhub.Base.{ℕ, ◌%◌, ◌^◌, Bool, true, false, none, some}
use aurhub.Base.Result.{ok, ◌>>=◌}
use aurhub.Bytes.{Bytes}
use aurhub.Model.{ℤ, BranchInfo}
use aurhub.Snapshot.Format
use aurhub.Generation.Ref.{
  Get, branch_ref, package_ref, shadow_package_ref, ref_branch_name, ref_branch_oid,
  ref_branch_updated_at, ref_branch_info, package_name, package_search, package_json,
  package_updated_at,
}
use aurhub.Snapshot.Format.{SnapshotView, slice_of, package_record, shadow_record, branch_record}
use aurhub.Generation.Format.{GenerationSource, GenerationLocation, GenerationView, checked_source}

unfoldable pub is_overlay : GenerationView → Bool
is_overlay view = elim view.overlay [ none ↦ false | some o ↦ true ]

-- The counts.
unfoldable pub branch_count : GenerationView → ℕ
branch_count view = elim view.overlay [
  | none ↦ view.base.header.branch_count
  | some o ↦ o.header.branch_count
]

unfoldable pub package_count : GenerationView → ℕ
package_count view = elim view.overlay [
  | none ↦ view.base.header.package_count
  | some o ↦ o.header.package_count
]

unfoldable pub shadow_package_count : GenerationView → ℕ
shadow_package_count view = elim view.overlay [
  | none ↦ view.base.header.shadow_package_count
  | some o ↦ o.header.shadow_package_count
]

unfoldable pub created_at : GenerationView → ℤ
created_at view = elim view.overlay [
  | none ↦ view.base.header.created_at
  | some o ↦ o.header.created_at
]

unfoldable pub branch_name : GenerationView → ℕ → Get Bytes
unfolding ref_branch_name branch_ref
branch_name view index = elim view.overlay [
  | none ↦ ok (Format.branch_name view.base index)
  | some o ↦ ref_branch_name view.base o (branch_ref o index)
]

unfoldable pub branch_oid : GenerationView → ℕ → Get Bytes
unfolding ref_branch_oid branch_ref
branch_oid view index = elim view.overlay [
  | none ↦ ok (branch_record view.base index).oid
  | some o ↦ ref_branch_oid view.base o (branch_ref o index)
]

unfoldable pub branch_updated_at : GenerationView → ℕ → Get ℤ
unfolding ref_branch_updated_at branch_ref
branch_updated_at view index = elim view.overlay [
  | none ↦ ok (branch_record view.base index).updated_at
  | some o ↦ ref_branch_updated_at view.base o (branch_ref o index)
]

unfoldable pub branch_info : GenerationView → ℕ → Get BranchInfo
unfolding ref_branch_info branch_ref
branch_info view index = elim view.overlay [
  | none ↦ ok (Format.branch_info view.base index)
  | some o ↦ ref_branch_info view.base o (branch_ref o index)
]

-- where a reference points to
abbrev located : ℕ → ℕ → Get GenerationLocation
located source index = checked_source source >>= λ s. ok (record { source = s; index = index })

unfoldable pub branch_location : GenerationView → ℕ → Get GenerationLocation
unfolding checked_source branch_ref
branch_location view index = elim view.overlay [
  | none ↦ ok (record { source = GenerationSource.base_branch; index = index % 2 ^ 32 })
  | some o ↦ let ref = branch_ref o index in located ref.source ref.index
]

unfoldable pub name : GenerationView → ℕ → Get Bytes
unfolding package_name package_ref
name view index = elim view.overlay [
  | none ↦ ok (Format.name view.base index)
  | some o ↦ package_name view.base o (package_ref o index)
]

unfoldable pub search_text : GenerationView → ℕ → Get Bytes
unfolding package_search package_ref
search_text view index = elim view.overlay [
  | none ↦ ok (Format.search_text view.base index)
  | some o ↦ package_search view.base o (package_ref o index)
]

unfoldable pub json : GenerationView → ℕ → Get Bytes
unfolding package_json package_ref
json view index = elim view.overlay [
  | none ↦ ok (Format.json view.base index)
  | some o ↦ package_json view.base o (package_ref o index)
]

unfoldable pub updated_at : GenerationView → ℕ → Get ℤ
unfolding package_updated_at package_ref
updated_at view index = elim view.overlay [
  | none ↦ ok (package_record view.base index).updated_at
  | some o ↦ package_updated_at view.base o (package_ref o index)
]

unfoldable pub location : GenerationView → ℕ → Get GenerationLocation
unfolding checked_source package_ref
location view index = elim view.overlay [
  | none ↦ ok (record { source = GenerationSource.base_active; index = index % 2 ^ 32 })
  | some o ↦ let ref = package_ref o index in located ref.source ref.index
]

unfoldable pub package_branch_index : GenerationView → ℕ → ℕ
unfolding package_ref
package_branch_index view index = elim view.overlay [
  | none ↦ (package_record view.base index).branch_index
  | some o ↦ (package_ref o index).branch_index
]

unfoldable pub shadow_name : GenerationView → ℕ → Get Bytes
unfolding package_name shadow_package_ref
shadow_name view index = elim view.overlay [
  | none ↦ ok (Format.shadow_name view.base index)
  | some o ↦ package_name view.base o (shadow_package_ref o index)
]

unfoldable pub shadow_search_text : GenerationView → ℕ → Get Bytes
unfolding package_search shadow_package_ref
shadow_search_text view index = elim view.overlay [
  | none ↦ ok (Format.shadow_search_text view.base index)
  | some o ↦ package_search view.base o (shadow_package_ref o index)
]

unfoldable pub shadow_json : GenerationView → ℕ → Get Bytes
unfolding package_json shadow_package_ref
shadow_json view index = elim view.overlay [
  | none ↦ ok (Format.shadow_json view.base index)
  | some o ↦ package_json view.base o (shadow_package_ref o index)
]

unfoldable pub shadow_updated_at : GenerationView → ℕ → Get ℤ
unfolding package_updated_at shadow_package_ref
shadow_updated_at view index = elim view.overlay [
  | none ↦ ok (shadow_record view.base index).updated_at
  | some o ↦ package_updated_at view.base o (shadow_package_ref o index)
]

unfoldable pub shadow_location : GenerationView → ℕ → Get GenerationLocation
unfolding checked_source shadow_package_ref
shadow_location view index = elim view.overlay [
  | none ↦ ok (record { source = GenerationSource.base_shadow; index = index % 2 ^ 32 })
  | some o ↦ let ref = shadow_package_ref o index in located ref.source ref.index
]

unfoldable pub shadow_branch_index : GenerationView → ℕ → ℕ
unfolding shadow_package_ref
shadow_branch_index view index = elim view.overlay [
  | none ↦ (shadow_record view.base index).branch_index
  | some o ↦ (shadow_package_ref o index).branch_index
]

unfoldable pub packages_gz : GenerationView → Bytes
packages_gz view = elim view.overlay [ none ↦ view.base.packages_gz | some o ↦ o.packages_gz ]

unfoldable pub packages_gz_file_offset : GenerationView → ℕ
packages_gz_file_offset view = elim view.overlay [
  | none ↦ view.base.header.packages_gz_offset
  | some o ↦ o.header.packages_gz_offset
]
