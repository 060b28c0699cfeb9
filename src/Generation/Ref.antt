-- ===== src/Generation/Ref.antt =====
-- The references of an overlay and what they point to: the accessors of `GenerationView` in
-- src/generation.cpp that take a reference, or an index of the overlay's own arrays. Where the
-- source of a reference is invalid they throw.
use aurhub.Base.{ℕ, get_or}
use aurhub.Base.Result.{Result, ok, err, ◌>>=◌}
use aurhub.Bytes.{Bytes}
use aurhub.Model.{ℤ, BranchInfo}
use aurhub.Snapshot.Format
use aurhub.Snapshot.Format.{SnapshotView, slice_of, package_record, shadow_record, branch_record}
use aurhub.Generation.Format.{
  GenerationError, invalid_package_source, GenerationSource, GenerationBranchRef,
  GenerationPackageRef, InlineBranchRecord, InlinePackageRecord, Overlay, checked_source,
  no_branch_ref, no_package_ref, no_inline_branch, no_inline_package,
}

-- what an accessor gives
abbrev pub Get : Type 0 → Type 0
Get A = Result GenerationError A

-- The arrays of the overlay.
unfoldable pub branch_ref : Overlay → ℕ → GenerationBranchRef
branch_ref o index = get_or o.branch_refs index no_branch_ref

unfoldable pub package_ref : Overlay → ℕ → GenerationPackageRef
package_ref o index = get_or o.package_refs index no_package_ref

unfoldable pub shadow_package_ref : Overlay → ℕ → GenerationPackageRef
shadow_package_ref o index = get_or o.shadow_package_refs index no_package_ref

unfoldable pub inline_branch : Overlay → ℕ → InlineBranchRecord
inline_branch o index = get_or o.inline_branches index no_inline_branch

unfoldable pub inline_package : Overlay → ℕ → InlinePackageRecord
inline_package o index = get_or o.inline_packages index no_inline_package

module _ (base : SnapshotView) (o : Overlay) where
  -- A value of the branch that a reference names: any source but the base is taken for inline.
  abbrev of_branch : {A : Type 0} → (ℕ → A) → (InlineBranchRecord → A) → GenerationBranchRef → Get A
  of_branch in_base in_overlay ref = checked_source ref.source >>= λ source. elim source [
    | GenerationSource.base_branch ↦ ok (in_base ref.index)
    | _ ↦ ok (in_overlay (inline_branch o ref.index))
  ]

  unfoldable pub ref_branch_name : GenerationBranchRef → Get Bytes
  unfolding checked_source inline_branch
  ref_branch_name =
      of_branch (Format.branch_name base) (λ (r : InlineBranchRecord). slice_of o.strings r.name)

  unfoldable pub ref_branch_oid : GenerationBranchRef → Get Bytes
  unfolding checked_source inline_branch
  ref_branch_oid =
      of_branch (λ index. (branch_record base index).oid) (λ (r : InlineBranchRecord). r.oid)

  unfoldable pub ref_branch_updated_at : GenerationBranchRef → Get ℤ
  unfolding checked_source inline_branch
  ref_branch_updated_at =
      of_branch (λ index. (branch_record base index).updated_at)
        (λ (r : InlineBranchRecord). r.updated_at)

  unfoldable pub ref_branch_info : GenerationBranchRef → Get BranchInfo
  unfolding checked_source inline_branch
  ref_branch_info = of_branch (Format.branch_info base) (λ (r : InlineBranchRecord). record {
    name = slice_of o.strings r.name;
    oid = r.oid;
    updated_at = r.updated_at;
  })

  -- The `switch` on the source of a package.
  abbrev of_package :
      {A : Type 0} → (ℕ → A) → (ℕ → A) → (InlinePackageRecord → A) → GenerationPackageRef → Get A
  of_package active shadow in_overlay ref = checked_source ref.source >>= λ source. elim source [
    | GenerationSource.base_active ↦ ok (active ref.index)
    | GenerationSource.base_shadow ↦ ok (shadow ref.index)
    | GenerationSource.inline_record ↦ ok (in_overlay (inline_package o ref.index))
    | GenerationSource.base_branch ↦ err invalid_package_source
  ]

  unfoldable pub package_name : GenerationPackageRef → Get Bytes
  unfolding checked_source inline_package
  package_name =
      of_package (Format.name base) (Format.shadow_name base)
        (λ (r : InlinePackageRecord). slice_of o.strings r.name)

  unfoldable pub package_search : GenerationPackageRef → Get Bytes
  unfolding checked_source inline_package
  package_search =
      of_package (Format.search_text base) (Format.shadow_search_text base)
        (λ (r : InlinePackageRecord). slice_of o.search_texts r.search)

  unfoldable pub package_json : GenerationPackageRef → Get Bytes
  unfolding checked_source inline_package
  package_json =
      of_package (Format.json base) (Format.shadow_json base)
        (λ (r : InlinePackageRecord). slice_of o.strings r.json)

  unfoldable pub package_updated_at : GenerationPackageRef → Get ℤ
  unfolding checked_source inline_package
  package_updated_at =
      of_package (λ index. (package_record base index).updated_at)
        (λ index. (shadow_record base index).updated_at) (λ (r : InlinePackageRecord). r.updated_at)
