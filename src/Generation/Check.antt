-- ===== src/Generation/Check.antt =====
-- The checks of an overlay in the constructor of `GenerationView`, src/generation.cpp, over the
-- mapped regions.
pub mod Refs
pub mod Order
use aurhub.Base.{
  ℕ, ◌-◌, ◌*◌, ◌/◌, ◌%◌, ◌^◌, Bool, true, false, not, ◌&&◌, ◌||◌, List, [], ◌∷◌, Option, none, some,
  ltb, leb, ◌==◌,
}
use aurhub.Base.Result.{ok, err, ◌>>=◌, ◌>>◌, throw_if}
use aurhub.Bytes.{Bytes, bytes_eq, bytes_lt}
use aurhub.Model.{ℤ, pos, negsuc}
use aurhub.Snapshot.Format.{Slice32, SnapshotView}
use aurhub.Snapshot.Reader.{SnapshotValidation, validate, u64_max}
use aurhub.Generation.Format
use aurhub.Generation.Format.{
  GenerationError, GenerationSource, GenerationBranchRef, GenerationPackageRef, InlineBranchRecord,
  InlinePackageRecord, GenerationHeader, Overlay, GenerationView, generation_magic,
  generation_version, checked_source, u32_max,
}
use aurhub.Generation.Ref.{Get, ref_branch_name, package_name}

-- sizeof(GenerationHeader)
abbrev pub overlay_header_size : ℕ
overlay_header_size = 192

unfoldable pub region_valid : ℕ → ℕ → ℕ → Bool
region_valid offset size file_size = leb offset file_size && leb size (file_size - offset)

unfoldable pub slice_valid : Slice32 → ℕ → Bool
slice_valid slice section_size =
    leb slice.offset section_size && leb slice.size (section_size - slice.offset)

-- `byte_size<T>(count)`, where `width` is sizeof(T)
unfoldable pub byte_size : ℕ → ℕ → Get ℕ
byte_size width count = do
  throw_if (ltb (u64_max / width) count) Format.table_too_large
  ok (count * width)

-- `static_cast<std::uint64_t>`
unfoldable pub to_u64 : ℤ → ℕ
to_u64 (pos n) = n % 2 ^ 64
to_u64 (negsuc n) = u64_max - n % 2 ^ 64

-- the tests before the base is opened
unfoldable pub check_format : GenerationHeader → ℕ → Get (Unit {0})
check_format h file_size = do
  throw_if (ltb file_size overlay_header_size) Format.smaller_than_header
  throw_if
      (not (bytes_eq h.magic generation_magic)
        || not (h.version == generation_version)
        || not (h.header_size == overlay_header_size))
      Format.unsupported_format
  ok tt

-- `std::make_shared<SnapshotView>(path, validation)`, whose exception is passed on
unfoldable pub open_base : SnapshotView → ℕ → SnapshotValidation → Get (Unit {0})
unfolding validate
open_base base base_size validation = elim (validate base base_size validation) [
  | ok u ↦ ok u
  | err e ↦ err (Format.base_rejected e)
]

unfoldable pub check_base : GenerationHeader → SnapshotView → ℕ → Get (Unit {0})
unfolding to_u64
check_base h base base_size =
    throw_if
      (not (base_size == h.base_file_size)
        || not (to_u64 base.header.created_at == h.base_created_at))
      Format.base_does_not_match

unfoldable pub check_regions : GenerationHeader → ℕ → Get (Unit {0})
unfolding byte_size region_valid
check_regions h file_size = do
  branch_refs_size ← byte_size 8 h.branch_count
  package_refs_size ← byte_size 16 h.package_count
  shadow_refs_size ← byte_size 16 h.shadow_package_count
  inline_branches_size ← byte_size 40 h.inline_branch_count
  inline_packages_size ← byte_size 32 h.inline_package_count
  throw_if
      (not (
        region_valid h.branch_refs_offset branch_refs_size file_size
        && region_valid h.package_refs_offset package_refs_size file_size
        && region_valid h.shadow_package_refs_offset shadow_refs_size file_size
        && region_valid h.inline_branches_offset inline_branches_size file_size
        && region_valid h.inline_packages_offset inline_packages_size file_size
        && region_valid h.strings_offset h.strings_size file_size
        && region_valid h.search_texts_offset h.search_texts_size file_size
        && region_valid h.packages_gz_offset h.packages_gz_size file_size))
      Format.invalid_region

unfoldable pub check_inline_branches : GenerationHeader → List InlineBranchRecord → Get (Unit {0})
unfolding slice_valid
check_inline_branches h [] = ok tt
check_inline_branches h (r ∷ records) = do
  throw_if (not (slice_valid r.name h.strings_size)) Format.invalid_inline_branch
  check_inline_branches h records

unfoldable pub check_inline_packages : GenerationHeader → List InlinePackageRecord → Get (Unit {0})
unfolding slice_valid
check_inline_packages h [] = ok tt
check_inline_packages h (r ∷ records) = do
  throw_if
      (not (slice_valid r.name h.strings_size)
        || not (slice_valid r.json h.strings_size)
        || not (slice_valid r.search h.search_texts_size))
      Format.invalid_inline_package
  check_inline_packages h records

abbrev pub head : {A : Type 0} → List A → Option A
head [] = none
head (a ∷ as') = some a

-- `name(a) >= name(b)`, where there are both
abbrev pub not_below : {A : Type 0} → (A → Get Bytes) → Option A → Option A → Get Bool
not_below name none b = ok false
not_below name (some a) none = ok false
not_below name (some a) (some b) = name a >>= λ x. name b >>= λ y. ok (not (bytes_lt x y))

-- `have_... && index <= last`
abbrev pub not_after : Option ℕ → ℕ → Bool
not_after none index = false
not_after (some last) index = leb index last

-- A reference that is not to the base is tested against both neighbours.
abbrev pub check_neighbours :
    {A : Type 0} → (A → Get Bytes) → GenerationError → Option A → A → List A → Get (Unit {0})
check_neighbours name e previous r rest = not_below name previous (some r) >>= λ above.
    throw_if above e >> (not_below name (some r) (head rest) >>= λ below. throw_if below e)

unfoldable pub check_branch_refs :
    SnapshotView
    → Overlay
    → Option GenerationBranchRef
    → Option ℕ
    → List GenerationBranchRef
    → Get (Unit {0})
unfolding checked_source ref_branch_name
check_branch_refs base o previous last [] = ok tt
check_branch_refs base o previous last (r ∷ rest) = do
  source ← checked_source r.source
  throw_if
      (elim source [
        | GenerationSource.base_branch ↦ leb base.header.branch_count r.index
        | GenerationSource.inline_record ↦ leb o.header.inline_branch_count r.index
        | _ ↦ true
      ])
      Format.invalid_branch_reference
  (elim source [
    | GenerationSource.base_branch ↦
        throw_if (not_after last r.index) Format.base_branches_not_ordered
    | _ ↦ check_neighbours (ref_branch_name base o) Format.branches_not_sorted previous r rest
  ])
  check_branch_refs base o (some r)
      (elim source [ GenerationSource.base_branch ↦ some r.index | _ ↦ last ]) rest

unfoldable pub validate_package_ref :
    SnapshotView → Overlay → GenerationPackageRef → Get GenerationSource
unfolding checked_source
validate_package_ref base o r = do
  source ← checked_source r.source
  throw_if
      ((elim source [
        | GenerationSource.base_active ↦ leb base.header.package_count r.index
        | GenerationSource.base_shadow ↦ leb base.header.shadow_package_count r.index
        | GenerationSource.inline_record ↦ leb o.header.inline_package_count r.index
        | GenerationSource.base_branch ↦ true
      ])
        || leb o.header.branch_count r.branch_index)
      Format.invalid_package_reference
  ok source

unfoldable pub check_package_refs :
    SnapshotView
    → Overlay
    → Option GenerationPackageRef
    → Option ℕ
    → List GenerationPackageRef
    → Get (Unit {0})
unfolding validate_package_ref package_name
check_package_refs base o previous last [] = ok tt
check_package_refs base o previous last (r ∷ rest) = do
  source ← validate_package_ref base o r
  (elim source [
    | GenerationSource.base_active ↦
        throw_if (not_after last r.index) Format.base_packages_not_ordered
    | _ ↦ check_neighbours (package_name base o) Format.active_packages_not_sorted previous r rest
  ])
  check_package_refs base o (some r)
      (elim source [ GenerationSource.base_active ↦ some r.index | _ ↦ last ]) rest

-- `shadow_name(i - 1) > shadow_name(i)`
unfoldable pub shadow_above :
    SnapshotView → Overlay → Option GenerationPackageRef → GenerationPackageRef → Get Bool
unfolding package_name
shadow_above base o none r = ok false
shadow_above base o (some p) r =
    package_name base o p >>= λ x. package_name base o r >>= λ y. ok (bytes_lt y x)

unfoldable pub check_shadow_refs :
    SnapshotView
    → Overlay
    → Option GenerationPackageRef
    → List GenerationPackageRef
    → Get (Unit {0})
unfolding validate_package_ref shadow_above
check_shadow_refs base o previous [] = ok tt
check_shadow_refs base o previous (r ∷ rest) = do
  source ← validate_package_ref base o r
  above ← shadow_above base o previous r
  throw_if above Format.shadow_packages_not_sorted
  check_shadow_refs base o (some r) rest

-- all checks of the references
unfoldable pub check_overlay : SnapshotView → Overlay → Get (Unit {0})
unfolding check_inline_branches check_inline_packages check_branch_refs check_package_refs
    check_shadow_refs
check_overlay base o = do
  check_inline_branches o.header o.inline_branches
  check_inline_packages o.header o.inline_packages
  check_branch_refs base o none none o.branch_refs
  check_package_refs base o none none o.package_refs
  check_shadow_refs base o none o.shadow_package_refs
