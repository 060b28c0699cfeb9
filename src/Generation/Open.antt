-- ===== src/Generation/Open.antt =====
-- The constructor of `GenerationView` in src/generation.cpp: the checks of an overlay and the tables
-- that it makes of the references. Opening and mapping the files are not modelled: the arguments
-- are the mapped regions, if the file is an overlay, those of the base, and the sizes of the files.
pub mod Filled
pub mod Dirty
pub mod Exact
use aurhub.Base.{
  ℕ, suc, ◌/◌, ◌%◌, ◌^◌, not, List, [], ◌∷◌, ◌++◌, Option, none, some, get_or, set, replicate, ◌==◌,
  if◌then◌else◌,
}
use aurhub.Base.Result.{ok, ◌>>=◌, ◌>>◌, throw_if}
use aurhub.Snapshot.Format.{SnapshotView}
use aurhub.Snapshot.Reader.{SnapshotValidation}
use aurhub.Generation.Format
use aurhub.Generation.Format.{
  GenerationError, GenerationSource, GenerationBranchRef, GenerationPackageRef, InlineBranchRecord,
  InlinePackageRecord, GenerationHeader, Overlay, GenerationView, generation_magic,
  generation_version, checked_source, u32_max,
}
use aurhub.Generation.Ref.{Get}
use aurhub.Generation.Check.{check_format, open_base, check_base, check_regions, check_overlay}

-- The three tables that the loop over the references fills.
pub record Flags : Type 0 where
  pub kept : List ℕ
  pub to_current : List ℕ
  pub extra : List ℕ

unfoldable pub flag_ref : ℕ → GenerationPackageRef → Flags → Get Flags
unfolding checked_source
flag_ref i r s = checked_source r.source >>= λ source. elim source [
  | GenerationSource.base_active ↦
      (throw_if (not (get_or s.kept r.index 0 == 0)) Format.reuses_base_package
        >> ok (record s {
          kept = set s.kept r.index 1;
          to_current = set s.to_current r.index (i % 2 ^ 32);
        }))
  | _ ↦ ok (record s { extra = s.extra ++ i % 2 ^ 32 ∷ [] })
]

unfoldable pub flag_refs : ℕ → List GenerationPackageRef → Flags → Get Flags
unfolding flag_ref
flag_refs i [] s = ok s
flag_refs i (r ∷ rest) s = flag_ref i r s >>= λ t. flag_refs (suc i) rest t

-- the loop over `base_active_kept_`
unfoldable pub mark_dirty : ℕ → ℕ → List ℕ → List ℕ → List ℕ
mark_dirty block_packages i [] dirty = dirty
mark_dirty block_packages i (k ∷ kept) dirty =
    mark_dirty block_packages (suc i) kept
      (if k == 0 then set dirty (i / block_packages) 1 else dirty)

-- the tables before the loop
unfoldable pub no_flags : SnapshotView → Flags
no_flags base = record {
  kept = replicate base.header.package_count 0;
  to_current = replicate base.header.package_count u32_max;
  extra = [];
}

unfoldable pub make_view : SnapshotView → Overlay → Flags → GenerationView
unfolding mark_dirty
make_view base o flags = record {
  base = base;
  overlay = some o;
  base_active_kept = flags.kept;
  base_dirty_search_blocks =
      mark_dirty base.header.search_block_packages 0 flags.kept
        (replicate base.header.search_block_count 0);
  base_to_current = flags.to_current;
  extra_active = flags.extra;
}

unfoldable pub open_generation :
    Option Overlay → SnapshotView → ℕ → ℕ → SnapshotValidation → Get GenerationView
unfolding check_format open_base check_base check_regions check_overlay flag_refs no_flags make_view
open_generation none base file_size base_size validation = do
  open_base base base_size validation
  ok (record {
    base = base;
    overlay = none;
    base_active_kept = [];
    base_dirty_search_blocks = [];
    base_to_current = [];
    extra_active = [];
  })
open_generation (some o) base file_size base_size validation = do
  check_format o.header file_size
  open_base base base_size validation
  check_base o.header base base_size
  check_regions o.header file_size
  check_overlay base o
  flags ← flag_refs 0 o.package_refs (no_flags base)
  ok (make_view base o flags)
