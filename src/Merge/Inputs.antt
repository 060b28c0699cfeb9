-- ===== src/Merge/Inputs.antt =====
-- `merge_generation_inputs` of src/merge.cpp.
pub mod Fuel
pub mod Least
pub mod Streams
pub mod Order
pub mod Sorted
pub mod Stable
pub mod Whole
use mathlib.Core.Option
use aurhub.Base.{
  ℕ, zero, suc, ◌+◌, ◌-◌, Bool, true, false, List, [], ◌∷◌, ◌++◌, Option, none, some, get_or,
  length, leb, if◌then◌else◌,
}
use aurhub.Base.Result.{Result, ok, err, ◌>>=◌, ◌>>◌, throw_if}
use aurhub.Bytes.{Bytes, bytes_eq}
use aurhub.Model.{ℤ, CompiledPackage, CompiledPackageView, package_view}
use aurhub.Generation.Format.{
  GenerationSource, GenerationLocation, GenerationView, GenerationPackageInput,
  GenerationPackageDetails, u32_max,
}
use aurhub.Generation.View
use aurhub.Generation.View.{package_count, shadow_package_count}
use aurhub.Merge.Names.{PackageNameTable}
use aurhub.Merge.Candidate.{
  MergeError, too_many_details, MergeSource, MergeCandidate, Stream, lifted, next_shadow,
  next_active, next_changed, least, stable_sort, no_package,
}

abbrev pub no_package_details : ℕ
no_package_details = u32_max

-- The locals of the function that the loop changes.
pub record Merging : Type 0 where
  pub shadow : Stream
  pub active : Stream
  pub changed : Stream
  pub packages : List GenerationPackageInput
  pub shadow_packages : List GenerationPackageInput
  pub package_details : List GenerationPackageDetails
  pub winner : Option GenerationPackageInput

-- the lambda `add_details`
unfoldable pub add_details :
    GenerationPackageDetails
    → List GenerationPackageDetails
    → Result MergeError (ℕ × List GenerationPackageDetails)
add_details d details = do
  throw_if (leb no_package_details (length details)) too_many_details
  ok (length details, details ++ d ∷ [])

-- `location.source` is one of the two arrays of the base
abbrev pub stands_in_base : GenerationLocation → Bool
stands_in_base location = elim location.source [
  | GenerationSource.base_active ↦ true
  | GenerationSource.base_shadow ↦ true
  | _ ↦ false
]

-- the input of a package at a location, with details where the base does not have it
unfoldable pub located_input :
    MergeCandidate
    → GenerationLocation
    → Result MergeError GenerationPackageDetails
    → List GenerationPackageDetails
    → Result MergeError (GenerationPackageInput × List GenerationPackageDetails)
unfolding add_details
located_input candidate location described details =
    let made : ℕ → GenerationPackageInput = λ details_index. record {
      name = candidate.name;
      location = location;
      branch_index = candidate.branch_index;
      details_index = details_index;
    } in
    if stands_in_base location
    then ok (made no_package_details, details)
    else (described >>= λ d. add_details d details >>= λ (index, more). ok (made index, more))

module _ (previous : GenerationView) (names : PackageNameTable) (old_to_new : List ℕ)
    (changed_packages : List CompiledPackage) where
  -- the search text, the JSON and the time of a package of the previous generation
  unfoldable pub shadow_details : ℕ → Result MergeError GenerationPackageDetails
  unfolding View.shadow_search_text View.shadow_json View.shadow_updated_at
  shadow_details index = do
    search ← lifted (View.shadow_search_text previous index)
    json ← lifted (View.shadow_json previous index)
    updated_at ← lifted (View.shadow_updated_at previous index)
    ok (record { search = search; json = json; updated_at = updated_at })

  unfoldable pub active_details : ℕ → Result MergeError GenerationPackageDetails
  unfolding View.search_text View.json View.updated_at
  active_details index = do
    search ← lifted (View.search_text previous index)
    json ← lifted (View.json previous index)
    updated_at ← lifted (View.updated_at previous index)
    ok (record { search = search; json = json; updated_at = updated_at })

  unfoldable pub make_input :
      MergeCandidate
      → List GenerationPackageDetails
      → Result MergeError (GenerationPackageInput × List GenerationPackageDetails)
  unfolding located_input shadow_details active_details add_details package_view
      View.shadow_location View.location
  make_input candidate details = elim candidate.source [
    | MergeSource.previous_shadow ↦
        lifted (View.shadow_location previous candidate.index) >>= λ location.
        located_input candidate location (shadow_details candidate.index) details
    | MergeSource.previous_active ↦ lifted (View.location previous candidate.index) >>= λ location.
        located_input candidate location (active_details candidate.index) details
    | MergeSource.changed ↦
        let p = package_view (get_or changed_packages candidate.index no_package) in
        add_details (record { search = p.search; json = p.json; updated_at = p.updated_at }) details
        >>= λ (index, more). ok (
          record {
            name = p.name;
            location = record { source = GenerationSource.inline_record; index = 0 };
            branch_index = p.branch_index;
            details_index = index;
          },
          more,
        )
  ]

  -- the streams from an index on
  unfoldable pub shadow_from : ℕ → Result MergeError Stream
  unfolding next_shadow shadow_package_count
  shadow_from index = next_shadow previous old_to_new (shadow_package_count previous - index) index

  unfoldable pub active_from : ℕ → Stream
  unfolding next_active package_count
  active_from index = next_active previous old_to_new names (package_count previous - index) index

  -- the locals before the loop, given the first candidate of the shadow packages
  abbrev pub start : Stream → Merging
  start shadow = record {
    shadow = shadow;
    active = active_from 0;
    changed = next_changed changed_packages 0;
    packages = [];
    shadow_packages = [];
    package_details = [];
    winner = none;
  }

  unfoldable pub consume : MergeSource → Merging → Result MergeError Merging
  unfolding shadow_from active_from next_changed
  consume source s = elim source [
    | MergeSource.previous_shadow ↦
        shadow_from (s.shadow.index + 1) >>= λ stream. ok (record s { shadow = stream })
    | MergeSource.previous_active ↦ ok (record s { active = active_from (s.active.index + 1) })
    | MergeSource.changed ↦
        ok (record s { changed = next_changed changed_packages (s.changed.index + 1) })
  ]

  -- what becomes of the package that has led so far
  unfoldable pub settle : GenerationPackageInput → Merging → Merging
  settle input s = elim s.winner [
    | none ↦ record s { winner = some input }
    | some w ↦
        if bytes_eq w.name input.name
        then record s { shadow_packages = s.shadow_packages ++ w ∷ []; winner = some input }
        else record s { packages = s.packages ++ w ∷ []; winner = some input }
  ]

  -- the body of the loop
  unfoldable pub merge_step : MergeCandidate → Merging → Result MergeError Merging
  unfolding make_input consume settle
  merge_step candidate s = make_input candidate s.package_details >>= λ (input, details).
      consume candidate.source (record s { package_details = details }) >>= λ next.
      ok (settle input next)

  -- The fuel is at least the number of packages that are left. There is no least candidate exactly
  -- where all streams have ended, so the exception for a lost candidate is never thrown.
  unfoldable pub merge_loop : ℕ → Merging → Result MergeError Merging
  unfolding least merge_step
  merge_loop zero s = ok s
  merge_loop (suc fuel) s = elim (least s.shadow.front s.active.front s.changed.front) [
    | none ↦ ok s
    | some candidate ↦ merge_step candidate s >>= λ next. merge_loop fuel next
  ]

-- What the function leaves in its arguments.
pub record Merged : Type 0 where
  pub packages : List GenerationPackageInput
  pub shadow_packages : List GenerationPackageInput
  pub package_details : List GenerationPackageDetails

-- the winner that is left
unfoldable pub finish_merge : Merging → Merged
finish_merge s = record {
  packages = elim s.winner [ none ↦ s.packages | some w ↦ s.packages ++ w ∷ [] ];
  shadow_packages = s.shadow_packages;
  package_details = s.package_details;
}

-- `changed_packages` are sorted first.
unfoldable pub merge_generation_inputs :
    GenerationView → PackageNameTable → List ℕ → List CompiledPackage → Result MergeError Merged
unfolding stable_sort shadow_from active_from next_changed merge_loop finish_merge
    shadow_package_count package_count
merge_generation_inputs previous names old_to_new changed_packages =
    let sorted = stable_sort changed_packages in
    let fuel = shadow_package_count previous + package_count previous + length sorted in
    shadow_from previous names old_to_new sorted 0 >>= λ shadow.
    merge_loop previous names old_to_new sorted (suc fuel)
      (start previous names old_to_new sorted shadow)
    >>= λ s. ok (finish_merge s)
