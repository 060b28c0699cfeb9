-- ===== src/Merge/Inputs/Fuel.antt =====
-- The fuel of the loop of `merge_generation_inputs` of src/merge.cpp.
use aurhub.Base.{ℕ, zero, suc, ◌≤◌, ◌≡◌, refl, List, none, arith, inl, inr, Option-cases}
use aurhub.Base.Result.{ok, bind_ok, ok-injective}
use aurhub.Model.{CompiledPackage}
use aurhub.Generation.Format.{GenerationView}
use aurhub.Merge.Names.{PackageNameTable}
use aurhub.Merge.Candidate.{least}
use aurhub.Merge.Inputs.{Merging, merge_step, merge_loop}

module _ (previous : GenerationView) (names : PackageNameTable) (old_to_new : List ℕ)
    (changed_packages : List CompiledPackage) where
  stays :
      (fuel : ℕ) (s : Merging)
      → least s.shadow.front s.active.front s.changed.front ≡ none
      → merge_loop previous names old_to_new changed_packages fuel s ≡ ok s
  unfolding merge_loop
  stays zero s e = refl
  stays (suc fuel) s e = rw (e, merge_loop) refl

  -- A loop that has ended with all streams at their end has the same end on more fuel.
  pub merge_loop-more :
      (fuel more : ℕ) (s t : Merging)
      → fuel ≤ more
      → least t.shadow.front t.active.front t.changed.front ≡ none
      → merge_loop previous names old_to_new changed_packages fuel s ≡ ok t
      → merge_loop previous names old_to_new changed_packages more s ≡ ok t
  unfolding merge_loop
  merge_loop-more zero more s t le ended h =
      let same : s ≡ t = ok-injective h in rw same (stays more t ended)
  merge_loop-more (suc fuel) zero s t le ended h = absurd (omega arith)
  merge_loop-more (suc fuel) (suc more) s t le ended h =
      elim (Option-cases (least s.shadow.front s.active.front s.changed.front)) [
        | inl e ↦ let h' = rw (e, merge_loop) at h in rw (e, merge_loop) h'
        | inr (c, e) ↦
            let h' = rw (e, merge_loop) at h in
            let (next, rest, stepped) =
              bind_ok (merge_step previous names old_to_new changed_packages c s) h' in
            rw (e, merge_loop, stepped) (merge_loop-more fuel more next t (omega arith) ended rest)
      ]
