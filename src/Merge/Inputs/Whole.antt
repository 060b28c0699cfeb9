-- ===== src/Merge/Inputs/Whole.antt =====
-- What `merge_generation_inputs` of src/merge.cpp returns.
use aurhub.Base.{ℕ, suc, ◌+◌, ◌-◌, ◌<◌, ◌≡◌, refl, subst, List, none, length, arith}
use aurhub.Base.Result.{ok, bind_ok, ok-injective}
use aurhub.Bytes.{Bytes}
use aurhub.Model.{CompiledPackage}
use aurhub.Generation.Format.{GenerationView}
use aurhub.Generation.View
use aurhub.Merge.Names.{PackageNameTable, table_name}
use aurhub.Merge.Candidate.{Stream, least, stable_sort}
use aurhub.Merge.Inputs.{
  Merging, Merged, shadow_from, active_from, start, merge_loop, finish_merge,
  merge_generation_inputs,
}
use aurhub.Merge.Inputs.Fuel.{merge_loop-more}
use aurhub.Merge.Inputs.Least.{least-none}
use aurhub.Merge.Inputs.Order.{IsRising}
use aurhub.Merge.Inputs.Order.Lists.{AreAscending, AreRising}
use aurhub.Merge.Inputs.Sorted.{Sorted, merge_loop-Sorted, finish_merge-AreAscending}
use aurhub.Merge.Inputs.Stable.{stable_sort-IsRising}
use aurhub.Merge.Inputs.Streams.{next_shadow-At, next_active-At, next_changed-At}

module _ (previous : GenerationView) (names : PackageNameTable) (old_to_new : List ℕ)
    (changed_packages : List CompiledPackage) (shadow_name : ℕ → Bytes)
    (shadows_named : (i : ℕ)
      → i < View.shadow_package_count previous
      → View.shadow_name previous i ≡ ok (shadow_name i))
    (shadows_rise : IsRising shadow_name (View.shadow_package_count previous))
    (actives_rise : IsRising (table_name names) (View.package_count previous)) where
  abbrev sorted : List CompiledPackage
  sorted = stable_sort changed_packages

  abbrev Holds : Merging → Type 0
  Holds =
      Sorted previous names old_to_new sorted shadow_name shadows_named shadows_rise actives_rise
        (stable_sort-IsRising changed_packages)

  abbrev fuel : ℕ
  fuel = View.shadow_package_count previous + View.package_count previous + length sorted

  start-Holds :
      (shadow : Stream)
      → shadow_from previous names old_to_new sorted 0 ≡ ok shadow
      → Holds (start previous names old_to_new sorted shadow)
  unfolding shadow_from active_from
  start-Holds shadow first = record {
    streams = record {
      shadow_at =
          next_shadow-At previous old_to_new shadow_name shadows_named
            (View.shadow_package_count previous - 0) 0 shadow (omega arith) first;
      active_at =
          next_active-At previous old_to_new names (View.package_count previous - 0) 0
            (omega arith);
      changed_at = next_changed-At sorted 0 (omega arith);
    };
    led = (refl, refl);
    follow = tt;
  }

  -- the state behind the loop
  merge_generation_inputs-Holds :
      (merged : Merged)
      → merge_generation_inputs previous names old_to_new changed_packages ≡ ok merged
      → (shadow : Stream) × (last : Merging) × (shadow_from previous names old_to_new sorted 0
          ≡ ok shadow)
        × (merge_loop previous names old_to_new sorted
              (suc fuel)
              (start previous names old_to_new sorted shadow)
            ≡ ok last)
        × (finish_merge last ≡ merged)
        × Holds last
        × (least last.shadow.front last.active.front last.changed.front ≡ none)
  unfolding merge_generation_inputs shadow_from active_from
  merge_generation_inputs-Holds merged h =
      let (shadow, h1, first) = bind_ok (shadow_from previous names old_to_new sorted 0) h in
      let (last, h2, looped) =
        bind_ok
          (merge_loop previous names old_to_new sorted (suc fuel)
            (start previous names old_to_new sorted shadow))
          h1 in
      let (holds, ends) =
        merge_loop-Sorted previous names old_to_new sorted shadow_name shadows_named shadows_rise
          actives_rise (stable_sort-IsRising changed_packages) (suc fuel)
          (start previous names old_to_new sorted shadow) last (start-Holds shadow first) looped in
      (shadow, last, first, looped, ok-injective h2, holds, ends (omega arith))

  -- When the names of the previous generation's shadow packages can be read and rise, those of its
  -- active packages rise in the name table, and `merge_generation_inputs` returns, then its loop,
  -- from the streams' first candidates and on any fuel above the number of all packages, returns a
  -- state in which all three streams have ended, and what the function returns is left there.
  pub merge_generation_inputs-ends :
      (merged : Merged) (enough : ℕ)
      → merge_generation_inputs previous names old_to_new changed_packages ≡ ok merged
      → View.shadow_package_count previous
          + View.package_count previous
          + length (stable_sort changed_packages)
        < enough
      → (shadow : Stream) × (last : Merging) × (shadow_from previous names old_to_new
            (stable_sort changed_packages)
            0
          ≡ ok shadow)
        × (merge_loop previous names old_to_new
              (stable_sort changed_packages)
              enough
              (start previous names old_to_new (stable_sort changed_packages) shadow)
            ≡ ok last)
        × (finish_merge last ≡ merged)
        × (last.shadow.front ≡ none)
        × (last.active.front ≡ none)
        × (last.changed.front ≡ none)
  merge_generation_inputs-ends merged enough h more =
      let (shadow, last, first, looped, finished, _, ends) =
        merge_generation_inputs-Holds merged h in
      let (f, a, n) = least-none last.shadow.front last.active.front last.changed.front ends in
      (
        shadow,
        last,
        first,
        merge_loop-more previous names old_to_new sorted (suc fuel) enough
            (start previous names old_to_new sorted shadow) last (omega arith) ends looped,
        finished,
        f,
        a,
        n,
      )

  -- When the names of the previous generation's active packages, as the name table has them, and
  -- of its shadow packages rise, and `merge_generation_inputs` returns, then the names of the
  -- packages that it returns ascend strictly, so that each name has one winner, and the names of
  -- the shadow packages rise: the order that the overlay's reader tests.
  pub merge_generation_inputs-AreAscending :
      (merged : Merged)
      → merge_generation_inputs previous names old_to_new changed_packages ≡ ok merged
      → AreAscending merged.packages × AreRising merged.shadow_packages
  merge_generation_inputs-AreAscending merged h =
      let (_, last, _, _, finished, holds, _) = merge_generation_inputs-Holds merged h in
      subst (λ (m : Merged). AreAscending m.packages × AreRising m.shadow_packages) finished
        (finish_merge-AreAscending previous names old_to_new sorted shadow_name shadows_named
          shadows_rise actives_rise (stable_sort-IsRising changed_packages) last holds)
