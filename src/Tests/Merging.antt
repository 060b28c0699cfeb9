-- ===== src/Tests/Merging.antt =====
-- The snapshot of three packages, as the previous generation, is merged with a changed package.
use aurhub.Base.{
  ℕ, zero, suc, ◌<◌, ◌≡◌, refl, sym, ap, Bool, false, List, [], ◌∷◌, none, take, get_or, drop,
  replicate, arith,
}
use aurhub.Base.Result.{Result, ok, err, is_ok, is_ok-value}
use aurhub.Bytes.{bytes_eq, bytes_lt, find_byte}
use aurhub.Model.{pos, CompiledPackage}
use aurhub.Snapshot.Block.{empty_block}
use aurhub.Snapshot.Format.{SnapshotView, package_record}
use aurhub.Snapshot.Writer.{WriteError, write_snapshot}
use aurhub.Generation.Format.{GenerationPackageInput, GenerationView}
use aurhub.Generation.View
use aurhub.Generation.Writer.{input_names}
use aurhub.Merge.Names.{PackageNameTable, table_name, decode_package_names}
use aurhub.Merge.Names.Lines.{no_input, decode_package_names-input_names}
use aurhub.Merge.Inputs.{
  Merging, Merged, shadow_from, start, merge_loop, finish_merge, merge_generation_inputs,
}
use aurhub.Merge.Candidate.{Stream, stable_sort}
use aurhub.Merge.Inputs.Order.{IsRising}
use aurhub.Merge.Inputs.Order.Lists.{AreAscending, AreRising}
use aurhub.Merge.Inputs.Whole.{merge_generation_inputs-ends, merge_generation_inputs-AreAscending}
use aurhub.Srcinfo.Text.{codes}
use aurhub.Tests.Three.{stored, three_run, three_shape}

abbrev plain : SnapshotView → GenerationView
plain base = record {
  base = base;
  overlay = none;
  base_active_kept = [];
  base_dirty_search_blocks = [];
  base_to_current = [];
  extra_active = [];
}

abbrev lines : PackageNameTable
lines = record { storage = codes "abc\nabd\nxbc\n"; starts = 0 ∷ 4 ∷ 8 ∷ 12 ∷ [] }

abbrev changed : List CompiledPackage
changed =
    record {
      name = codes "abd";
      search = codes "abd";
      json = codes "{}";
      branch_index = 1;
      updated_at = pos 9;
    }
    ∷ []

abbrev branches : List ℕ
branches = 0 ∷ []

abbrev merged_over : Result WriteError SnapshotView → Bool
merged_over (ok base) = is_ok (merge_generation_inputs (plain base) lines branches changed)
merged_over (err e) = false

merged_run :
    (merged : Merged) × (merge_generation_inputs (plain three_run.0) lines branches changed
      ≡ ok merged)
unfolding write_snapshot empty_block merge_generation_inputs bytes_eq bytes_lt take get_or drop
    replicate package_record
merged_run =
    is_ok-value (merge_generation_inputs (plain three_run.0) lines branches changed)
      (ap merged_over (sym three_run.1))

abbrev shadows_of : Result WriteError SnapshotView → ℕ
shadows_of (ok base) = base.header.shadow_package_count
shadows_of (err e) = 0

no_shadows : three_run.0.header.shadow_package_count ≡ 0
unfolding write_snapshot empty_block
no_shadows = ap shadows_of (sym three_run.1)

shadows_named :
    (i : ℕ)
    → i < three_run.0.header.shadow_package_count
    → View.shadow_name (plain three_run.0) i ≡ ok []
shadows_named i l = absurd (omega (arith, no_shadows))

shadows-IsRising : IsRising (λ i. []) three_run.0.header.shadow_package_count
shadows-IsRising i j l u = absurd (omega (arith, no_shadows))

three_count : three_run.0.header.package_count ≡ 3
three_count = ap (λ t. t.1) three_shape

lines-IsRising : IsRising (table_name lines) three_run.0.header.package_count
unfolding table_name bytes_lt take get_or drop
lines-IsRising i zero l u = absurd (omega arith)
lines-IsRising zero (suc zero) l u = refl
lines-IsRising (suc i) (suc zero) l u = absurd (omega arith)
lines-IsRising zero (suc (suc zero)) l u = refl
lines-IsRising (suc zero) (suc (suc zero)) l u = refl
lines-IsRising (suc (suc i)) (suc (suc zero)) l u = absurd (omega arith)
lines-IsRising i (suc (suc (suc j))) l u = absurd (omega (arith, three_count))

merge_generation_inputs-AreAscending_example :
    AreAscending merged_run.0.packages × AreRising merged_run.0.shadow_packages
unfolding View.package_count View.shadow_package_count
merge_generation_inputs-AreAscending_example =
    merge_generation_inputs-AreAscending (plain three_run.0) lines branches changed (λ i. [])
      shadows_named shadows-IsRising lines-IsRising merged_run.0 merged_run.1

abbrev three_inputs : List GenerationPackageInput
three_inputs =
    record no_input { name = codes "abc" }
    ∷ record no_input { name = codes "abd" }
    ∷ record no_input { name = codes "xbc" }
    ∷ []

decode_package_names-input_names_example :
    (table : PackageNameTable) × (decode_package_names stored (codes "abc\nabd\nxbc\n") 3
      ≡ ok table)
    × ((index : ℕ) → index < 3 → table_name table index ≡ (get_or three_inputs index no_input).name)
unfolding input_names find_byte
decode_package_names-input_names_example =
    decode_package_names-input_names stored (codes "abc\nabd\nxbc\n") three_inputs refl
      (refl, (refl, (refl, tt))) (omega arith)

merge_generation_inputs-ends_example :
    (shadow : Stream) × (last : Merging) × (shadow_from
        (plain three_run.0)
        lines
        branches
        (stable_sort changed)
        0
      ≡ ok shadow)
    × (merge_loop
          (plain three_run.0)
          lines
          branches
          (stable_sort changed)
          20
          (start (plain three_run.0) lines branches (stable_sort changed) shadow)
        ≡ ok last)
    × (finish_merge last ≡ merged_run.0)
    × (last.shadow.front ≡ none)
    × (last.active.front ≡ none)
    × (last.changed.front ≡ none)
unfolding View.package_count View.shadow_package_count stable_sort
merge_generation_inputs-ends_example =
    merge_generation_inputs-ends (plain three_run.0) lines branches changed (λ i. []) shadows_named
      shadows-IsRising lines-IsRising merged_run.0 20 merged_run.1
      (omega (arith, no_shadows, three_count))
