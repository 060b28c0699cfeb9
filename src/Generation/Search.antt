-- ===== src/Generation/Search.antt =====
-- `GenerationView::search` of src/generation.cpp.
pub mod Sorted
pub mod Truncate
pub mod Insert
pub mod Translate
pub mod Answer
use mathlib.Core.Option
use aurhub.Base.{
  ℕ, zero, suc, ◌+◌, Bool, true, false, not, List, [], ◌∷◌, Option, none, some, get_or, length, ltb,
  ◌==◌, if◌then◌else◌,
}
use aurhub.Base.Result.{Result, ok, err, ◌>>=◌}
use aurhub.Bytes.{Bytes, contains}
use aurhub.Search.Scan.{SearchStats, Scan, search_packages, search_packages_kept}
use aurhub.Snapshot.Format.{SnapshotView}
use aurhub.Generation.Format.{Overlay, GenerationView, no_generation_index, u32_max}
use aurhub.Generation.Ref.{Get, package_ref, package_name, package_search}
use aurhub.Generation.Find.{lower_bound, name_below}

-- the loop that puts the indices of the generation for those of the base
unfoldable pub to_generation : List ℕ → List ℕ → Get (List ℕ)
to_generation base_to_current [] = ok []
to_generation base_to_current (base_index ∷ results) =
    let current = get_or base_to_current base_index u32_max in
    let rest = to_generation base_to_current results in
    if current == u32_max then err no_generation_index else (rest >>= λ cs. ok (current ∷ cs))

-- `results.insert(position, value)`
unfoldable pub insert_at : ℕ → ℕ → List ℕ → List ℕ
insert_at zero value xs = value ∷ xs
insert_at (suc p) value [] = value ∷ []
insert_at (suc p) value (x ∷ xs) = x ∷ insert_at p value xs

-- `results.pop_back()`
unfoldable pub pop_back : List ℕ → List ℕ
pop_back [] = []
pop_back (x ∷ []) = []
pop_back (x ∷ y ∷ xs) = x ∷ pop_back (y ∷ xs)

-- the place of a package that the search text of a package of the overlay has brought
unfoldable pub insert_extra : SnapshotView → Overlay → ℕ → ℕ → Bytes → List ℕ → Get (List ℕ)
unfolding lower_bound insert_at pop_back package_name package_ref
insert_extra base o max_results current extra_name results =
    lower_bound (name_below base o extra_name) results >>= λ position.
    if ltb (length results) max_results
    then ok (insert_at position current results)
    else if not (position == length results)
    then (lower_bound (name_below base o extra_name) (pop_back results) >>= λ replacement.
        ok (insert_at replacement current (pop_back results)))
    else ok results

-- the body of the loop over `extra_active_`
unfoldable pub add_extra : SnapshotView → Overlay → Bytes → ℕ → ℕ → List ℕ → Get (List ℕ)
unfolding insert_extra package_search
add_extra base o query max_results current results =
    package_search base o (package_ref o current) >>= λ text.
    if not (contains text query)
    then ok results
    else (package_name base o (package_ref o current) >>= λ extra_name.
        insert_extra base o max_results current extra_name results)

unfoldable pub add_extras : SnapshotView → Overlay → Bytes → ℕ → List ℕ → List ℕ → Get (List ℕ)
unfolding add_extra
add_extras base o query max_results [] results = ok results
add_extras base o query max_results (current ∷ extra) results =
    add_extra base o query max_results current results >>= λ next.
    add_extras base o query max_results extra next

-- `with_stats` is `stats != nullptr`.
unfoldable pub search : GenerationView → Bytes → ℕ → Bool → Get Scan
unfolding to_generation add_extras
search view query max_results with_stats = elim view.overlay [
  | none ↦ ok (search_packages view.base query max_results with_stats)
  | some o ↦
      let scan =
        search_packages_kept view.base query max_results view.base_active_kept
          view.base_dirty_search_blocks with_stats in
      to_generation view.base_to_current scan.results >>= λ translated.
      add_extras view.base o query max_results view.extra_active translated >>= λ results.
      ok (record {
        results = results;
        stats =
            Option.map
              (λ (t : SearchStats). record t {
                packages_scanned = t.packages_scanned + length view.extra_active;
              })
              scan.stats;
      })
]
