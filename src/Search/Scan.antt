-- ===== src/Search/Scan.antt =====
-- `scan_range`, `scan_blocks`, `search_packages` and `search_packages_kept` of src/search.cpp.
-- The results and the statistics that the functions change are one state. The pointer to the
-- statistics may be null: then they are `none`. An empty span is `[]`.
use aurhub.Base.{
  ℕ, zero, suc, ◌+◌, ◌-◌, ◌*◌, ◌/◌, min, Bool, true, false, not, ◌&&◌, ◌||◌, List, [], ◌∷◌, ◌++◌,
  Option, none, some, length, get_or, ltb, ◌==◌, if◌then◌else◌,
}
use mathlib.Core.Option
use aurhub.Bytes.{Bytes, is_empty, contains}
use aurhub.Snapshot.Format.{SnapshotView, search_text, search_block, search_super_block}
use aurhub.Search.Query.{bitmap_contains}

pub record SearchStats : Type 0 where
  pub super_blocks_checked : ℕ
  pub super_blocks_scanned : ℕ
  pub blocks_checked : ℕ
  pub blocks_scanned : ℕ
  pub packages_scanned : ℕ

-- `SearchStats{}`
abbrev pub zero_stats : SearchStats
zero_stats = record {
  super_blocks_checked = 0;
  super_blocks_scanned = 0;
  blocks_checked = 0;
  blocks_scanned = 0;
  packages_scanned = 0;
}

pub record Scan : Type 0 where
  pub results : List ℕ
  pub stats : Option SearchStats

-- `if (stats != nullptr) { ++stats->... }`
abbrev pub count : (SearchStats → SearchStats) → Scan → Scan
count bump s = record s { stats = Option.map bump s.stats }

abbrev pub count_super_block : Scan → Scan
count_super_block = count (λ t. record t { super_blocks_checked = t.super_blocks_checked + 1 })

abbrev pub count_super_scan : Scan → Scan
count_super_scan = count (λ t. record t { super_blocks_scanned = t.super_blocks_scanned + 1 })

abbrev pub count_block : Scan → Scan
count_block = count (λ t. record t { blocks_checked = t.blocks_checked + 1 })

abbrev pub count_scan : Scan → Scan
count_scan = count (λ t. record t { blocks_scanned = t.blocks_scanned + 1 })

abbrev pub count_package : Scan → Scan
count_package = count (λ t. record t { packages_scanned = t.packages_scanned + 1 })

-- the body of the loop of `scan_range`
unfoldable pub scan_package : SnapshotView → Bytes → Bool → List ℕ → ℕ → Scan → Scan
scan_package snapshot query filter_kept kept index s =
    let counted = count_package s in
    if filter_kept && get_or kept index 0 == 0
    then counted
    else if contains (search_text snapshot index) query
    then record counted { results = s.results ++ index ∷ [] }
    else counted

-- `count` packages from `index` on, until the results are full
unfoldable pub scan_range : SnapshotView → Bytes → ℕ → Bool → List ℕ → ℕ → ℕ → Scan → Scan
unfolding scan_package
scan_range snapshot query max_results filter_kept kept index zero s = s
scan_range snapshot query max_results filter_kept kept index (suc left) s =
    let rest =
      scan_range snapshot query max_results filter_kept kept (suc index) left
        (scan_package snapshot query filter_kept kept index s) in
    if ltb (length s.results) max_results then rest else s

-- `!dirty_blocks.empty() && dirty_blocks[block_index] != 0`
unfoldable pub is_dirty : List ℕ → ℕ → Bool
is_dirty [] block_index = false
is_dirty (d ∷ ds) block_index = not (get_or (d ∷ ds) block_index 0 == 0)

-- the body of the loop of `scan_blocks`
unfoldable pub scan_block : SnapshotView → Bytes → ℕ → List ℕ → List ℕ → ℕ → Scan → Scan
unfolding scan_range is_dirty
scan_block snapshot query max_results kept dirty_blocks block_index s =
    let checked = count_block s in
    let first_package = block_index * snapshot.header.search_block_packages in
    let package_count =
      min snapshot.header.search_block_packages (snapshot.header.package_count - first_package) in
    if not (bitmap_contains (search_block snapshot block_index) query)
    then checked
    else if is_dirty dirty_blocks block_index
    then scan_range snapshot query max_results true kept first_package package_count
        (count_scan checked)
    else scan_range snapshot query max_results false [] first_package package_count
        (count_scan checked)

-- `count` blocks from `block_index` on, until the results are full
unfoldable pub scan_blocks : SnapshotView → Bytes → ℕ → List ℕ → List ℕ → ℕ → ℕ → Scan → Scan
unfolding scan_block
scan_blocks snapshot query max_results kept dirty_blocks block_index zero s = s
scan_blocks snapshot query max_results kept dirty_blocks block_index (suc left) s =
    let rest =
      scan_blocks snapshot query max_results kept dirty_blocks (suc block_index) left
        (scan_block snapshot query max_results kept dirty_blocks block_index s) in
    if ltb (length s.results) max_results then rest else s

-- the body of the loop over the super blocks
unfoldable pub scan_super_block : SnapshotView → Bytes → ℕ → List ℕ → List ℕ → ℕ → Scan → Scan
unfolding scan_blocks
scan_super_block snapshot query max_results kept dirty_blocks super_index s =
    let fine = snapshot.header.search_block_packages in
    let super_first = super_index * snapshot.header.search_super_block_packages in
    let super_end =
      min snapshot.header.package_count
        (super_first + snapshot.header.search_super_block_packages) in
    let fine_begin = super_first / fine in
    let fine_end = min snapshot.header.search_block_count ((super_end + fine - 1) / fine) in
    let checked = count_super_block s in
    if not (bitmap_contains (search_super_block snapshot super_index) query)
    then checked
    else scan_blocks snapshot query max_results kept dirty_blocks fine_begin (fine_end - fine_begin)
        (count_super_scan checked)

unfoldable pub scan_super_blocks : SnapshotView → Bytes → ℕ → List ℕ → List ℕ → ℕ → ℕ → Scan → Scan
unfolding scan_super_block
scan_super_blocks snapshot query max_results kept dirty_blocks super_index zero s = s
scan_super_blocks snapshot query max_results kept dirty_blocks super_index (suc left) s =
    let rest =
      scan_super_blocks snapshot query max_results kept dirty_blocks (suc super_index) left
        (scan_super_block snapshot query max_results kept dirty_blocks super_index s) in
    if ltb (length s.results) max_results then rest else s

-- `!span.empty() && span.size() != size`
unfoldable pub wrong_size : List ℕ → ℕ → Bool
wrong_size [] size = false
wrong_size (x ∷ xs) size = not (length (x ∷ xs) == size)

-- `with_stats` is `stats != nullptr`.
unfoldable pub search_packages_kept : SnapshotView → Bytes → ℕ → List ℕ → List ℕ → Bool → Scan
unfolding scan_blocks scan_super_blocks wrong_size is_empty
search_packages_kept snapshot query max_results kept dirty_blocks with_stats =
    let h = snapshot.header in
    let clear : Scan = record {
      results = [];
      stats = if with_stats then some zero_stats else none;
    } in
    if is_empty query || max_results == 0
    then clear
    else if wrong_size kept h.package_count
    then clear
    else if wrong_size dirty_blocks h.search_block_count
    then clear
    else if h.search_super_block_count == 0
    then scan_blocks snapshot query max_results kept dirty_blocks 0 h.search_block_count clear
    else scan_super_blocks snapshot query max_results kept dirty_blocks 0 h.search_super_block_count
        clear

unfoldable pub search_packages : SnapshotView → Bytes → ℕ → Bool → Scan
unfolding search_packages_kept
search_packages snapshot query max_results = search_packages_kept snapshot query max_results [] []
