-- ===== src/Search/Exact/Answer.antt =====
-- The answers of `search_packages` and `search_packages_kept`.
use native.Mathlib.Nat.{zero-mul, sub-zero}
use aurhub.Base.{
  ℕ, ◌+◌, ◌*◌, ◌≤◌, ◌≡◌, ◌≢◌, refl, ap, ◌∙◌, Bool, false, List, [], ◌∷◌, take, arith, ◌==◌,
  if◌then◌else◌, Bool-cases, inl, inr, some, none, ==_iff,
}
use aurhub.Bytes.{Bytes, contains, is_empty}
use aurhub.Snapshot.Format.{SnapshotView, search_text}
use aurhub.Search.Exact.{IsIndexed, AreFlags, keeps, fits}
use aurhub.Search.Exact.Blocks.{edge, scan_blocks-Adds}
use aurhub.Search.Exact.Supers.{scan_super_blocks-Adds}
use aurhub.Search.Hits.{hits, hits_congr}
use aurhub.Search.Scan.{
  Scan, zero_stats, scan_blocks, scan_super_blocks, is_dirty, wrong_size, search_packages,
  search_packages_kept,
}

abbrev clear : Bool → Scan
clear with_stats = record { results = []; stats = if with_stats then some zero_stats else none }

edge-zero : (size total : ℕ) → edge size total 0 ≡ 0
edge-zero size total = omega (arith, zero-mul size)

edge_last : (size total count : ℕ) → total ≤ count * size → edge size total (0 + count) ≡ total
edge_last size total count h = let e : 0 + count ≡ count = omega arith in rw e (omega arith)

is_empty-false : (query : Bytes) → query ≢ [] → is_empty query ≡ false
unfolding is_empty
is_empty-false [] ne = absurd (ne refl)
is_empty-false (x ∷ xs) ne = refl

module _ (view : SnapshotView) (query : Bytes) (limit : ℕ) (kept dirty_blocks : List ℕ)
    (with_stats : Bool) (indexed : IsIndexed view) (flags : AreFlags view kept dirty_blocks)
    (asks : query ≢ []) where
  abbrev total : ℕ
  total = view.header.package_count

  by_blocks :
      (scan_blocks view query limit kept dirty_blocks 0 view.header.search_block_count
        (clear with_stats)).results
      ≡ take limit (hits (fits view query kept) 0 total)
  by_blocks =
      let size = view.header.search_block_packages in
      let count = view.header.search_block_count in
      let enough : total ≤ count * size = rw indexed.fine_count indexed.fine.enough in
      let run =
        scan_blocks-Adds view query limit kept dirty_blocks indexed flags asks count 0
          (clear with_stats) (omega (arith, indexed.fine_count)) (omega arith) in
      rw (edge-zero size total, edge_last size total count enough, sub-zero) at run

  by_super_blocks :
      view.header.search_super_block_count ≢ 0
      → (scan_super_blocks view query limit kept dirty_blocks 0 view.header.search_super_block_count
          (clear with_stats)).results
        ≡ take limit (hits (fits view query kept) 0 total)
  by_super_blocks some_super =
      let size = view.header.search_super_block_packages in
      let count = view.header.search_super_block_count in
      let enough : total ≤ count * size =
        rw indexed.coarse_count (indexed.coarse some_super).enough in
      let (m, multiple) = indexed.multiple some_super in
      let run =
        scan_super_blocks-Adds view query limit kept dirty_blocks indexed flags asks m count 0
          (clear with_stats) multiple some_super (omega (arith, indexed.coarse_count))
          (omega arith) in
      rw (edge-zero size total, edge_last size total count enough, sub-zero) at run

  -- On an indexed snapshot, for a query that is not empty and flags of the right sizes that agree
  -- with each other, `search_packages_kept` returns the first `limit` indices, in ascending order,
  -- of the packages that are kept and whose search text contains the query.
  pub search_packages_kept-exact :
      wrong_size kept total ≡ false
      → wrong_size dirty_blocks view.header.search_block_count ≡ false
      → (search_packages_kept view query limit kept dirty_blocks with_stats).results
        ≡ take limit (hits (fits view query kept) 0 total)
  unfolding search_packages_kept
  search_packages_kept-exact kept_size dirty_size =
      let full = is_empty-false query asks in
      elim (Bool-cases (limit == 0)) [
        | inl z ↦ rw (full, z, (==_iff limit 0).0 z) (unfold take in refl)
        | inr nz ↦ elim (Bool-cases (view.header.search_super_block_count == 0)) [
          | inl e ↦ rw (full, nz, kept_size, dirty_size, e) by_blocks
          | inr e ↦ rw (full, nz, kept_size, dirty_size, e) (by_super_blocks (ground arith))
        ]
      ]

-- with no flags everything is kept
no_flags : (view : SnapshotView) → AreFlags view [] []
unfolding keeps is_dirty
no_flags view = record { clean = λ k p l u b e. refl; given = λ k e. cc }

fits-no_flags :
    (view : SnapshotView) (query : Bytes) (p : ℕ)
    → fits view query [] p ≡ contains (search_text view p) query
unfolding fits keeps
fits-no_flags view query p = refl

-- On an indexed snapshot, for a query that is not empty, `search_packages` returns the first `limit`
-- indices, in ascending order, of the packages whose search text contains the query, with or
-- without statistics.
pub search_packages-exact :
    (view : SnapshotView) (query : Bytes) (limit : ℕ) (with_stats : Bool)
    → IsIndexed view
    → query ≢ []
    → (search_packages view query limit with_stats).results
      ≡ take limit (hits (λ p. contains (search_text view p) query) 0 view.header.package_count)
unfolding search_packages
search_packages-exact view query limit with_stats indexed asks =
    search_packages_kept-exact view query limit [] [] with_stats indexed (no_flags view) asks
      (unfold wrong_size in refl) (unfold wrong_size in refl)
    ∙ ap (take limit) (
        hits_congr (fits view query []) (λ p. contains (search_text view p) query) 0
          view.header.package_count (λ p l u. fits-no_flags view query p))
