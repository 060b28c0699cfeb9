-- ===== src/Search/Exact.antt =====
-- The loops of src/search.cpp against a scan of all search texts: what an index and what flags are,
-- and `scan_range`.
pub mod Blocks
pub mod Supers
pub mod Answer
pub mod Written
use aurhub.Base.{
  ℕ, zero, suc, ◌+◌, ◌-◌, ◌*◌, ◌≤◌, ◌<◌, min, ◌≡◌, ◌≢◌, refl, sym, ap, Bool, true, false, not, ◌&&◌,
  List, [], ◌∷◌, ◌++◌, length, take, length-append, take_all, get_or, arith, ltb, ◌==◌,
  if◌then◌else◌, Bool-cases, inl, inr,
}
use aurhub.Bytes.{Bytes, contains}
use aurhub.Snapshot.Format.{SnapshotView, search_text, search_block, search_super_block}
use aurhub.Snapshot.Builder.Loop.{Covered}
use aurhub.Search.Hits.{hits, hits_congr, Adds, Adds-nothing, Adds-full, Adds-trans, Adds-bounded}
use aurhub.Search.Scan.{Scan, scan_package, scan_range, is_dirty}

-- The header and the blocks of a snapshot fit together, as the writer leaves them.
pub record IsIndexed (view : SnapshotView) : Type 0 where
  pub block_pos : 0 < view.header.search_block_packages
  pub fine :
      Covered
        (search_text view)
        view.header.search_block_packages
        view.header.package_count
        view.search_blocks
  pub fine_count : view.header.search_block_count ≡ length view.search_blocks
  pub coarse :
      view.header.search_super_block_count ≢ 0
      → Covered
          (search_text view)
          view.header.search_super_block_packages
          view.header.package_count
          view.search_super_blocks
  pub coarse_count : view.header.search_super_block_count ≡ length view.search_super_blocks
  pub multiple :
      view.header.search_super_block_count ≢ 0
      → (m : ℕ) × (view.header.search_super_block_packages ≡ m * view.header.search_block_packages)

-- `kept[index] != 0`, where an empty span keeps all
unfoldable pub keeps : List ℕ → ℕ → Bool
keeps [] index = true
keeps (x ∷ xs) index = not (get_or (x ∷ xs) index 0 == 0)

-- A block that drops a package is dirty, and there are no dirty blocks where all is kept.
pub record AreFlags (view : SnapshotView) (kept dirty_blocks : List ℕ) : Type 0 where
  pub clean :
      (k p : ℕ)
      → k * view.header.search_block_packages ≤ p
      → p < k * view.header.search_block_packages + view.header.search_block_packages
      → p < view.header.package_count
      → is_dirty dirty_blocks k ≡ false
      → keeps kept p ≡ true
  pub given : (k : ℕ) → is_dirty dirty_blocks k ≡ true → kept ≢ []

-- the package is kept, and its search text contains the query
unfoldable pub fits : SnapshotView → Bytes → List ℕ → ℕ → Bool
fits view query kept index = keeps kept index && contains (search_text view index) query

-- the test of `scan_range`
unfoldable pub range_fits : SnapshotView → Bytes → Bool → List ℕ → ℕ → Bool
range_fits view query filter_kept kept index =
    not (filter_kept && get_or kept index 0 == 0) && contains (search_text view index) query

module _ (view : SnapshotView) (query : Bytes) (limit : ℕ) (filter_kept : Bool)
    (kept : List ℕ) where
  scan_package-Adds :
      (index : ℕ) (s : Scan)
      → length s.results < limit
      → Adds limit
          (if range_fits view query filter_kept kept index then index ∷ [] else [])
          s.results
          (scan_package view query filter_kept kept index s).results
  unfolding scan_package range_fits
  scan_package-Adds index s h =
      let one =
        take_all limit (s.results ++ index ∷ [])
          (omega (arith, length-append s.results (index ∷ []))) in
      let none = Adds-nothing limit s.results (omega arith) in
      elim (Bool-cases (filter_kept && get_or kept index 0 == 0)) [
        | inl e ↦ rw e none
        | inr e ↦ elim (Bool-cases (contains (search_text view index) query)) [
          | inl c ↦ rw (e, c) (sym one)
          | inr c ↦ rw (e, c) none
        ]
      ]

  -- the first hit of a range, and the others
  hits-first :
      (index left : ℕ)
      → hits (range_fits view query filter_kept kept) index (suc left)
        ≡ (if range_fits view query filter_kept kept index then index ∷ [] else [])
          ++ hits (range_fits view query filter_kept kept) (suc index) left
  unfolding hits
  hits-first index left = elim (Bool-cases (range_fits view query filter_kept kept index)) [
    | inl y ↦ rw y
    | inr n ↦ rw n
  ]

  -- `scan_range` finds the packages of its range that fit.
  pub scan_range-Adds :
      (left index : ℕ) (s : Scan)
      → length s.results ≤ limit
      → Adds limit
          (hits (range_fits view query filter_kept kept) index left)
          s.results
          (scan_range view query limit filter_kept kept index left s).results
  unfolding scan_range
  scan_range-Adds zero index s h = unfold hits in Adds-nothing limit s.results h
  scan_range-Adds (suc left) index s h =
      let step = scan_package view query filter_kept kept index s in
      let found : List ℕ =
        if range_fits view query filter_kept kept index then index ∷ [] else [] in
      let later = hits (range_fits view query filter_kept kept) (suc index) left in
      elim (Bool-cases (ltb (length s.results) limit)) [
        | inr full ↦ rw full (Adds-full limit _ s.results (ground arith))
        | inl room ↦
            let first : Adds limit found s.results step.results =
              scan_package-Adds index s (ground arith) in
            let bound = Adds-bounded limit found s.results step.results first in
            rw (room, hits-first index left)
              (Adds-trans limit found later s.results step.results _ first
                (scan_range-Adds left (suc index) step bound))
      ]
