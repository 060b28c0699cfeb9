-- ===== src/Search/Exact/Blocks.antt =====
-- `scan_blocks` of src/search.cpp against a scan of all search texts.
use native.Mathlib.Nat.{mul-le-mul_right, add-zero}
use aurhub.Base.{
  ℕ, zero, suc, ◌+◌, ◌-◌, ◌*◌, ◌≤◌, ◌<◌, min, ◌≡◌, ◌≢◌, refl, sym, ap, ◌∙◌, Bool, true, false, not,
  ◌&&◌, List, [], ◌∷◌, ◌++◌, length, take, get_or, arith, ltb, ◌==◌, if◌then◌else◌, Bool-cases, inl,
  inr,
}
use aurhub.Bytes.{Bytes, contains}
use aurhub.Snapshot.Format.{SnapshotView, search_text, search_block}
use aurhub.Snapshot.Block.{SearchBlock}
use aurhub.Search.Exact.{IsIndexed, AreFlags, keeps, fits, range_fits, scan_range-Adds}
use aurhub.Search.Hits.{
  hits, range_hits, hits_congr, hits-none, range_hits-split, Adds, Adds-nothing, Adds-full,
  Adds-trans, Adds-bounded,
}
use aurhub.Search.Query.{bitmap_contains}
use aurhub.Search.Query.Sound.{Covers}
use aurhub.Search.Query.Complete.{bitmap_contains_complete}
use aurhub.Search.Scan.{
  Scan, count_block, count_scan, scan_range, is_dirty, scan_block, scan_blocks,
}

-- the first package behind `k` blocks of `size`, among `total`
abbrev pub edge : ℕ → ℕ → ℕ → ℕ
edge size total k = min (k * size) total

module _ (view : SnapshotView) (query : Bytes) (limit : ℕ) (kept dirty_blocks : List ℕ)
    (indexed : IsIndexed view) (flags : AreFlags view kept dirty_blocks) (asks : query ≢ []) where
  abbrev size : ℕ
  size = view.header.search_block_packages

  abbrev total : ℕ
  total = view.header.package_count

  -- a block that a bitmap rules out has no hit
  pub ruled_out :
      (block : SearchBlock) (first end : ℕ)
      → ((p : ℕ) → first ≤ p → p < end → Covers block (search_text view p))
      → first ≤ end
      → bitmap_contains block query ≡ false
      → range_hits (fits view query kept) first end ≡ []
  unfolding fits
  ruled_out block first end covers le misses =
      hits-none (fits view query kept) first (end - first) (λ p l u.
        let found =
          bitmap_contains_complete block (search_text view p) query asks
            (covers p l (omega arith)) in
        ground (arith, found))

  -- the test of the range scan is the specification's, clean blocks included
  range_fits-fits :
      (k p : ℕ)
      → k * size ≤ p
      → p < k * size + size
      → p < total
      → (dirty : Bool) → is_dirty dirty_blocks k ≡ dirty
      → range_fits view query dirty (if dirty then kept else []) p ≡ fits view query kept p
  unfolding range_fits fits
  range_fits-fits k p l u b false e = rw (flags.clean k p l u b e)
  range_fits-fits k p l u b true e = dirty_case kept (flags.given k e)
    where
      dirty_case :
          (ks : List ℕ)
          → ks ≢ []
          → (not (get_or ks p 0 == 0) && contains (search_text view p) query)
            ≡ (keeps ks p && contains (search_text view p) query)
      dirty_case [] ne = absurd (ne refl)
      dirty_case (x ∷ xs) ne = unfold keeps in refl

  -- the packages of block `k`
  block_hits :
      (k : ℕ) (dirty : Bool)
      → is_dirty dirty_blocks k ≡ dirty
      → k * size ≤ total
      → hits
          (range_fits view query dirty (if dirty then kept else []))
          (k * size)
          (min size (total - k * size))
        ≡ range_hits (fits view query kept) (edge size total k) (edge size total (suc k))
  block_hits k dirty e below =
      let count : edge size total (suc k) - edge size total k ≡ min size (total - k * size) =
        omega arith in
      let first : edge size total k ≡ k * size = omega arith in
      rw (count, first)
        (hits_congr _ _ (k * size) (min size (total - k * size))
          (λ p l u. range_fits-fits k p l (omega arith) (omega arith) dirty e))

  fine_below : (k : ℕ) → k < length view.search_blocks → k * size ≤ total
  fine_below k inside = omega (arith, indexed.fine.tight, mul-le-mul_right size inside)

  -- the range scan of block `k`
  block_scan-Adds :
      (k : ℕ) (dirty : Bool) (s : Scan)
      → is_dirty dirty_blocks k ≡ dirty
      → k * size ≤ total
      → length s.results ≤ limit
      → Adds limit
          (range_hits (fits view query kept) (edge size total k) (edge size total (suc k)))
          s.results
          (scan_range view query limit dirty
            (if dirty then kept else [])
            (k * size)
            (min size (total - k * size))
            s).results
  block_scan-Adds k dirty s d below h =
      let ks : List ℕ = if dirty then kept else [] in
      let left : ℕ = min size (total - k * size) in
      scan_range-Adds view query limit dirty ks left (k * size) s h
      ∙ ap (λ x. take limit (s.results ++ x)) (block_hits k dirty d below)

  -- `scan_block` finds the packages of its block that fit.
  scan_block-Adds :
      (k : ℕ) (s : Scan)
      → k < length view.search_blocks
      → length s.results ≤ limit
      → Adds limit
          (range_hits (fits view query kept) (edge size total k) (edge size total (suc k)))
          s.results
          (scan_block view query limit kept dirty_blocks k s).results
  unfolding scan_block search_block
  scan_block-Adds k s inside h =
      let block = search_block view k in
      let summary = indexed.fine.parts.summary k inside in
      let below = fine_below k inside in
      let counted : Scan = count_scan (count_block s) in
      elim (Bool-cases (bitmap_contains block query)) [
        | inr misses ↦
            let none =
              ruled_out block (edge size total k) (edge size total (suc k))
                (λ p l u. summary.covers p (omega arith) (omega arith)) (omega arith) misses in
            rw misses
              (Adds-nothing limit s.results h ∙ ap (λ x. take limit (s.results ++ x)) (sym none))
        | inl hit ↦ elim (Bool-cases (is_dirty dirty_blocks k)) [
          | inl d ↦ rw (hit, d) (block_scan-Adds k true counted d below h)
          | inr d ↦ rw (hit, d) (block_scan-Adds k false counted d below h)
        ]
      ]

  -- `scan_blocks` finds the packages of its blocks that fit.
  pub scan_blocks-Adds :
      (left k : ℕ) (s : Scan)
      → k + left ≤ length view.search_blocks
      → length s.results ≤ limit
      → Adds limit
          (range_hits (fits view query kept) (edge size total k) (edge size total (k + left)))
          s.results
          (scan_blocks view query limit kept dirty_blocks k left s).results
  unfolding scan_blocks
  scan_blocks-Adds zero k s inside h =
      let same : edge size total (k + 0) - edge size total k ≡ 0 =
        omega (arith, ap (edge size total) (add-zero k)) in
      rw same (unfold hits in Adds-nothing limit s.results h)
  scan_blocks-Adds (suc left) k s inside h =
      let step = scan_block view query limit kept dirty_blocks k s in
      let end = edge size total (suc k + left) in
      let here = range_hits (fits view query kept) (edge size total k) (edge size total (suc k)) in
      let later = range_hits (fits view query kept) (edge size total (suc k)) end in
      let e : k + suc left ≡ suc k + left = omega arith in
      let order : suc k * size ≤ (suc k + left) * size = mul-le-mul_right size (omega arith) in
      elim (Bool-cases (ltb (length s.results) limit)) [
        | inr full ↦ rw full (Adds-full limit _ s.results (ground arith))
        | inl room ↦
            let first = scan_block-Adds k s (omega arith) h in
            let bound = Adds-bounded limit here s.results step.results first in
            rw (room, e)
              (Adds-trans limit here later s.results step.results _ first
                  (scan_blocks-Adds left (suc k) step (omega arith) bound)
                ∙ ap (λ x. take limit (s.results ++ x))
                    (sym (
                      range_hits-split (fits view query kept) (edge size total k)
                        (edge size total (suc k)) end (omega arith) (omega arith))))
      ]
