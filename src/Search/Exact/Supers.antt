-- ===== src/Search/Exact/Supers.antt =====
-- The loop over the super blocks in src/search.cpp against a scan of all search texts.
use native.Mathlib.Nat.{
  mul-div_cancel, mul-le-mul_right, div-add-mod', mod-lt, le_of_mul-le-mul_right, mul_assoc,
  add-zero,
}
use aurhub.Base.{
  ℕ, zero, suc, ◌+◌, ◌-◌, ◌*◌, ◌/◌, ◌≤◌, ◌<◌, min, ◌≡◌, ◌≢◌, sym, ap, ◌∙◌, List, [], ◌++◌, length,
  take, arith, ltb, Bool-cases, inl, inr, dec_lt,
}
use aurhub.Bytes.{Bytes}
use aurhub.Snapshot.Format.{SnapshotView, search_super_block}
use aurhub.Snapshot.Builder.Count.{lt_of_mul-lt}
use aurhub.Search.Exact.{IsIndexed, AreFlags, fits}
use aurhub.Search.Exact.Blocks.{edge, ruled_out, scan_blocks-Adds}
use aurhub.Search.Hits.{
  hits, range_hits, range_hits-split, Adds, Adds-nothing, Adds-full, Adds-trans, Adds-bounded,
}
use aurhub.Search.Query.{bitmap_contains}
use aurhub.Search.Scan.{
  Scan, count_super_block, count_super_scan, scan_blocks, scan_super_block, scan_super_blocks,
}

-- The fine blocks `first ..< last` of a super block of `m` fine blocks end where it ends.
module _ (size m total blocks j : ℕ) (pos : 0 < size) (enough : total ≤ blocks * size)
    (starts : j * (m * size) ≤ total) where
  abbrev super_end : ℕ
  super_end = min total (j * (m * size) + m * size)

  abbrev reach : ℕ
  reach = (super_end + size - 1) / size

  abbrev fine_end : ℕ
  fine_end = min blocks reach

  reach_bounds : (super_end ≤ reach * size) × (reach * size < super_end + size)
  reach_bounds =
      let y : ℕ = super_end + size - 1 in omega (arith, div-add-mod' y size, mod-lt y pos)

  fine_begin_is : j * (m * size) / size ≡ j * m
  fine_begin_is = rw (← mul_assoc j m size) (mul-div_cancel (j * m) pos)

  fine_begin-le : j * m ≤ fine_end
  fine_begin-le =
      let regroup = mul_assoc j m size in
      let first : j * m ≤ blocks = le_of_mul-le-mul_right {k = size} (omega arith) pos in
      let second : j * m ≤ reach =
        le_of_mul-le-mul_right {k = size} (omega (arith, reach_bounds)) pos in
      omega arith

  edge_begin : edge size total (j * m) ≡ edge (m * size) total j
  edge_begin = omega (arith, mul_assoc j m size)

  edge_end : edge size total fine_end ≡ edge (m * size) total (suc j)
  edge_end = elim (dec_lt (j * (m * size) + m * size) total) [
    | yes inside ↦
        let whole : (j * m + m) * size ≡ j * (m * size) + m * size =
          omega (arith, mul_assoc j m size) in
        let low : j * m + m ≤ reach =
          le_of_mul-le-mul_right {k = size} (omega (arith, reach_bounds)) pos in
        let high : reach < j * m + m + 1 =
          lt_of_mul-lt reach (j * m + m + 1) size (omega (arith, reach_bounds)) in
        let room : j * m + m ≤ blocks = le_of_mul-le-mul_right {k = size} (omega arith) pos in
        let is : fine_end ≡ j * m + m = omega arith in rw is (omega arith)
    | no outside ↦ elim (dec_lt blocks reach) [
      | yes l ↦ let is : fine_end ≡ blocks = omega arith in rw is (omega arith)
      | no l ↦ let is : fine_end ≡ reach = omega arith in rw is (omega (arith, reach_bounds))
    ]
  ]

module _ (view : SnapshotView) (query : Bytes) (limit : ℕ) (kept dirty_blocks : List ℕ)
    (indexed : IsIndexed view) (flags : AreFlags view kept dirty_blocks) (asks : query ≢ []) where
  abbrev size : ℕ
  size = view.header.search_block_packages

  abbrev super_size : ℕ
  super_size = view.header.search_super_block_packages

  abbrev total : ℕ
  total = view.header.package_count

  abbrev found : ℕ → ℕ → List ℕ
  found first end = range_hits (fits view query kept) first end

  -- the fine blocks of a super block
  super_fine-Adds :
      (wide m j : ℕ) (s : Scan)
      → wide ≡ m * size
      → j * wide ≤ total
      → length s.results ≤ limit
      → Adds limit
          (found (edge wide total j) (edge wide total (suc j)))
          s.results
          (scan_blocks view query limit kept dirty_blocks
            (j * wide / size)
            (min view.header.search_block_count ((min total (j * wide + wide) + size - 1) / size)
              - j * wide / size)
            s).results
  super_fine-Adds wide m j s e starts h =
      let blocks = view.header.search_block_count in
      let enough : total ≤ blocks * size = rw indexed.fine_count indexed.fine.enough in
      let pos = indexed.block_pos in
      let starts' : j * (m * size) ≤ total = rw e at starts in
      let last = fine_end size m total blocks j pos enough starts' in
      let begins = fine_begin_is size m total blocks j pos enough starts' in
      let order = fine_begin-le size m total blocks j pos enough starts' in
      let sum : j * m + (last - j * m) ≡ last = omega arith in
      let inside : j * m + (last - j * m) ≤ length view.search_blocks =
        omega (arith, indexed.fine_count) in
      let run =
        scan_blocks-Adds view query limit kept dirty_blocks indexed flags asks (last - j * m)
          (j * m) s inside h in
      rw
        (
          e,
          begins,
          ← edge_begin size m total blocks j pos enough starts',
          ← edge_end size m total blocks j pos enough starts',
        )
        (rw sum at run)

  -- `scan_super_block` finds the packages of its super block that fit.
  scan_super_block-Adds :
      (m j : ℕ) (s : Scan)
      → super_size ≡ m * size
      → view.header.search_super_block_count ≢ 0
      → j < length view.search_super_blocks
      → length s.results ≤ limit
      → Adds limit
          (found (edge super_size total j) (edge super_size total (suc j)))
          s.results
          (scan_super_block view query limit kept dirty_blocks j s).results
  unfolding scan_super_block search_super_block
  scan_super_block-Adds m j s e some_super inside h =
      let block = search_super_block view j in
      let coarse = indexed.coarse some_super in
      let summary = coarse.parts.summary j inside in
      let below : j * super_size ≤ total =
        omega (arith, coarse.tight, mul-le-mul_right super_size inside) in
      let counted : Scan = count_super_scan (count_super_block s) in
      elim (Bool-cases (bitmap_contains block query)) [
        | inr misses ↦
            let none =
              ruled_out view query limit kept dirty_blocks indexed flags asks block
                (edge super_size total j) (edge super_size total (suc j))
                (λ p l u. summary.covers p (omega arith) (omega arith)) (omega arith) misses in
            rw misses
              (Adds-nothing limit s.results h ∙ ap (λ x. take limit (s.results ++ x)) (sym none))
        | inl hit ↦ rw hit (super_fine-Adds super_size m j counted e below h)
      ]

  pub scan_super_blocks-Adds :
      (m left j : ℕ) (s : Scan)
      → super_size ≡ m * size
      → view.header.search_super_block_count ≢ 0
      → j + left ≤ length view.search_super_blocks
      → length s.results ≤ limit
      → Adds limit
          (found (edge super_size total j) (edge super_size total (j + left)))
          s.results
          (scan_super_blocks view query limit kept dirty_blocks j left s).results
  unfolding scan_super_blocks
  scan_super_blocks-Adds m zero j s e some_super inside h =
      let same : edge super_size total (j + 0) - edge super_size total j ≡ 0 =
        omega (arith, ap (edge super_size total) (add-zero j)) in
      rw same (unfold hits in Adds-nothing limit s.results h)
  scan_super_blocks-Adds m (suc left) j s e some_super inside h =
      let step = scan_super_block view query limit kept dirty_blocks j s in
      let end = edge super_size total (suc j + left) in
      let here = found (edge super_size total j) (edge super_size total (suc j)) in
      let later = found (edge super_size total (suc j)) end in
      let sum : j + suc left ≡ suc j + left = omega arith in
      let order : suc j * super_size ≤ (suc j + left) * super_size =
        mul-le-mul_right super_size (omega arith) in
      elim (Bool-cases (ltb (length s.results) limit)) [
        | inr full ↦ rw full (Adds-full limit _ s.results (ground arith))
        | inl room ↦
            let first = scan_super_block-Adds m j s e some_super (omega arith) h in
            let bound = Adds-bounded limit here s.results step.results first in
            rw (room, sum)
              (Adds-trans limit here later s.results step.results _ first
                  (scan_super_blocks-Adds m left (suc j) step e some_super (omega arith) bound)
                ∙ ap (λ x. take limit (s.results ++ x))
                    (sym (
                      range_hits-split (fits view query kept) (edge super_size total j)
                        (edge super_size total (suc j)) end (omega arith) (omega arith))))
      ]
