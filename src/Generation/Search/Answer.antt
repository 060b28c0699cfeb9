-- ===== src/Generation/Search/Answer.antt =====
-- The answer of `GenerationView::search` on an overlay.
use native.Mathlib.Nat.{sub-zero}
use aurhub.Base.{
  ℕ, ◌<◌, ◌≡◌, ◌≢◌, refl, sym, ◌∙◌, Bool, true, false, not, ◌&&◌, List, [], ◌∷◌, take, get_or,
  length, ◌==◌, arith, some, and_both,
}
use aurhub.Base.Result.{ok}
use aurhub.Bytes.{Bytes, contains}
use aurhub.Snapshot.Format
use aurhub.Snapshot.Format.{SnapshotView}
use aurhub.Generation.Format.{Overlay, GenerationView, u32_max}
use aurhub.Generation.Ref.{package_search}
use aurhub.Generation.Table.{AreRefs, AreTables, is_kept, is_extra, base_index, text_at}
use aurhub.Generation.Search.{to_generation, search}
use aurhub.Generation.Search.Sorted.{add_all, select, select-hits, add_all-hits, hits-AllBelow}
use aurhub.Generation.Search.Insert.{add_extras-add_all}
use aurhub.Generation.Search.Translate.{to_generation-hits, to_generation-take}
use aurhub.Search.Hits.{hits, hits_congr}
use aurhub.Search.Exact.{IsIndexed, fits, keeps}
use aurhub.Search.Exact.Answer.{search_packages_kept-exact}
use aurhub.Search.Scan.{Scan, search_packages_kept, wrong_size}

pub keeps-get_or :
    (kept : List ℕ) (p : ℕ) → p < length kept → keeps kept p ≡ not (get_or kept p 0 == 0)
unfolding keeps
keeps-get_or [] p h = absurd (omega arith)
keeps-get_or (x ∷ xs) p h = refl

-- no size is refused
pub wrong_size-false : (xs : List ℕ) (n : ℕ) → length xs ≡ n → wrong_size xs n ≡ false
unfolding wrong_size
wrong_size-false [] n h = refl
wrong_size-false (x ∷ xs) n h = ground arith

-- the search text of a package of the base
pub text_at-search_text :
    (base : SnapshotView) (o : Overlay) (i : ℕ)
    → is_kept o i ≡ true
    → text_at base o i ≡ Format.search_text base (base_index o i)
unfolding text_at package_search is_kept
text_at-search_text base o i h = unfold package_search in rw h refl

module _ (view : GenerationView) (o : Overlay) (query : Bytes) (limit : ℕ) (with_stats : Bool)
    (laid : view.overlay ≡ some o) (indexed : IsIndexed view.base) (refs : AreRefs view.base o)
    (tables : AreTables view o) (small : o.header.package_count < u32_max) (asks : query ≢ []) where
  abbrev count : ℕ
  count = o.header.package_count

  abbrev found : ℕ → Bool
  found i = contains (text_at view.base o i) query

  kept-fits :
      (i : ℕ)
      → i < count
      → is_kept o i ≡ true
      → fits view.base query view.base_active_kept (base_index o i) ≡ found i
  unfolding fits
  kept-fits i l h =
      let inside : base_index o i < length view.base_active_kept =
        omega (arith, refs.in_base i l h, tables.kept_size) in
      let marked = tables.kept i l h in
      let keeps_it : keeps view.base_active_kept (base_index o i) ≡ true =
        keeps-get_or view.base_active_kept (base_index o i) inside ∙ ground arith in
      rw (keeps_it, text_at-search_text view.base o i h) refl

  fits-kept :
      (p : ℕ)
      → p < view.base.header.package_count
      → fits view.base query view.base_active_kept p ≡ true
      → (i : ℕ) × (i < count) × (is_kept o i ≡ true) × (base_index o i ≡ p)
  unfolding fits
  fits-kept p l h =
      let (keeps_it, text) =
        and_both (keeps view.base_active_kept p) (contains (Format.search_text view.base p) query)
          h in
      let inside : p < length view.base_active_kept = omega (arith, tables.kept_size) in
      let marked = sym (keeps-get_or view.base_active_kept p inside) ∙ keeps_it in
      tables.referenced p (λ e. ground arith)

  translated :
      to_generation view.base_to_current
        (search_packages_kept view.base query limit view.base_active_kept
          view.base_dirty_search_blocks with_stats).results
      ≡ ok (take limit (hits (λ j. is_kept o j && found j) 0 count))
  translated =
      let base_count = view.base.header.package_count in
      let exact =
        search_packages_kept-exact view.base query limit view.base_active_kept
          view.base_dirty_search_blocks with_stats indexed tables.clean asks
          (wrong_size-false _ _ tables.kept_size) (wrong_size-false _ _ tables.dirty_size) in
      let run =
        to_generation-hits o base_count view.base_to_current
          (fits view.base query view.base_active_kept) found refs.in_base refs.in_order
          tables.current kept-fits small count 0 0 (omega arith) (omega arith)
          (λ j l u h. omega arith)
          (λ p l u h.
            let (i, below, active, place) = fits-kept p u h in
            (i, omega arith, below, active, place)) in
      let whole = rw sub-zero at run in
      rw exact (to_generation-take view.base_to_current limit _ _ whole)

  merged :
      add_all
        (select found (hits (is_extra o) 0 count))
        (hits (λ j. is_kept o j && found j) 0 count)
      ≡ hits found 0 count
  unfolding is_extra
  merged = rw (select-hits found (is_extra o) 0 count) (
      add_all-hits (λ p. is_extra o p && found p) (λ j. is_kept o j && found j) 0 count
        (λ p h. ground arith)
      ∙ hits_congr _ found 0 count (λ p l u. ground arith))

  -- On an overlay whose references and tables are right, `search` returns the first `limit`
  -- indices of the packages whose search text contains the query.
  pub search-exact :
      (s : Scan) × (search view query limit with_stats ≡ ok s)
      × (s.results ≡ take limit (hits found 0 count))
  unfolding search
  search-exact =
      rw
        (
          laid,
          translated,
          tables.extra,
          add_extras-add_all view.base o refs query limit (hits (is_extra o) 0 count)
              (hits (λ j. is_kept o j && found j) 0 count)
              (hits-AllBelow _ count 0 count (omega arith))
              (hits-AllBelow _ count 0 count (omega arith)),
          merged,
        )
        (_, refl, refl)
