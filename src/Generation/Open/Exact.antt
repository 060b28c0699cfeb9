-- ===== src/Generation/Open/Exact.antt =====
-- A view that the constructor of `GenerationView` in src/generation.cpp returns.
use aurhub.Base.{
  ◌↔◌, ℕ, ◌<◌, ◌≡◌, ◌≢◌, refl, sym, ap, ◌∙◌, Bool, List, [], Option, none, some, length, take,
  subst, replicate, length-replicate,
}
use aurhub.Base.Result.{ok, bind_ok}
use aurhub.Bytes.{Bytes, contains}
use aurhub.Snapshot.Format.{SnapshotView}
use aurhub.Snapshot.Reader.{SnapshotValidation}
use aurhub.Generation.Format.{Overlay, GenerationView, u32_max}
use aurhub.Generation.Check.{
  check_format, open_base, check_base, check_regions, check_overlay, check_inline_branches,
  check_inline_packages, check_branch_refs, check_package_refs,
}
use aurhub.Generation.Check.Refs.{IsNamed}
use aurhub.Generation.Check.Order.{check_package_refs-AreRefs}
use aurhub.Generation.Open.{Flags, flag_refs, no_flags, make_view, open_generation}
use aurhub.Generation.Open.Filled.{Holds, flag_refs-filled}
use aurhub.Generation.Open.Dirty.{length-mark_dirty, mark_dirty-AreFlags}
use aurhub.Generation.Table.{AreRefs, AreTables, name_at, text_at}
use aurhub.Generation.Find.{find_package}
use aurhub.Generation.Find.Exact.{find_package-exact}
use aurhub.Generation.Search.{search}
use aurhub.Generation.Search.Answer.{search-exact}
use aurhub.Search.Exact.{IsIndexed}
use aurhub.Search.Hits.{hits}
use aurhub.Search.Scan.{Scan}

check_overlay-package_refs :
    (base : SnapshotView) (o : Overlay)
    → check_overlay base o ≡ ok tt
    → check_package_refs base o none none o.package_refs ≡ ok tt
unfolding check_overlay
check_overlay-package_refs base o h =
    let (_, h1, _) = bind_ok (check_inline_branches o.header o.inline_branches) h in
    let (_, h2, _) = bind_ok (check_inline_packages o.header o.inline_packages) h1 in
    let (_, h3, _) = bind_ok (check_branch_refs base o none none o.branch_refs) h2 in
    let (u, _, checked) = bind_ok (check_package_refs base o none none o.package_refs) h3 in checked

make_view-AreTables :
    (base : SnapshotView) (o : Overlay) (flags : Flags)
    → IsIndexed base
    → Holds base o o.header.package_count flags
    → AreTables (make_view base o flags) o
unfolding make_view
make_view-AreTables base o flags indexed holds = record {
  kept = holds.kept;
  current = holds.current;
  referenced = holds.referenced;
  unreferenced = holds.unreferenced;
  extra = holds.extra;
  kept_size = holds.kept_size;
  dirty_size =
      length-mark_dirty base.header.search_block_packages 0 flags.kept
        (replicate base.header.search_block_count 0)
      ∙ length-replicate {A = ℕ} base.header.search_block_count 0;
  clean =
      mark_dirty-AreFlags base flags.kept indexed.block_pos
        (rw indexed.fine_count indexed.fine.enough) holds.kept_size;
}

module _ (base : SnapshotView) (o : Overlay) (file_size base_size : ℕ)
    (validation : SnapshotValidation) (view : GenerationView) (indexed : IsIndexed base)
    (named : IsNamed base) (sized : length o.package_refs ≡ o.header.package_count)
    (small : o.header.package_count < u32_max)
    (opened : open_generation (some o) base file_size base_size validation ≡ ok view) where
  pub open_generation-AreTables :
      (view.base ≡ base) × (view.overlay ≡ some o) × AreRefs base o × AreTables view o
  unfolding open_generation
  open_generation-AreTables =
      let (_, h1, _) = bind_ok (check_format o.header file_size) opened in
      let (_, h2, _) = bind_ok (open_base base base_size validation) h1 in
      let (_, h3, _) = bind_ok (check_base o.header base base_size) h2 in
      let (_, h4, _) = bind_ok (check_regions o.header file_size) h3 in
      let (u, h5, checked) = bind_ok (check_overlay base o) h4 in
      let (flags, last, filled) = bind_ok (flag_refs 0 o.package_refs (no_flags base)) h5 in
      let refs =
        check_package_refs-AreRefs base o named sized (check_overlay-package_refs base o checked) in
      let holds = flag_refs-filled base o refs small flags sized filled in
      let made : view ≡ make_view base o flags = cc in
      let tables = make_view-AreTables base o flags indexed holds in
      subst (λ v. (v.base ≡ base) × (v.overlay ≡ some o) × AreRefs base o × AreTables v o)
        (sym made) (unfold make_view in refl, unfold make_view in refl, refs, tables)

  -- When the constructor accepts an overlay, whose region of package references holds as many as
  -- the header counts, fewer than 2 ^ 32 - 1, over an indexed base whose active packages ascend
  -- strictly by name, then `search` for a query that is not empty returns, and its results are the
  -- first `limit` indices, in ascending order, of the packages of the generation whose search text
  -- contains the query: the search of the base with its dirty blocks, the translation of its
  -- indices and the truncated insertions of the other packages together are a scan of all
  -- packages.
  pub open_generation-search :
      (query : Bytes) (limit : ℕ) (with_stats : Bool)
      → query ≢ []
      → (s : Scan) × (search view query limit with_stats ≡ ok s)
        × (s.results
            ≡ take limit (hits (λ i. contains (text_at base o i) query) 0 o.header.package_count))
  open_generation-search query limit with_stats asks =
      let (over, laid, refs, tables) = open_generation-AreTables in
      let (s, run, found) =
        search-exact view o query limit with_stats laid (subst IsIndexed (sym over) indexed)
          (subst (λ b. AreRefs b o) (sym over) refs) tables small asks in
      let results : SnapshotView → List ℕ =
        λ b. take limit (hits (λ i. contains (text_at b o i) query) 0 o.header.package_count) in
      (s, run, found ∙ ap results over)

  -- Under the same conditions on the overlay and its base, `find_package` returns for every name,
  -- and it returns an index exactly when that is the index of a package of the generation with
  -- that name.
  pub open_generation-find_package :
      (wanted : Bytes)
      → (result : Option ℕ) × (find_package view wanted ≡ ok result)
        × ((i : ℕ)
            → (result ≡ some i) ↔ ((i < o.header.package_count) × (name_at base o i ≡ wanted)))
  open_generation-find_package wanted =
      let (over, laid, refs, tables) = open_generation-AreTables in
      let (result, run, answers) =
        find_package-exact view wanted (subst IsNamed (sym over) named) o
          (subst (λ b. AreRefs b o) (sym over) refs) tables small laid in
      (
        result,
        run,
        subst
            (λ b.
              (i : ℕ)
              → (result ≡ some i) ↔ ((i < o.header.package_count) × (name_at b o i ≡ wanted)))
            over answers,
      )
