-- ===== src/Generation/Search/Insert.antt =====
-- The loop of `GenerationView::search` over the packages that are not in the base.
use aurhub.Base.{
  ℕ, zero, suc, ◌<◌, ◌≡◌, refl, List, [], ◌∷◌, ltb, length, take, ◌==◌, arith, inl, inr, Bool-cases,
  length-take,
}
use aurhub.Base.Result.{ok}
use aurhub.Bytes.{Bytes, bytes_lt, contains}
use aurhub.Bytes.Laws.{bytes_lt_irrefl, bytes_lt_trans}
use aurhub.Snapshot.Format.{SnapshotView}
use aurhub.Generation.Format.{Overlay}
use aurhub.Generation.Find.{lower_bound, name_below}
use aurhub.Generation.Table.{AreRefs, name_at, text_at}
use aurhub.Generation.Search.{pop_back, insert_extra, add_extra, add_extras}
use aurhub.Generation.Search.Sorted.{
  AllBelow, insert_sorted, insert_sorted-AllBelow, select, add_all,
}
use aurhub.Generation.Search.Truncate.{rank, step, step-insert_sorted, take-insert_sorted}

pub pop_back-AllBelow : (high : ℕ) (xs : List ℕ) → AllBelow high xs → AllBelow high (pop_back xs)
unfolding pop_back
pop_back-AllBelow high [] h = tt
pop_back-AllBelow high (x ∷ []) h = tt
pop_back-AllBelow high (x ∷ y ∷ xs) (p, q) = (p, pop_back-AllBelow high (y ∷ xs) q)

pub take-AllBelow : (high n : ℕ) (xs : List ℕ) → AllBelow high xs → AllBelow high (take n xs)
unfolding take
take-AllBelow high zero xs h = tt
take-AllBelow high (suc n) [] h = tt
take-AllBelow high (suc n) (x ∷ xs) (p, q) = (p, take-AllBelow high n xs q)

module _ (base : SnapshotView) (o : Overlay) (refs : AreRefs base o) where
  abbrev count : ℕ
  count = o.header.package_count

  -- names compare as their indices do
  pub bytes_lt-name_at :
      (i j : ℕ) → i < count → j < count → bytes_lt (name_at base o i) (name_at base o j) ≡ ltb i j
  bytes_lt-name_at i j p q = elim (Bool-cases (ltb i j)) [
    | inl e ↦ rw e (refs.ascending i j (ground arith) q)
    | inr e ↦ elim (Bool-cases (ltb j i)) [
      | inl e' ↦ rw e (elim (Bool-cases (bytes_lt (name_at base o i) (name_at base o j))) [
        | inr lt ↦ lt
        | inl lt ↦
            let back = refs.ascending j i (ground arith) p in
            let loop = bytes_lt_trans _ _ _ lt back in
            let none = bytes_lt_irrefl (name_at base o i) in cc
      ])
      | inr e' ↦
          let same : i ≡ j = ground arith in rw (e, same) (bytes_lt_irrefl (name_at base o j))
    ]
  ]

  pub lower_bound-rank :
      (current : ℕ) (xs : List ℕ)
      → current < count
      → AllBelow count xs
      → lower_bound (name_below base o (name_at base o current)) xs ≡ ok (rank current xs)
  unfolding lower_bound rank
  lower_bound-rank current [] c h = refl
  lower_bound-rank current (x ∷ xs) c (p, q) =
      rw (refs.named x p, bytes_lt-name_at x current p c, lower_bound-rank current xs c q)
        (elim (Bool-cases (ltb x current)) [ inl e ↦ rw e refl | inr e ↦ rw e refl ])

  insert_extra-step :
      (limit current : ℕ) (xs : List ℕ)
      → current < count
      → AllBelow count xs
      → insert_extra base o limit current (name_at base o current) xs ≡ ok (step limit current xs)
  unfolding insert_extra step
  insert_extra-step limit current xs c h =
      rw
        (
          lower_bound-rank current xs c h,
          lower_bound-rank current (pop_back xs) c (pop_back-AllBelow count xs h),
        )
        (elim (Bool-cases (ltb (length xs) limit)) [
          | inl e ↦ rw e refl
          | inr e ↦ elim (Bool-cases (rank current xs == length xs)) [
            | inl e' ↦ rw (e, e') refl
            | inr e' ↦ rw (e, e') refl
          ]
        ])

  -- The loop inserts the packages whose search text contains the query in the order of the indices
  -- and keeps the first results.
  pub add_extras-add_all :
      (query : Bytes) (limit : ℕ) (extra xs : List ℕ)
      → AllBelow count extra
      → AllBelow count xs
      → add_extras base o query limit extra (take limit xs)
        ≡ ok (take limit (add_all (select (λ i. contains (text_at base o i) query) extra) xs))
  unfolding add_extras add_extra add_all select
  add_extras-add_all query limit [] xs c h = refl
  add_extras-add_all query limit (e ∷ extra) xs (p, q) h =
      elim (Bool-cases (contains (text_at base o e) query)) [
        | inr miss ↦ rw (refs.described e p, miss) (add_extras-add_all query limit extra xs q h)
        | inl hit ↦
            rw
              (
                refs.described e p,
                hit,
                refs.named e p,
                insert_extra-step limit e (take limit xs) p (take-AllBelow count limit xs h),
                step-insert_sorted limit e (take limit xs) (omega (arith, length-take limit xs)),
                take-insert_sorted limit e xs,
              )
              (add_extras-add_all query limit extra (insert_sorted e xs) q
                (insert_sorted-AllBelow count e xs p h))
      ]
