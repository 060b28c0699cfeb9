-- ===== src/Generation/Search/Translate.antt =====
-- The packages of the base that the search finds, as indices of the generation.
use aurhub.Base.{
  ℕ, zero, suc, ◌+◌, ◌-◌, ◌≤◌, ◌<◌, ◌≡◌, ◌≢◌, refl, sym, ◌∙◌, Bool, true, false, ◌&&◌, List, [],
  ◌∷◌, take, get_or, ltb, ◌==◌, arith, inl, inr, Bool-cases,
}
use aurhub.Base.Result.{ok, bind_ok}
use aurhub.Generation.Format.{Overlay, u32_max}
use aurhub.Generation.Table.{is_kept, base_index}
use aurhub.Generation.Search.{to_generation}
use aurhub.Search.Hits.{hits, hits-none, range_hits-split}

to_generation-cons :
    (table : List ℕ) (p : ℕ) (xs ys : List ℕ)
    → get_or table p u32_max ≢ u32_max
    → to_generation table xs ≡ ok ys
    → to_generation table (p ∷ xs) ≡ ok (get_or table p u32_max ∷ ys)
unfolding to_generation
to_generation-cons table p xs ys some_index h =
    elim (Bool-cases (get_or table p u32_max == u32_max)) [
      | inl e ↦ absurd (some_index (ground arith))
      | inr e ↦ rw (e, h) refl
    ]

-- fewer indices
pub to_generation-take :
    (table : List ℕ) (n : ℕ) (xs ys : List ℕ)
    → to_generation table xs ≡ ok ys
    → to_generation table (take n xs) ≡ ok (take n ys)
unfolding to_generation take
to_generation-take table zero xs ys h = refl
to_generation-take table (suc n) [] ys h = let none : ys ≡ [] = cc in rw none refl
to_generation-take table (suc n) (p ∷ xs) ys h =
    elim (Bool-cases (get_or table p u32_max == u32_max)) [
      | inl e ↦ let h' = rw e at h in cc
      | inr e ↦
          let h' = rw e at h in
          let (cs, last, found) = bind_ok (to_generation table xs) h' in
          let all : ys ≡ get_or table p u32_max ∷ cs = cc in
          rw (e, to_generation-take table n xs cs found, all) refl
    ]

-- up to the next index that may pass
hits-skip :
    (f : ℕ → Bool) (low p end : ℕ)
    → low ≤ p
    → p < end
    → ((q : ℕ) → low ≤ q → q < p → f q ≡ false)
    → hits f low (end - low) ≡ hits f p (suc (end - suc p))
hits-skip f low p end l u none =
    let first : hits f low (p - low) ≡ [] =
      hits-none f low (p - low) (λ q a b. none q a (omega arith)) in
    let count : end - p ≡ suc (end - suc p) = omega arith in
    range_hits-split f low p end l (omega arith) ∙ rw (first, count) refl

-- The indices of the generation whose package of the base passes the test.
module _ (o : Overlay) (base_count : ℕ) (table : List ℕ) (f : ℕ → Bool) (g : ℕ → Bool) where
  abbrev count : ℕ
  count = o.header.package_count

  pub to_generation-hits :
      ((i : ℕ) → i < count → is_kept o i ≡ true → base_index o i < base_count)
      → ((i j : ℕ)
          → i < j
          → j < count
          → is_kept o i ≡ true
          → is_kept o j ≡ true
          → base_index o i < base_index o j)
      → ((i : ℕ) → i < count → is_kept o i ≡ true → get_or table (base_index o i) u32_max ≡ i)
      → ((i : ℕ) → i < count → is_kept o i ≡ true → f (base_index o i) ≡ g i)
      → count < u32_max
      → (left i low : ℕ) → i + left ≡ count
      → low ≤ base_count
      → ((j : ℕ) → i ≤ j → j < count → is_kept o j ≡ true → low ≤ base_index o j)
      → ((p : ℕ)
          → low ≤ p
          → p < base_count
          → f p ≡ true
          → (j : ℕ) × (i ≤ j) × (j < count) × (is_kept o j ≡ true) × (base_index o j ≡ p))
      → to_generation table (hits f low (base_count - low))
        ≡ ok (hits (λ j. is_kept o j && g j) i left)
  unfolding hits
  to_generation-hits in_base in_order current agree small zero i low total bound above from =
      rw
        (hits-none f low (base_count - low) (λ p l u. elim (Bool-cases (f p)) [
          | inr miss ↦ miss
          | inl hit ↦
              let (j, least, below, active, place) = from p l (omega arith) hit in
              absurd (omega arith)
        ]))
        (unfold to_generation in refl)
  to_generation-hits in_base in_order current agree small (suc left) i low total bound above from =
      elim (Bool-cases (is_kept o i)) [
        | inr other ↦ rw other (
            to_generation-hits in_base in_order current agree small left (suc i) low (omega arith)
              bound (λ j l. above j (omega arith))
              (λ p l u hit.
                let (j, least, below, active, place) = from p l u hit in
                let apart : i ≢ j = λ e. let active' = rw (sym e) at active in cc in
                (j, omega arith, below, active, place)))
        | inl this ↦
            let p = base_index o i in
            let here : low ≤ p = above i (omega arith) (omega arith) this in
            let inside : p < base_count = in_base i (omega arith) this in
            let place : get_or table p u32_max ≡ i = current i (omega arith) this in
            let rest =
              to_generation-hits in_base in_order current agree small left (suc i) (suc p)
                (omega arith) inside (λ j l u active. in_order i j l u this active)
                (λ q l u hit.
                  let (j, least, below, active, found) = from q (omega arith) u hit in
                  let apart : i ≢ j = λ e. let found' = rw (sym e) at found in omega arith in
                  (j, omega arith, below, active, found)) in
            let skip = hits-skip f low p base_count here inside (λ q l u. elim (Bool-cases (f q)) [
              | inr miss ↦ miss
              | inl hit ↦
                  let (j, least, below, active, found) = from q l (omega arith) hit in
                  absurd (elim (Bool-cases (ltb i j)) [
                    | inl later ↦
                        let order = in_order i j (ground arith) below this active in omega arith
                    | inr now ↦
                        let same : i ≡ j = ground arith in
                        let found' = rw (sym same) at found in omega arith
                  ])
            ]) in
            rw (this, skip, agree i (omega arith) this)
              (elim (Bool-cases (g i)) [
                | inr miss ↦ rw miss rest
                | inl hit ↦ rw hit (
                    to_generation-cons table p (hits f (suc p) (base_count - suc p))
                      (hits (λ j. is_kept o j && g j) (suc i) left) (omega arith) rest
                    ∙ rw place refl)
              ])
      ]
