-- ===== src/Generation/Find/Exact.antt =====
-- The answer of `GenerationView::find_package` in src/generation.cpp.
use aurhub.Base.{
  ℕ, ◌≤◌, ◌<◌, ◌≡◌, ◌≢◌, refl, sym, ap, ◌∙◌, subst, Bool, true, ◌&&◌, Option, none, some, arith,
  inl, inr, ◌↔◌, Bool-cases, ltb, ◌==◌, get_or, and_both,
}
use aurhub.Base.Result.{ok}
use aurhub.Bytes.{Bytes, bytes_eq}
use aurhub.Bytes.Laws.{bytes_eq_sound, bytes_eq_refl, bytes_lt_irrefl}
use aurhub.Snapshot.Format.{SnapshotView, name}
use aurhub.Generation.Format.{Overlay, GenerationView, u32_max}
use aurhub.Generation.Ref.{package_name}
use aurhub.Generation.Check.Refs.{IsNamed}
use aurhub.Generation.Find.{search_base, find_extra, find_package}
use aurhub.Generation.Find.Binary.{search_base-Parts}
use aurhub.Generation.Find.Extra.{find_extra-IsAnswer, name_at-injective}
use aurhub.Generation.Table.{AreRefs, AreTables, name_at, is_kept, is_extra, base_index}

module _ (view : GenerationView) (wanted : Bytes) (named : IsNamed view.base) where
  abbrev base : SnapshotView
  base = view.base

  abbrev base_count : ℕ
  base_count = base.header.package_count

  abbrev first : ℕ
  first = search_base base wanted base_count 0 base_count

  abbrev hit : Bool
  hit = ltb first base_count && bytes_eq (name base first) wanted

  hit_sound : hit ≡ true → (first < base_count) × (name base first ≡ wanted)
  hit_sound h =
      let (inside, same) = and_both (ltb first base_count) (bytes_eq (name base first) wanted) h in
      (ground arith, bytes_eq_sound (name base first) wanted same)

  -- No other index of the base has the name.
  hit_unique : (p : ℕ) → p < base_count → name base p ≡ wanted → (p ≡ first) × (hit ≡ true)
  hit_unique p l e =
      let parts = search_base-Parts base wanted named in
      let none = bytes_lt_irrefl wanted in
      let least : first ≤ p = elim (Bool-cases (ltb p first)) [
        | inl left ↦ let less = parts.before p (ground arith) in let less' = rw e at less in cc
        | inr n ↦ ground arith
      ] in
      let most : p ≤ first = elim (Bool-cases (ltb first p)) [
        | inl right ↦
            let less = named first p (ground arith) l in
            let less' = rw e at less in
            let not_less = parts.behind first (omega arith) (omega arith) in cc
        | inr n ↦ ground arith
      ] in
      let place : p ≡ first = omega arith in
      let name_first : name base first ≡ wanted = subst (λ i. name base i ≡ wanted) place e in
      let inside : ltb first base_count ≡ true = ground arith in
      (place, rw (name_first, inside, bytes_eq_refl wanted) refl)

  -- On a plain snapshot whose active packages ascend strictly by name, `find_package` returns an
  -- index exactly when that is the index of a package with the name.
  pub find_package-base :
      view.overlay ≡ none
      → (result : Option ℕ) × (find_package view wanted ≡ ok result)
        × ((i : ℕ)
            → (result ≡ some i)
              ↔ ((i < view.base.header.package_count) × (name view.base i ≡ wanted)))
  unfolding find_package
  find_package-base plain = rw plain (elim (Bool-cases hit) [
    | inl h ↦
        let (inside, same) = hit_sound h in
        rw h (
          some first,
          refl,
          λ i. (
            λ e. let place : first ≡ i = cc in rw (← place) (inside, same),
            λ (l, e). ap some (sym (hit_unique i l e).0),
          ),
        )
    | inr h ↦ rw h (none, refl, λ i. (λ e. cc, λ (l, e). let h' = (hit_unique i l e).1 in cc))
  ])

  module _ (o : Overlay) (refs : AreRefs view.base o) (tables : AreTables view o)
      (small : o.header.package_count < u32_max) where
    abbrev count : ℕ
    count = o.header.package_count

    abbrev Answers : Option ℕ → Type 0
    Answers result = (i : ℕ) → (result ≡ some i) ↔ ((i < count) × (name_at view.base o i ≡ wanted))

    kept_name :
        (i : ℕ) → is_kept o i ≡ true → name_at view.base o i ≡ name view.base (base_index o i)
    unfolding name_at is_kept package_name
    kept_name i h = rw h refl

    -- Where no kept package has the name, the others are looked through.
    from_extra :
        ((i : ℕ) → i < count → is_kept o i ≡ true → name_at view.base o i ≢ wanted)
        → (result : Option ℕ) × (find_extra view.base o view.extra_active wanted ≡ ok result)
          × Answers result
    from_extra lost =
        let (result, run, correct) = find_extra-IsAnswer view.base o refs wanted in
        rw tables.extra (
          result,
          run,
          λ i. (
            correct.right i,
            λ (l, e). elim (Bool-cases (is_kept o i)) [
              | inl k ↦ absurd (lost i l k e)
              | inr x ↦ correct.all i l (unfold is_extra in rw x refl) e
            ],
          ),
        )

    -- On an overlay whose references and tables are right, `find_package` returns an index exactly
    -- when that is the index of a package with the name.
    pub find_package-exact :
        view.overlay ≡ some o
        → (result : Option ℕ) × (find_package view wanted ≡ ok result)
          × ((i : ℕ)
              → (result ≡ some i)
                ↔ ((i < o.header.package_count) × (name_at view.base o i ≡ wanted)))
    unfolding find_package
    find_package-exact laid = rw laid (elim (Bool-cases hit) [
      | inr h ↦ rw h (
          from_extra (λ i l k e.
            let place =
              hit_unique (base_index o i) (refs.in_base i l k) (sym (kept_name i k) ∙ e) in
            let h' = place.1 in cc))
      | inl h ↦
          let (inside, same) = hit_sound h in
          elim (Bool-cases (get_or view.base_to_current first u32_max == u32_max)) [
            | inl gone ↦
                rw (h, gone)
                  (from_extra (λ i l k e.
                    let place =
                      (hit_unique (base_index o i) (refs.in_base i l k)
                        (sym (kept_name i k) ∙ e)).0 in
                    let current = tables.current i l k in
                    let current' = rw place at current in ground arith))
            | inr here ↦
                let marked : get_or view.base_active_kept first 0 ≢ 0 =
                  λ z. let none = tables.unreferenced first z in ground arith in
                let (j, l, k, place) = tables.referenced first marked in
                let current = tables.current j l k in
                let current' = rw place at current in
                let named_j : name_at view.base o j ≡ wanted =
                  kept_name j k ∙ ap (name view.base) place ∙ same in
                rw (h, here, current')
                  (
                    some j,
                    refl,
                    λ i. (
                      λ e. let at : j ≡ i = cc in rw (← at) (l, named_j),
                      λ (b, e).
                          ap some
                            (name_at-injective view.base o refs wanted j i l b (named_j ∙ sym e)),
                    ),
                  )
          ]
    ])
