-- ===== src/Generation/Find/Extra.antt =====
-- The part of `find_package` in src/generation.cpp on the packages that are not in the base.
use aurhub.Base.{
  ℕ, zero, suc, ◌+◌, ◌≤◌, ◌<◌, ◌≡◌, ◌≢◌, refl, sym, ap, ◌∙◌, Bool, true, false, Option, none, some,
  arith, inl, inr, Bool-cases, ltb, ◌==◌, if◌then◌else◌, drop,
}
use aurhub.Base.Result.{ok, ◌>>=◌}
use aurhub.Bytes.{Bytes, bytes_eq, bytes_lt}
use aurhub.Bytes.Laws.{bytes_eq_sound, bytes_eq_refl, bytes_lt_irrefl}
use aurhub.Snapshot.Format.{SnapshotView}
use aurhub.Generation.Format.{Overlay}
use aurhub.Generation.Ref.{Get, package_ref, package_name}
use aurhub.Generation.Check.{head}
use aurhub.Generation.Find.{lower_bound, name_below, find_extra}
use aurhub.Generation.Table.{AreRefs, name_at, is_extra}
use aurhub.Search.Hits.{hits}

module _ (base : SnapshotView) (o : Overlay) (refs : AreRefs base o) (wanted : Bytes) where
  abbrev count : ℕ
  count = o.header.package_count

  abbrev below : ℕ → Bool
  below i = bytes_lt (name_at base o i) wanted

  -- The first of the others from an index on whose name is not below, if there is one.
  abbrev First : ℕ → Option ℕ → Type 0
  First index none = (j : ℕ) → index ≤ j → j < count → is_extra o j ≡ true → below j ≡ true
  First index (some e) =
      (index ≤ e)
      × (e < count)
      × (below e ≡ false)
      × ((j : ℕ) → index ≤ j → j < e → is_extra o j ≡ true → below j ≡ true)

  further :
      (index : ℕ) (found : Option ℕ)
      → (is_extra o index ≡ true → below index ≡ true)
      → First (suc index) found
      → First index found
  further index none here h = λ j l u e. elim (Bool-cases (j == index)) [
    | inl y ↦ let same : j ≡ index = ground arith in let e' = rw same at e in rw same (here e')
    | inr n ↦ h j (ground arith) u e
  ]
  further index (some found) here (l, u, e, h) = (
    omega arith,
    u,
    e,
    λ j l' u' x. elim (Bool-cases (j == index)) [
      | inl y ↦ let same : j ≡ index = ground arith in let x' = rw same at x in rw same (here x')
      | inr n ↦ h j (ground arith) u' x
    ],
  )

  lower_bound-First :
      (left index : ℕ)
      → index + left ≡ count
      → (position : ℕ) × (lower_bound (name_below base o wanted) (hits (is_extra o) index left)
          ≡ ok position)
        × First index (head (drop position (hits (is_extra o) index left)))
  unfolding hits lower_bound drop
  lower_bound-First zero index total = (0, refl, λ j l u e. absurd (omega arith))
  lower_bound-First (suc left) index total =
      let (position, found, first) = lower_bound-First left (suc index) (omega arith) in
      elim (Bool-cases (is_extra o index)) [
        | inr other ↦ rw other (position, found, further index _ (λ e. cc) first)
        | inl extra ↦ elim (Bool-cases (below index)) [
          | inl less ↦
              rw (extra, refs.named index (omega arith), less, found)
                (suc position, refl, further index _ (λ e. less) first)
          | inr not_less ↦
              rw (extra, refs.named index (omega arith), not_less)
                (0, refl, (omega arith, omega arith, not_less, λ j l u e. absurd (omega arith)))
        ]
      ]

  -- The package with a name, if it is not in the base.
  pub record IsAnswer (result : Option ℕ) : Type 0 where
    pub right : (i : ℕ) → result ≡ some i → (i < count) × (name_at base o i ≡ wanted)
    pub all :
        (i : ℕ) → i < count → is_extra o i ≡ true → name_at base o i ≡ wanted → result ≡ some i

  -- a name that is not below itself
  not_wanted : (i : ℕ) → below i ≡ true → name_at base o i ≢ wanted
  not_wanted i h e = let h' = rw e at h in let none = bytes_lt_irrefl wanted in cc

  pub name_at-injective :
      (i j : ℕ) → i < count → j < count → name_at base o i ≡ name_at base o j → i ≡ j
  name_at-injective i j p q e = elim (Bool-cases (ltb i j)) [
    | inl l ↦
        let less = refs.ascending i j (ground arith) q in
        let less' = rw e at less in let none = bytes_lt_irrefl (name_at base o j) in cc
    | inr n ↦ elim (Bool-cases (ltb j i)) [
      | inl l ↦
          let less = refs.ascending j i (ground arith) p in
          let less' = rw e at less in let none = bytes_lt_irrefl (name_at base o j) in cc
      | inr n' ↦ ground arith
    ]
  ]

  abbrev answer : Option ℕ → Get (Option ℕ)
  answer none = ok none
  answer (some extra) = package_name base o (package_ref o extra) >>= λ n.
      ok (if bytes_eq n wanted then some extra else none)

  answer-IsAnswer :
      (pick : Option ℕ)
      → First 0 pick
      → (result : Option ℕ) × (answer pick ≡ ok result) × IsAnswer result
  answer-IsAnswer none first = (
    none,
    refl,
    record {
      right = λ i e. cc;
      all = λ i l x e. absurd (not_wanted i (first i (omega arith) l x) e);
    },
  )
  answer-IsAnswer (some e) (l, u, not_less, before) =
      rw (refs.named e u) (elim (Bool-cases (bytes_eq (name_at base o e) wanted)) [
        | inl same ↦
            let equal = bytes_eq_sound (name_at base o e) wanted same in
            rw same (
              some e,
              refl,
              record {
                right = λ i p. let place : e ≡ i = cc in rw (← place) (u, equal);
                all = λ i l' x q. ap some (name_at-injective e i u l' (equal ∙ sym q));
              },
            )
        | inr other ↦ rw other (
          none,
          refl,
          record {
            right = λ i p. cc;
            all = λ i l' x q. absurd (elim (Bool-cases (ltb i e)) [
              | inl left ↦ not_wanted i (before i (omega arith) (ground arith) x) q
              | inr n ↦ elim (Bool-cases (ltb e i)) [
                | inl right ↦
                    let less = refs.ascending e i (ground arith) l' in
                    let less' = rw q at less in cc
                | inr n' ↦
                    let place : i ≡ e = ground arith in
                    let q' = rw place at q in
                    let equal = bytes_eq_refl wanted in let other' = rw q' at other in cc
              ]
            ]);
          },
        )
      ])

  pub find_extra-IsAnswer :
      (result : Option ℕ) × (find_extra base o (hits (is_extra o) 0 count) wanted ≡ ok result)
      × IsAnswer result
  unfolding find_extra
  find_extra-IsAnswer =
      let (position, found, first) = lower_bound-First count 0 (omega arith) in
      let (result, run, correct) = answer-IsAnswer _ first in rw found (result, run, correct)
