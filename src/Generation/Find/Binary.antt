-- ===== src/Generation/Find/Binary.antt =====
-- The binary search of `find_package` in src/generation.cpp.
use native.Mathlib.Nat.{div-lt_iff_lt-mul}
use aurhub.Base.{
  ℕ, zero, suc, ◌+◌, ◌-◌, ◌/◌, ◌≤◌, ◌<◌, ◌≡◌, Bool, true, false, arith, inl, inr, Bool-cases, ltb,
}
use aurhub.Bytes.{Bytes, bytes_lt}
use aurhub.Bytes.Laws.{bytes_lt_trans}
use aurhub.Snapshot.Format.{SnapshotView, name}
use aurhub.Generation.Check.Refs.{IsNamed}
use aurhub.Generation.Find.{search_base}

module _ (base : SnapshotView) (wanted : Bytes) where
  abbrev count : ℕ
  count = base.header.package_count

  abbrev below : ℕ → Bool
  below i = bytes_lt (name base i) wanted

  -- The index parts the names that are below from the others.
  pub record Parts (r : ℕ) : Type 0 where
    pub bound : r ≤ count
    pub before : (i : ℕ) → i < r → below i ≡ true
    pub behind : (i : ℕ) → r ≤ i → i < count → below i ≡ false

  half : (n : ℕ) → 0 < n → n / 2 < n
  half n h = (div-lt_iff_lt-mul (omega arith)).1 (omega arith)

  search_base-from :
      IsNamed base
      → (fuel first last : ℕ) → last ≤ first + fuel
      → first ≤ last
      → last ≤ count
      → ((i : ℕ) → i < first → below i ≡ true)
      → ((i : ℕ) → last ≤ i → i < count → below i ≡ false)
      → Parts (search_base base wanted fuel first last)
  unfolding search_base
  search_base-from named zero first last enough order bound before behind = record {
    bound = omega arith;
    before = before;
    behind = λ i l u. behind i (omega arith) u;
  }
  search_base-from named (suc fuel) first last enough order bound before behind =
      let middle = first + (last - first) / 2 in
      elim (Bool-cases (ltb first last)) [
        | inr done ↦
            let same : last ≡ first = ground arith in
            rw done (record {
              bound = omega arith;
              before = before;
              behind = λ i l u. behind i (omega arith) u;
            })
        | inl more ↦
            let room : first < last = ground arith in
            let shorter : (last - first) / 2 < last - first = half (last - first) (omega arith) in
            elim (Bool-cases (below middle)) [
              | inl less ↦
                  rw (more, less)
                    (search_base-from named fuel (middle + 1) last (omega arith) (omega arith) bound
                      (λ i l. elim (Bool-cases (ltb i middle)) [
                        | inl left ↦
                            bytes_lt_trans _ _ _ (named i middle (ground arith) (omega arith)) less
                        | inr here ↦ let same : i ≡ middle = ground arith in rw same less
                      ])
                      behind)
              | inr not_less ↦
                  rw (more, not_less)
                    (search_base-from named fuel first middle (omega arith) (omega arith)
                      (omega arith) before
                      (λ i l u. elim (Bool-cases (below i)) [
                        | inr e ↦ e
                        | inl e ↦ elim (Bool-cases (ltb middle i)) [
                          | inl right ↦
                              let less = bytes_lt_trans _ _ _ (named middle i (ground arith) u) e in
                              cc
                          | inr here ↦
                              let same : i ≡ middle = ground arith in let e' = rw same at e in cc
                        ]
                      ]))
            ]
      ]

  -- On a base whose active packages ascend strictly by name, the number of packages is enough fuel
  -- for the binary search: it ends at an index that parts the names below the wanted one from the
  -- others.
  pub search_base-Parts : IsNamed base → Parts (search_base base wanted count 0 count)
  search_base-Parts named =
      search_base-from named count 0 count (omega arith) (omega arith) (omega arith)
        (λ i l. absurd (omega arith)) (λ i l u. absurd (omega arith))
