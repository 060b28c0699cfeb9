-- ===== src/Generation/Check/Refs.antt =====
-- What the checks of the references of an overlay in src/generation.cpp find out: each names a
-- package, and each name is below the next.
use aurhub.Base.{
  ℕ, ◌<◌, ◌≡◌, refl, Bool, true, false, not, ◌||◌, List, [], ◌∷◌, Option, none, some, leb, ◌==◌,
  arith, inl, inr, ◌⊎◌, Bool-cases, if◌then◌else◌,
}
use aurhub.Base.Result.{ok, err, ◌>>=◌, ◌>>◌, throw_if, bind_ok, >>-eq-ok}
use aurhub.Bytes.{Bytes, bytes_lt}
use aurhub.Snapshot.Format.{SnapshotView, name}
use aurhub.Generation.Format.{
  GenerationError, invalid_package_reference, active_packages_not_sorted, base_packages_not_ordered,
  GenerationSource, GenerationPackageRef, Overlay, checked_source,
}
use aurhub.Generation.Ref.{Get, package_name, package_search}
use aurhub.Generation.Check.{
  head, not_below, not_after, check_neighbours, validate_package_ref, check_package_refs,
}
use aurhub.Generation.Table.{value_of}

-- The names of the active packages ascend.
abbrev pub IsNamed : SnapshotView → Type 0
IsNamed base =
    (i j : ℕ) → i < j → j < base.header.package_count → bytes_lt (name base i) (name base j) ≡ true

-- Two tests, and what follows them.
tests-ok :
    (m n : Get Bool) (e : GenerationError) (k : Get (Unit {0}))
    → ((m >>= λ a. throw_if a e >> (n >>= λ b. throw_if b e)) >> k) ≡ ok tt
    → (m ≡ ok false) × (n ≡ ok false) × (k ≡ ok tt)
tests-ok (err d) n e k h = cc
tests-ok (ok true) n e k h = cc
tests-ok (ok false) (err d) e k h = cc
tests-ok (ok false) (ok true) e k h = cc
tests-ok (ok false) (ok false) e k h = (refl, refl, h)

-- One test, and the value behind it.
test-ok :
    {A : Type 0} (t : Bool) (e : GenerationError) (a b : A)
    → (throw_if t e >> ok a) ≡ ok b
    → (t ≡ false) × (b ≡ a)
test-ok true e a b h = cc
test-ok false e a b h = (refl, cc)

module _ (base : SnapshotView) (o : Overlay) where
  abbrev pub name_of : GenerationPackageRef → Bytes
  name_of r = value_of (package_name base o r)

  -- The reference names a package.
  abbrev pub IsRef : GenerationPackageRef → Type 0
  IsRef r =
      (package_name base o r ≡ ok (value_of (package_name base o r)))
      × (package_search base o r ≡ ok (value_of (package_search base o r)))
      × ((r.source == 0) ≡ true → r.index < base.header.package_count)

  abbrev Sourced : GenerationPackageRef → GenerationSource → Type 0
  Sourced r source =
      ((r.source == 0) ≡ true) × (source ≡ GenerationSource.base_active)
      ⊎ ((r.source == 0) ≡ false) × (source ≡ GenerationSource.base_shadow)
      ⊎ ((r.source == 0) ≡ false) × (source ≡ GenerationSource.inline_record)

  validate_package_ref-IsRef :
      (r : GenerationPackageRef) (source : GenerationSource)
      → validate_package_ref base o r ≡ ok source
      → IsRef r × Sourced r source
  unfolding validate_package_ref checked_source package_name package_search
  validate_package_ref-IsRef r source h = elim (Bool-cases (r.source == 0)) [
    | inl e ↦
        let h' = rw e at h in
        let (inside, last) =
          test-ok
            (leb base.header.package_count r.index || leb o.header.branch_count r.branch_index)
            invalid_package_reference GenerationSource.base_active source h' in
        rw e ((refl, refl, λ p. ground arith), inl (refl, last))
    | inr e ↦ elim (Bool-cases (r.source == 1)) [
      | inl e1 ↦
          let h' = rw (e, e1) at h in
          let (inside, last) =
            test-ok
              (leb base.header.shadow_package_count r.index
                || leb o.header.branch_count r.branch_index)
              invalid_package_reference GenerationSource.base_shadow source h' in
          rw (e, e1) ((refl, refl, λ p. cc), inr (inl (refl, last)))
      | inr e1 ↦ elim (Bool-cases (r.source == 2)) [
        | inl e2 ↦ let h' = rw (e, e1, e2) at h in cc
        | inr e2 ↦ elim (Bool-cases (r.source == 3)) [
          | inl e3 ↦
              let h' = rw (e, e1, e2, e3) at h in
              let (inside, last) =
                test-ok
                  (leb o.header.inline_package_count r.index
                    || leb o.header.branch_count r.branch_index)
                  invalid_package_reference GenerationSource.inline_record source h' in
              rw (e, e1, e2, e3) ((refl, refl, λ p. cc), inr (inr (refl, last)))
          | inr e3 ↦ let h' = rw (e, e1, e2, e3) at h in cc
        ]
      ]
    ]
  ]

  abbrev pub IsBase : GenerationPackageRef → Type 0
  IsBase r = (r.source == 0) ≡ true

  abbrev pub next_last : GenerationPackageRef → Option ℕ → Option ℕ
  next_last r last = if r.source == 0 then some r.index else last

  -- How a reference stands to the one before it, and to the last one to the base.
  abbrev pub Follows : Option GenerationPackageRef → GenerationPackageRef → Type 0
  Follows none r = Unit
  Follows (some a) r = bytes_lt (name_of a) (name_of r) ≡ true

  abbrev pub IsChain : Option GenerationPackageRef → Option ℕ → List GenerationPackageRef → Type 0
  IsChain previous last [] = Unit
  IsChain previous last (r ∷ rest) =
      IsRef r
      × Follows previous r
      × (IsBase r → not_after last r.index ≡ false)
      × IsChain (some r) (next_last r last) rest

  -- what is known of the reference before
  abbrev Ready : Option GenerationPackageRef → Option ℕ → List GenerationPackageRef → Type 0
  Ready none last rest = Unit
  Ready (some a) last rest =
      IsRef a
      × (IsBase a × (last ≡ some a.index)
          ⊎ (not_below (package_name base o) (some a) (head rest) ≡ ok false))

  abbrev Tested : Option GenerationPackageRef → Option ℕ → GenerationPackageRef → Type 0
  Tested previous last r =
      IsBase r × (not_after last r.index ≡ false)
      ⊎ ((r.source == 0) ≡ false) × (not_below (package_name base o) previous (some r) ≡ ok false)

  compared :
      (a r : GenerationPackageRef)
      → IsRef a
      → IsRef r
      → not_below (package_name base o) (some a) (some r) ≡ ok false
      → bytes_lt (name_of a) (name_of r) ≡ true
  compared a r (name_a, _, _) (name_r, _, _) h =
      let h' = rw (name_a, name_r) at h in
      let above : not (bytes_lt (name_of a) (name_of r)) ≡ false = cc in ground arith

  base_name : (r : GenerationPackageRef) → IsBase r → name_of r ≡ name base r.index
  unfolding package_name checked_source
  base_name r h = rw h refl

  follows :
      IsNamed base
      → (previous : Option GenerationPackageRef) (last : Option ℕ) (r : GenerationPackageRef)
        (rest : List GenerationPackageRef)
      → IsRef r
      → Ready previous last (r ∷ rest)
      → Tested previous last r
      → Follows previous r
  follows named none last r rest v ready tested = tt
  follows named (some a) last r rest v (va, inr below) tested = compared a r va v below
  follows named (some a) last r rest v (va, inl (base_a, e)) (inr (_, above)) =
      compared a r va v above
  follows named (some a) last r rest v (va, inl (base_a, e)) (inl (base_r, after)) =
      let after' = rw e at after in
      let inside = v.2 base_r in
      rw (base_name a base_a, base_name r base_r) (named a.index r.index (ground arith) inside)

  pub check_package_refs-IsChain :
      IsNamed base
      → (previous : Option GenerationPackageRef) (last : Option ℕ)
        (rest : List GenerationPackageRef)
      → Ready previous last rest
      → check_package_refs base o previous last rest ≡ ok tt
      → IsChain previous last rest
  unfolding check_package_refs
  check_package_refs-IsChain named previous last [] ready h = tt
  check_package_refs-IsChain named previous last (r ∷ rest) ready h =
      let (source, next, checked) = bind_ok (validate_package_ref base o r) h in
      let (v, sourced) = validate_package_ref-IsRef r source checked in
      let other : (r.source == 0) ≡ false
          → (check_neighbours (package_name base o) active_packages_not_sorted previous r rest
              >> check_package_refs base o (some r) last rest)
            ≡ ok tt
          → IsChain previous last (r ∷ rest) =
        λ e next'.
          let (above, below, more) =
            tests-ok (not_below (package_name base o) previous (some r))
              (not_below (package_name base o) (some r) (head rest)) active_packages_not_sorted
              (check_package_refs base o (some r) last rest) next' in
          let chain = check_package_refs-IsChain named (some r) last rest (v, inr below) more in
          (v, follows named previous last r rest v ready (inr (e, above)), λ b. cc, rw e chain) in
      elim sourced [
        | inl (e, s) ↦
            let next' = rw s at next in
            let (after, more) =
              >>-eq-ok (not_after last r.index) base_packages_not_ordered
                (check_package_refs base o (some r) (some r.index) rest) next' in
            let chain =
              check_package_refs-IsChain named (some r) (some r.index) rest (v, inl (e, refl))
                more in
            (v, follows named previous last r rest v ready (inl (e, after)), λ b. after, rw e chain)
        | inr (inl (e, s)) ↦ let next' = rw s at next in other e next'
        | inr (inr (e, s)) ↦ let next' = rw s at next in other e next'
      ]
