-- ===== src/Generation/Check/Order.antt =====
-- The order of the references that the constructor in src/generation.cpp accepts, by their indices.
use aurhub.Base.{
  ℕ, zero, suc, ◌<◌, ◌≡◌, true, List, [], ◌∷◌, Option, none, some, ◌==◌, arith, inl, inr,
  Bool-cases, get_or, length,
}
use aurhub.Base.Result.{ok}
use aurhub.Bytes.{bytes_lt}
use aurhub.Bytes.Laws.{bytes_lt_trans}
use aurhub.Snapshot.Format.{SnapshotView}
use aurhub.Generation.Format.{GenerationPackageRef, Overlay, no_package_ref}
use aurhub.Generation.Ref.{package_ref}
use aurhub.Generation.Check.{check_package_refs}
use aurhub.Generation.Check.Refs.{
  IsNamed, name_of, IsRef, IsBase, IsChain, next_last, check_package_refs-IsChain,
}
use aurhub.Generation.Table.{AreRefs, name_at, text_at, is_kept}

module _ (base : SnapshotView) (o : Overlay) where
  abbrev at : List GenerationPackageRef → ℕ → GenerationPackageRef
  at refs i = get_or refs i no_package_ref

  IsChain-IsRef :
      (previous : Option GenerationPackageRef) (last : Option ℕ) (refs : List GenerationPackageRef)
      (i : ℕ)
      → IsChain base o previous last refs
      → i < length refs
      → IsRef base o (at refs i)
  unfolding get_or
  IsChain-IsRef previous last [] i c l = absurd (omega arith)
  IsChain-IsRef previous last (r ∷ rest) zero (v, f, b, c) l = v
  IsChain-IsRef previous last (r ∷ rest) (suc i) (v, f, b, c) l =
      IsChain-IsRef (some r) (next_last base o r last) rest i c (omega arith)

  IsChain-above :
      (a : GenerationPackageRef) (last : Option ℕ) (refs : List GenerationPackageRef) (j : ℕ)
      → IsChain base o (some a) last refs
      → j < length refs
      → bytes_lt (name_of base o a) (name_of base o (at refs j)) ≡ true
  unfolding get_or
  IsChain-above a last [] j c l = absurd (omega arith)
  IsChain-above a last (r ∷ rest) zero (v, f, b, c) l = f
  IsChain-above a last (r ∷ rest) (suc j) (v, f, b, c) l =
      bytes_lt_trans _ _ _ f (IsChain-above r (next_last base o r last) rest j c (omega arith))

  IsChain-ascending :
      (previous : Option GenerationPackageRef) (last : Option ℕ) (refs : List GenerationPackageRef)
      (i j : ℕ)
      → IsChain base o previous last refs
      → i < j
      → j < length refs
      → bytes_lt (name_of base o (at refs i)) (name_of base o (at refs j)) ≡ true
  unfolding get_or
  IsChain-ascending previous last [] i j c l u = absurd (omega arith)
  IsChain-ascending previous last (r ∷ rest) i zero c l u = absurd (omega arith)
  IsChain-ascending previous last (r ∷ rest) zero (suc j) (v, f, b, c) l u =
      IsChain-above r (next_last base o r last) rest j c (omega arith)
  IsChain-ascending previous last (r ∷ rest) (suc i) (suc j) (v, f, b, c) l u =
      IsChain-ascending (some r) (next_last base o r last) rest i j c (omega arith) (omega arith)

  IsChain-last :
      (previous : Option GenerationPackageRef) (p : ℕ) (refs : List GenerationPackageRef) (j : ℕ)
      → IsChain base o previous (some p) refs
      → j < length refs
      → IsBase base o (at refs j)
      → p < (at refs j).index
  unfolding get_or
  IsChain-last previous p [] j c l b = absurd (omega arith)
  IsChain-last previous p (r ∷ rest) zero (v, f, after, c) l b = let later = after b in ground arith
  IsChain-last previous p (r ∷ rest) (suc j) (v, f, after, c) l b =
      elim (Bool-cases (r.source == 0)) [
        | inl e ↦
            let c' = rw e at c in
            let later = after e in
            let further = IsChain-last (some r) r.index rest j c' (omega arith) b in ground arith
        | inr e ↦ let c' = rw e at c in IsChain-last (some r) p rest j c' (omega arith) b
      ]

  IsChain-in_order :
      (previous : Option GenerationPackageRef) (last : Option ℕ) (refs : List GenerationPackageRef)
      (i j : ℕ)
      → IsChain base o previous last refs
      → i < j
      → j < length refs
      → IsBase base o (at refs i)
      → IsBase base o (at refs j)
      → (at refs i).index < (at refs j).index
  unfolding get_or
  IsChain-in_order previous last [] i j c l u a b = absurd (omega arith)
  IsChain-in_order previous last (r ∷ rest) i zero c l u a b = absurd (omega arith)
  IsChain-in_order previous last (r ∷ rest) zero (suc j) (v, f, after, c) l u a b =
      let c' = rw a at c in IsChain-last (some r) r.index rest j c' (omega arith) b
  IsChain-in_order previous last (r ∷ rest) (suc i) (suc j) (v, f, after, c) l u a b =
      IsChain-in_order (some r) (next_last base o r last) rest i j c (omega arith) (omega arith) a b

  pub check_package_refs-AreRefs :
      IsNamed base
      → length o.package_refs ≡ o.header.package_count
      → check_package_refs base o none none o.package_refs ≡ ok tt
      → AreRefs base o
  unfolding name_at text_at is_kept package_ref
  check_package_refs-AreRefs named sized accepted =
      let refs = o.package_refs in
      let chain = check_package_refs-IsChain base o named none none refs tt accepted in
      record {
        named = λ i l. (IsChain-IsRef none none refs i chain (omega arith)).0;
        described = λ i l. (IsChain-IsRef none none refs i chain (omega arith)).1;
        in_base = λ i l. (IsChain-IsRef none none refs i chain (omega arith)).2;
        in_order = λ i j l u. IsChain-in_order none none refs i j chain l (omega arith);
        ascending = λ i j l u. IsChain-ascending none none refs i j chain l (omega arith);
      }
