-- ===== src/Generation/Open/Filled.antt =====
-- The loop over the references at the end of the constructor of `GenerationView` in
-- src/generation.cpp: what the tables hold.
use native.Mathlib.Nat.{mod-eq_of_lt}
use aurhub.Base.{
  ℕ, zero, suc, ◌+◌, ◌%◌, ◌^◌, ◌<◌, ◌≡◌, ◌≢◌, refl, sym, ap, ◌∙◌, true, false, not, List, [], ◌∷◌,
  ◌++◌, ◌==◌, arith, inl, inr, Bool-cases, if◌then◌else◌, get_or, set, length, replicate, subst,
  length-set, get_or-set_self, get_or-set_ne, length-replicate, append-nil,
}
use aurhub.Base.Result.{ok, bind_ok, >>-eq-ok}
use aurhub.Snapshot.Format.{SnapshotView}
use aurhub.Generation.Format.{
  GenerationPackageRef, Overlay, reuses_base_package, checked_source, u32_max, no_package_ref,
}
use aurhub.Generation.Ref.{package_ref}
use aurhub.Generation.Open.{Flags, flag_ref, flag_refs, no_flags}
use aurhub.Generation.Table.{AreRefs, is_kept, is_extra, base_index}
use aurhub.Search.Hits.{hits, hits-add}

flag_ref-kept :
    (i : ℕ) (r : GenerationPackageRef) (s t : Flags)
    → (r.source == 0) ≡ true
    → flag_ref i r s ≡ ok t
    → t
      ≡ record s { kept = set s.kept r.index 1; to_current = set s.to_current r.index (i % 2 ^ 32) }
unfolding flag_ref checked_source
flag_ref-kept i r s t e h =
    let h' = rw e at h in
    let (fresh, last) =
      >>-eq-ok (not (get_or s.kept r.index 0 == 0)) reuses_base_package
        (ok (record s {
          kept = set s.kept r.index 1;
          to_current = set s.to_current r.index (i % 2 ^ 32);
        }))
        h' in
    cc

flag_ref-extra :
    (i : ℕ) (r : GenerationPackageRef) (s t : Flags)
    → (r.source == 0) ≡ false
    → flag_ref i r s ≡ ok t
    → t ≡ record s { extra = s.extra ++ i % 2 ^ 32 ∷ [] }
unfolding flag_ref checked_source
flag_ref-extra i r s t e h = elim (Bool-cases (r.source == 1)) [
  | inl e1 ↦ let h' = rw (e, e1) at h in cc
  | inr e1 ↦ elim (Bool-cases (r.source == 2)) [
    | inl e2 ↦ let h' = rw (e, e1, e2) at h in cc
    | inr e2 ↦ elim (Bool-cases (r.source == 3)) [
      | inl e3 ↦ let h' = rw (e, e1, e2, e3) at h in cc
      | inr e3 ↦ let h' = rw (e, e1, e2, e3) at h in cc
    ]
  ]
]

pub get_or-replicate : (n v p : ℕ) → get_or (replicate n v) p v ≡ v
unfolding get_or replicate
get_or-replicate zero v p = refl
get_or-replicate (suc n) v zero = refl
get_or-replicate (suc n) v (suc p) = get_or-replicate n v p

module _ (base : SnapshotView) (o : Overlay) where
  -- The tables after the references below an index.
  pub record Holds (i : ℕ) (s : Flags) : Type 0 where
    pub kept : (j : ℕ) → j < i → is_kept o j ≡ true → get_or s.kept (base_index o j) 0 ≢ 0
    pub current :
        (j : ℕ) → j < i → is_kept o j ≡ true → get_or s.to_current (base_index o j) u32_max ≡ j
    pub referenced :
        (p : ℕ)
        → get_or s.kept p 0 ≢ 0
        → (j : ℕ) × (j < i) × (is_kept o j ≡ true) × (base_index o j ≡ p)
    pub unreferenced : (p : ℕ) → get_or s.kept p 0 ≡ 0 → get_or s.to_current p u32_max ≡ u32_max
    pub extra : s.extra ≡ hits (is_extra o) 0 i
    pub kept_size : length s.kept ≡ base.header.package_count
    pub current_size : length s.to_current ≡ base.header.package_count

  hits_next :
      (i : ℕ)
      → hits (is_extra o) 0 (suc i) ≡ hits (is_extra o) 0 i ++ (if is_extra o i then i ∷ [] else [])
  unfolding hits
  hits_next i =
      let e : suc i ≡ i + 1 = omega arith in
      let e' : 0 + i ≡ i = omega arith in
      ap (hits (is_extra o) 0) e ∙ hits-add (is_extra o) 0 i 1 ∙ rw e' refl

  no_flags-Holds : Holds 0 (no_flags base)
  unfolding no_flags
  no_flags-Holds = record {
    kept = λ j l h. absurd (omega arith);
    current = λ j l h. absurd (omega arith);
    referenced = λ p h. absurd (h (get_or-replicate base.header.package_count 0 p));
    unreferenced = λ p h. get_or-replicate base.header.package_count u32_max p;
    extra = unfold hits in refl;
    kept_size = length-replicate base.header.package_count 0;
    current_size = length-replicate base.header.package_count u32_max;
  }

  module _ (refs : AreRefs base o) (small : o.header.package_count < u32_max) where
    kept_step :
        (i : ℕ) (s : Flags)
        → Holds i s
        → i < o.header.package_count
        → is_kept o i ≡ true
        → Holds (suc i) (record s {
          kept = set s.kept (base_index o i) 1;
          to_current = set s.to_current (base_index o i) (i % 2 ^ 32);
        })
    kept_step i s inv l e =
        let p = base_index o i in
        let inside : p < base.header.package_count = refs.in_base i l e in
        let whole : i % 2 ^ 32 ≡ i = mod-eq_of_lt (omega arith) in
        let new_kept = get_or-set_self s.kept p 1 0 (omega (arith, inv.kept_size)) in
        let new_current =
          get_or-set_self s.to_current p (i % 2 ^ 32) u32_max (omega (arith, inv.current_size)) in
        let apart : (j : ℕ) → j < i → is_kept o j ≡ true → p ≢ base_index o j =
          λ j b a q. let order = refs.in_order j i b l a e in omega arith in
        record {
          kept = λ j b a. elim (Bool-cases (j == i)) [
            | inl y ↦ let same : j ≡ i = ground arith in rw (same, new_kept) (λ z. omega arith)
            | inr n ↦
                let old : j < i = ground arith in
                rw (get_or-set_ne s.kept p (base_index o j) 1 0 (apart j old a)) (inv.kept j old a)
          ];
          current = λ j b a. elim (Bool-cases (j == i)) [
            | inl y ↦ let same : j ≡ i = ground arith in rw (same, new_current) whole
            | inr n ↦
                let old : j < i = ground arith in
                rw
                  (get_or-set_ne s.to_current p (base_index o j) (i % 2 ^ 32) u32_max
                    (apart j old a))
                  (inv.current j old a)
          ];
          referenced = λ q h. elim (Bool-cases (p == q)) [
            | inl y ↦ (i, omega arith, e, ground arith)
            | inr n ↦
                let h' = rw (get_or-set_ne s.kept p q 1 0 (λ z. ground arith)) at h in
                let (j, b, a, place) = inv.referenced q h' in (j, omega arith, a, place)
          ];
          unreferenced = λ q h. elim (Bool-cases (p == q)) [
            | inl y ↦
                let same : p ≡ q = ground arith in
                let h' = rw (sym same, new_kept) at h in absurd (omega arith)
            | inr n ↦
                let apart' : p ≢ q = λ z. ground arith in
                let h' = rw (get_or-set_ne s.kept p q 1 0 apart') at h in
                rw (get_or-set_ne s.to_current p q (i % 2 ^ 32) u32_max apart')
                  (inv.unreferenced q h')
          ];
          extra = rw (hits_next i, inv.extra) (unfold is_extra in rw e (sym (append-nil _)));
          kept_size = length-set s.kept p 1 ∙ inv.kept_size;
          current_size = length-set s.to_current p (i % 2 ^ 32) ∙ inv.current_size;
        }

    extra_step :
        (i : ℕ) (s : Flags)
        → Holds i s
        → i < o.header.package_count
        → is_kept o i ≡ false
        → Holds (suc i) (record s { extra = s.extra ++ i % 2 ^ 32 ∷ [] })
    extra_step i s inv l e = record {
      kept = λ j b a. elim (Bool-cases (j == i)) [
        | inl y ↦ let same : j ≡ i = ground arith in let a' = rw same at a in cc
        | inr n ↦ inv.kept j (ground arith) a
      ];
      current = λ j b a. elim (Bool-cases (j == i)) [
        | inl y ↦ let same : j ≡ i = ground arith in let a' = rw same at a in cc
        | inr n ↦ inv.current j (ground arith) a
      ];
      referenced = λ p h. let (j, b, a, place) = inv.referenced p h in (j, omega arith, a, place);
      unreferenced = inv.unreferenced;
      extra =
          let whole : i % 2 ^ 32 ≡ i = mod-eq_of_lt (omega arith) in
          rw (hits_next i, inv.extra, whole) (unfold is_extra in rw e refl);
      kept_size = inv.kept_size;
      current_size = inv.current_size;
    }

    flag_refs-Holds :
        (i : ℕ) (rest : List GenerationPackageRef) (s t : Flags)
        → Holds i s
        → ((k : ℕ) → k < length rest → get_or rest k no_package_ref ≡ package_ref o (i + k))
        → i + length rest ≡ o.header.package_count
        → flag_refs i rest s ≡ ok t
        → Holds o.header.package_count t
    unfolding flag_refs get_or is_kept
    flag_refs-Holds i [] s t inv those total h =
        let done : i ≡ o.header.package_count = omega arith in
        let same : s ≡ t = cc in subst (λ n. Holds n t) done (subst (Holds i) same inv)
    flag_refs-Holds i (r ∷ rest) s t inv those total h =
        let (u, next, first) = bind_ok (flag_ref i r s) h in
        let below : i < o.header.package_count = omega arith in
        let this : r ≡ package_ref o i =
          let e : i + 0 ≡ i = omega arith in those 0 (omega arith) ∙ ap (package_ref o) e in
        let first' = subst (λ x. flag_ref i x s ≡ ok u) this first in
        let later : (k : ℕ)
            → k < length rest
            → get_or rest k no_package_ref ≡ package_ref o (suc i + k) =
          λ k l.
            let e : i + suc k ≡ suc i + k = omega arith in
            those (suc k) (omega arith) ∙ ap (package_ref o) e in
        let go : Holds (suc i) u → Holds o.header.package_count t =
          λ inv'. flag_refs-Holds (suc i) rest u t inv' later (omega arith) next in
        elim (Bool-cases (is_kept o i)) [
          | inl e ↦
              let source : ((package_ref o i).source == 0) ≡ true = e in
              go (
                subst (Holds (suc i)) (sym (flag_ref-kept i (package_ref o i) s u source first'))
                  (kept_step i s inv below e))
          | inr e ↦
              let source : ((package_ref o i).source == 0) ≡ false = e in
              go (
                subst (Holds (suc i)) (sym (flag_ref-extra i (package_ref o i) s u source first'))
                  (extra_step i s inv below e))
        ]

    pub flag_refs-filled :
        (t : Flags)
        → length o.package_refs ≡ o.header.package_count
        → flag_refs 0 o.package_refs (no_flags base) ≡ ok t
        → Holds o.header.package_count t
    flag_refs-filled t sized h =
        flag_refs-Holds 0 o.package_refs (no_flags base) t no_flags-Holds
          (λ k l. let e : 0 + k ≡ k = omega arith in unfold package_ref in rw e refl) (omega arith)
          h
