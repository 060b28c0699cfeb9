-- ===== src/Generation/Open/Dirty.antt =====
-- The dirty blocks that the constructor of `GenerationView` in src/generation.cpp marks.
use native.Mathlib.Nat.{zero-add, le-div_iff_mul-le, div-lt_iff_lt-mul}
use aurhub.Base.{
  ℕ, zero, suc, ◌+◌, ◌*◌, ◌/◌, ◌≤◌, ◌<◌, ◌≡◌, refl, ◌∙◌, true, false, not, List, [], ◌∷◌, ◌==◌,
  arith, inl, inr, Bool-cases, if◌then◌else◌, get_or, set, length, replicate, length-set,
  get_or-set_self, get_or-set_ne, length-replicate,
}
use aurhub.Snapshot.Format.{SnapshotView}
use aurhub.Generation.Open.{mark_dirty}
use aurhub.Search.Exact.{AreFlags}
use aurhub.Generation.Open.Filled.{get_or-replicate}
use aurhub.Generation.Search.Answer.{keeps-get_or}
use aurhub.Search.Scan.{is_dirty}

pub length-mark_dirty :
    (block i : ℕ) (kept dirty : List ℕ) → length (mark_dirty block i kept dirty) ≡ length dirty
unfolding mark_dirty
length-mark_dirty block i [] dirty = refl
length-mark_dirty block i (k ∷ kept) dirty =
    length-mark_dirty block (suc i) kept (if k == 0 then set dirty (i / block) 1 else dirty)
    ∙ elim (Bool-cases (k == 0)) [
      | inl e ↦ rw e (length-set dirty (i / block) 1)
      | inr e ↦ rw e refl
    ]

-- a mark stays
mark_dirty-marked :
    (block i b : ℕ) (kept dirty : List ℕ)
    → b < length dirty
    → get_or dirty b 0 ≡ 1
    → get_or (mark_dirty block i kept dirty) b 0 ≡ 1
unfolding mark_dirty
mark_dirty-marked block i b [] dirty l h = h
mark_dirty-marked block i b (k ∷ kept) dirty l h = elim (Bool-cases (k == 0)) [
  | inr e ↦ rw e (mark_dirty-marked block (suc i) b kept dirty l h)
  | inl e ↦
      let still : get_or (set dirty (i / block) 1) b 0 ≡ 1 = elim (Bool-cases (i / block == b)) [
        | inl y ↦ let same : i / block ≡ b = ground arith in rw same (get_or-set_self dirty b 1 0 l)
        | inr n ↦ get_or-set_ne dirty (i / block) b 1 0 (λ p. ground arith) ∙ h
      ] in
      rw e (
        mark_dirty-marked block (suc i) b kept (set dirty (i / block) 1)
          (rw (length-set dirty (i / block) 1) l) still)
]

-- the block of a package that is not kept
mark_dirty-dropped :
    (block i q : ℕ) (kept dirty : List ℕ)
    → q < length kept
    → get_or kept q 0 ≡ 0
    → (i + q) / block < length dirty
    → get_or (mark_dirty block i kept dirty) ((i + q) / block) 0 ≡ 1
unfolding mark_dirty get_or
mark_dirty-dropped block i q [] dirty l h b = absurd (omega arith)
mark_dirty-dropped block i zero (k ∷ kept) dirty l h b =
    let none : (k == 0) ≡ true = ground arith in
    let e : i + 0 ≡ i = omega arith in
    let b' = rw e at b in
    rw (none, e)
      (mark_dirty-marked block (suc i) (i / block) kept (set dirty (i / block) 1)
        (rw (length-set dirty (i / block) 1) b') (get_or-set_self dirty (i / block) 1 0 b'))
mark_dirty-dropped block i (suc q) (k ∷ kept) dirty l h b =
    let e : i + suc q ≡ suc i + q = omega arith in
    let b' = rw e at b in
    rw e (elim (Bool-cases (k == 0)) [
      | inl y ↦ rw y (
          mark_dirty-dropped block (suc i) q kept (set dirty (i / block) 1) (omega arith) h
            (rw (length-set dirty (i / block) 1) b'))
      | inr n ↦ rw n (mark_dirty-dropped block (suc i) q kept dirty (omega arith) h b')
    ])

is_dirty-get_or : (dirty : List ℕ) (k : ℕ) → is_dirty dirty k ≡ not (get_or dirty k 0 == 0)
unfolding is_dirty get_or
is_dirty-get_or [] k = refl
is_dirty-get_or (d ∷ ds) k = refl

no_mark : (block n k : ℕ) → is_dirty (mark_dirty block 0 [] (replicate n 0)) k ≡ false
unfolding mark_dirty
no_mark block n k = is_dirty-get_or (replicate n 0) k ∙ rw (get_or-replicate n 0 k) refl

block_of : (block k p : ℕ) → 0 < block → k * block ≤ p → p < k * block + block → p / block ≡ k
block_of block k p pos l u =
    let low : k ≤ p / block = (le-div_iff_mul-le pos).1 l in
    let high : p / block < suc k = (div-lt_iff_lt-mul pos).1 (omega arith) in omega arith

-- For blocks of at least one package that are enough for all packages, and a flag for each
-- package, the loop over the flags marks flags of blocks that agree with them: a block that is not
-- marked keeps all its packages.
pub mark_dirty-AreFlags :
    (view : SnapshotView) (kept : List ℕ)
    → 0 < view.header.search_block_packages
    → view.header.package_count ≤ view.header.search_block_count * view.header.search_block_packages
    → length kept ≡ view.header.package_count
    → AreFlags view kept (
        mark_dirty view.header.search_block_packages 0 kept
          (replicate view.header.search_block_count 0))
mark_dirty-AreFlags view kept pos enough sized =
    let block = view.header.search_block_packages in
    let none : List ℕ = replicate view.header.search_block_count 0 in
    record {
      clean = λ k p l u below unmarked.
          let place : p / block ≡ k = block_of block k p pos l u in
          let few : p / block < length none =
            let bound = (div-lt_iff_lt-mul pos).1 (omega (arith, enough)) in
            rw (length-replicate {A = ℕ} view.header.search_block_count 0) bound in
          rw (keeps-get_or kept p (omega arith)) (elim (Bool-cases (get_or kept p 0 == 0)) [
            | inr e ↦ rw e refl
            | inl e ↦
                let mark =
                  mark_dirty-dropped block 0 p kept none (omega arith) (ground arith)
                    (rw (zero-add p) few) in
                let mark' = rw (zero-add p, place) at mark in
                let seen = is_dirty-get_or (mark_dirty block 0 kept none) k in
                let seen' = rw mark' at seen in cc
          ]);
      given = λ k marked e.
          let marked' = rw e at marked in
          let clear = no_mark block view.header.search_block_count k in cc;
    }
