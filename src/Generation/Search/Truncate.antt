-- ===== src/Generation/Search/Truncate.antt =====
-- The step of the loop of `GenerationView::search` on a list that holds at most so many results.
use aurhub.Base.{
  ℕ, zero, suc, ◌≤◌, ◌≡◌, ◌≢◌, refl, sym, ap, false, not, List, [], ◌∷◌, ltb, length, take,
  take_all, ◌==◌, arith, inl, inr, Bool-cases, if◌then◌else◌,
}
use aurhub.Generation.Search.{insert_at, pop_back}
use aurhub.Generation.Search.Sorted.{insert_sorted}

-- how many elements from the first on lie below
unfoldable pub rank : ℕ → List ℕ → ℕ
rank a [] = 0
rank a (x ∷ xs) = let rest = rank a xs in if ltb x a then suc rest else 0

unfoldable pub step : ℕ → ℕ → List ℕ → List ℕ
unfolding insert_at pop_back rank
step limit a xs =
    if ltb (length xs) limit
    then insert_at (rank a xs) a xs
    else if not (rank a xs == length xs)
    then insert_at (rank a (pop_back xs)) a (pop_back xs)
    else xs

insert_at-rank : (a : ℕ) (xs : List ℕ) → insert_at (rank a xs) a xs ≡ insert_sorted a xs
unfolding insert_at rank insert_sorted
insert_at-rank a [] = refl
insert_at-rank a (x ∷ xs) = elim (Bool-cases (ltb x a)) [
  | inl e ↦ rw e (ap (λ t. x ∷ t) (insert_at-rank a xs))
  | inr e ↦ rw e refl
]

length-insert_sorted : (a : ℕ) (xs : List ℕ) → length (insert_sorted a xs) ≡ suc (length xs)
unfolding insert_sorted
length-insert_sorted a [] = refl
length-insert_sorted a (x ∷ xs) = elim (Bool-cases (ltb x a)) [
  | inl e ↦ rw e (ap suc (length-insert_sorted a xs))
  | inr e ↦ rw e refl
]

take-take : (n : ℕ) (xs : List ℕ) → take n (take (suc n) xs) ≡ take n xs
unfolding take
take-take zero xs = refl
take-take (suc n) [] = refl
take-take (suc n) (x ∷ xs) = ap (λ t. x ∷ t) (take-take n xs)

pop_back-take : (x : ℕ) (xs : List ℕ) → pop_back (x ∷ xs) ≡ take (length xs) (x ∷ xs)
unfolding pop_back take
pop_back-take x [] = refl
pop_back-take x (y ∷ xs) = ap (λ t. x ∷ t) (pop_back-take y xs)

insert_sorted-no_less :
    (a x : ℕ) (xs : List ℕ)
    → ltb x a ≡ false
    → insert_sorted a (pop_back (x ∷ xs)) ≡ a ∷ pop_back (x ∷ xs)
unfolding insert_sorted pop_back
insert_sorted-no_less a x [] e = refl
insert_sorted-no_less a x (y ∷ xs) e = rw e refl

take-insert_last :
    (a : ℕ) (xs : List ℕ) → rank a xs ≡ length xs → take (length xs) (insert_sorted a xs) ≡ xs
unfolding rank insert_sorted take
take-insert_last a [] h = refl
take-insert_last a (x ∷ xs) h = elim (Bool-cases (ltb x a)) [
  | inl e ↦ let h' = rw e at h in rw e (ap (λ t. x ∷ t) (take-insert_last a xs (omega arith)))
  | inr e ↦ let h' = rw e at h in absurd (omega arith)
]

insert_sorted-pop_back :
    (a : ℕ) (xs : List ℕ)
    → rank a xs ≢ length xs
    → insert_sorted a (pop_back xs) ≡ take (length xs) (insert_sorted a xs)
unfolding rank insert_sorted pop_back take
insert_sorted-pop_back a [] h = absurd (h refl)
insert_sorted-pop_back a (x ∷ []) h = elim (Bool-cases (ltb x a)) [
  | inl e ↦ absurd (h (rw e refl))
  | inr e ↦ rw e refl
]
insert_sorted-pop_back a (x ∷ y ∷ xs) h = elim (Bool-cases (ltb x a)) [
  | inl e ↦
      let further : rank a (y ∷ xs) ≢ length (y ∷ xs) = λ p. h (rw e (ap suc p)) in
      rw e (ap (λ t. x ∷ t) (insert_sorted-pop_back a (y ∷ xs) further))
  | inr e ↦ rw e (ap (λ t. a ∷ x ∷ t) (pop_back-take y xs))
]

-- The step is the insertion by order of which the first elements are kept.
pub step-insert_sorted :
    (limit a : ℕ) (xs : List ℕ)
    → length xs ≤ limit
    → step limit a xs ≡ take limit (insert_sorted a xs)
unfolding step
step-insert_sorted limit a xs h = elim (Bool-cases (ltb (length xs) limit)) [
  | inl e ↦
      rw (e, insert_at-rank a xs)
        (sym (take_all limit (insert_sorted a xs) (rw (length-insert_sorted a xs) (ground arith))))
  | inr e ↦
      let full : limit ≡ length xs = ground arith in
      elim (Bool-cases (rank a xs == length xs)) [
        | inl same ↦ rw (e, same, full) (sym (take-insert_last a xs (ground arith)))
        | inr other ↦
            rw (e, other, full, insert_at-rank a (pop_back xs))
              (insert_sorted-pop_back a xs (λ p. ground arith))
      ]
]

take-cons-take : (n x : ℕ) (xs : List ℕ) → take n (x ∷ take n xs) ≡ take n (x ∷ xs)
unfolding take
take-cons-take zero x xs = refl
take-cons-take (suc n) x xs = ap (λ t. x ∷ t) (take-take n xs)

-- What was cut off before does not come back.
pub take-insert_sorted :
    (limit a : ℕ) (xs : List ℕ)
    → take limit (insert_sorted a (take limit xs)) ≡ take limit (insert_sorted a xs)
unfolding take insert_sorted
take-insert_sorted zero a xs = refl
take-insert_sorted (suc n) a [] = refl
take-insert_sorted (suc n) a (x ∷ xs) = elim (Bool-cases (ltb x a)) [
  | inl e ↦ rw e (ap (λ t. x ∷ t) (take-insert_sorted n a xs))
  | inr e ↦ rw e (ap (λ t. a ∷ t) (take-cons-take n x xs))
]
