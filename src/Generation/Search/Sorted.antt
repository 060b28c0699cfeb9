-- ===== src/Generation/Search/Sorted.antt =====
-- Lists of indices: insertion by order, and what it makes of the indices of a range.
use aurhub.Base.{
  ℕ, zero, suc, ◌+◌, ◌≤◌, ◌<◌, ◌≡◌, refl, ap, ◌∙◌, Bool, true, false, ◌&&◌, ◌||◌, List, [], ◌∷◌,
  ltb, arith, inl, inr, Bool-cases, if◌then◌else◌,
}
use aurhub.Search.Hits.{hits}

-- every element lies above
abbrev pub AllAbove : ℕ → List ℕ → Type 0
AllAbove low [] = Unit
AllAbove low (x ∷ xs) = (low < x) × AllAbove low xs

abbrev pub AllBelow : ℕ → List ℕ → Type 0
AllBelow high [] = Unit
AllBelow high (x ∷ xs) = (x < high) × AllBelow high xs

-- the elements that pass
unfoldable pub select : (ℕ → Bool) → List ℕ → List ℕ
select f [] = []
select f (x ∷ xs) = let rest = select f xs in if f x then x ∷ rest else rest

unfoldable pub insert_sorted : ℕ → List ℕ → List ℕ
insert_sorted a [] = a ∷ []
insert_sorted a (x ∷ xs) = let rest = insert_sorted a xs in if ltb x a then x ∷ rest else a ∷ x ∷ xs

-- `add_all es xs` inserts the first list into the second.
unfoldable pub add_all : List ℕ → List ℕ → List ℕ
unfolding insert_sorted
add_all [] xs = xs
add_all (e ∷ es) xs = add_all es (insert_sorted e xs)

pub AllAbove-trans : (a b : ℕ) (xs : List ℕ) → a ≤ b → AllAbove b xs → AllAbove a xs
AllAbove-trans a b [] h p = tt
AllAbove-trans a b (x ∷ xs) h (p, q) = (omega arith, AllAbove-trans a b xs h q)

pub select-AllAbove :
    (f : ℕ → Bool) (low : ℕ) (xs : List ℕ) → AllAbove low xs → AllAbove low (select f xs)
unfolding select
select-AllAbove f low [] h = tt
select-AllAbove f low (x ∷ xs) (p, q) = elim (Bool-cases (f x)) [
  | inl e ↦ rw e (p, select-AllAbove f low xs q)
  | inr e ↦ rw e (select-AllAbove f low xs q)
]

pub select-AllBelow :
    (f : ℕ → Bool) (high : ℕ) (xs : List ℕ) → AllBelow high xs → AllBelow high (select f xs)
unfolding select
select-AllBelow f high [] h = tt
select-AllBelow f high (x ∷ xs) (p, q) = elim (Bool-cases (f x)) [
  | inl e ↦ rw e (p, select-AllBelow f high xs q)
  | inr e ↦ rw e (select-AllBelow f high xs q)
]

pub insert_sorted-AllBelow :
    (high a : ℕ) (xs : List ℕ) → a < high → AllBelow high xs → AllBelow high (insert_sorted a xs)
unfolding insert_sorted
insert_sorted-AllBelow high a [] l h = (l, tt)
insert_sorted-AllBelow high a (x ∷ xs) l (p, q) = elim (Bool-cases (ltb x a)) [
  | inl e ↦ rw e (p, insert_sorted-AllBelow high a xs l q)
  | inr e ↦ rw e (l, (p, q))
]

-- what lies above everything comes first
pub insert_sorted-first : (a : ℕ) (xs : List ℕ) → AllAbove a xs → insert_sorted a xs ≡ a ∷ xs
unfolding insert_sorted
insert_sorted-first a [] h = refl
insert_sorted-first a (x ∷ xs) (p, q) =
    let no_less : ltb x a ≡ false = ground arith in rw no_less refl

pub add_all-first :
    (a : ℕ) (es xs : List ℕ) → AllAbove a es → add_all es (a ∷ xs) ≡ a ∷ add_all es xs
unfolding add_all insert_sorted
add_all-first a [] xs h = refl
add_all-first a (e ∷ es) xs (p, q) =
    let less : ltb a e ≡ true = ground arith in rw less (add_all-first a es (insert_sorted e xs) q)

pub hits-AllAbove :
    (f : ℕ → Bool) (low index left : ℕ) → low < index → AllAbove low (hits f index left)
unfolding hits
hits-AllAbove f low index zero h = tt
hits-AllAbove f low index (suc left) h =
    let rest = hits-AllAbove f low (suc index) left (omega arith) in
    elim (Bool-cases (f index)) [ inl e ↦ rw e (h, rest) | inr e ↦ rw e rest ]

pub hits-AllBelow :
    (f : ℕ → Bool) (high index left : ℕ) → index + left ≤ high → AllBelow high (hits f index left)
unfolding hits
hits-AllBelow f high index zero h = tt
hits-AllBelow f high index (suc left) h =
    let rest = hits-AllBelow f high (suc index) left (omega arith) in
    elim (Bool-cases (f index)) [ inl e ↦ rw e (omega arith, rest) | inr e ↦ rw e rest ]

pub select-hits :
    (f g : ℕ → Bool) (index left : ℕ)
    → select f (hits g index left) ≡ hits (λ p. g p && f p) index left
unfolding hits select
select-hits f g index zero = refl
select-hits f g index (suc left) = elim (Bool-cases (g index)) [
  | inl e ↦ rw (e, select-hits f g (suc index) left) refl
  | inr e ↦ rw (e, select-hits f g (suc index) left) refl
]

-- The indices of a range that pass either of two tests that no index passes both.
pub add_all-hits :
    (f g : ℕ → Bool) (index left : ℕ)
    → ((p : ℕ) → f p ≡ true → g p ≡ false)
    → add_all (hits f index left) (hits g index left) ≡ hits (λ p. f p || g p) index left
unfolding hits add_all
add_all-hits f g index zero apart = refl
add_all-hits f g index (suc left) apart =
    let rest = add_all-hits f g (suc index) left apart in
    let above : (h : ℕ → Bool) → AllAbove index (hits h (suc index) left) =
      λ h. hits-AllAbove h index (suc index) left (omega arith) in
    elim (Bool-cases (f index)) [
      | inl e ↦
          rw (e, apart index e)
            (ap (add_all (hits f (suc index) left))
                (insert_sorted-first index (hits g (suc index) left) (above g))
              ∙ add_all-first index (hits f (suc index) left) (hits g (suc index) left) (above f)
              ∙ ap (λ t. index ∷ t) rest)
      | inr e ↦ elim (Bool-cases (g index)) [
        | inl e' ↦
            rw (e, e')
              (add_all-first index (hits f (suc index) left) (hits g (suc index) left) (above f)
                ∙ ap (λ t. index ∷ t) rest)
        | inr e' ↦ rw (e, e') rest
      ]
    ]
