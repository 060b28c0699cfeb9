-- ===== src/Bytes/Case.antt =====
-- Texts that differ only in the case of ASCII letters, for the loops that lower them.
use aurhub.Base.{
  ℕ, ◌+◌, ◌-◌, ◌≤◌, ◌≡◌, ◌↔◌, ◌⊎◌, inl, inr, refl, ap, true, ◌&&◌, [], ◌∷◌, ◌++◌, map, leb, ==_iff,
  Bool-cases, if◌then◌else◌, arith, and_both,
}
use aurhub.Bytes.{Bytes, starts_with, contains}

-- The first is the capital letter of the second.
abbrev pub IsCapitalOf : ℕ → ℕ → Type 0
IsCapitalOf x y = (b'A' ≤ x) × (x ≤ b'Z') × (y ≡ x + 32)

abbrev pub SameLetter : ℕ → ℕ → Type 0
SameLetter x y = (x ≡ y) ⊎ (IsCapitalOf x y ⊎ IsCapitalOf y x)

abbrev pub SameText : Bytes → Bytes → Type 0
SameText [] [] = Unit
SameText [] (y ∷ right) = ⊥
SameText (x ∷ left) [] = ⊥
SameText (x ∷ left) (y ∷ right) = SameLetter x y × SameText left right

-- A part of the text is the query, but for the case of letters.
abbrev pub HasText : Bytes → Bytes → Type 0
HasText text query =
    (before : Bytes) × (piece : Bytes) × (after : Bytes) × (text ≡ before ++ (piece ++ after))
    × SameText piece query

-- Two bytes have the same result exactly when they are the same letter.
abbrev pub Lowers : (ℕ → ℕ) → Type 0
Lowers low = (x y : ℕ) → (low x ≡ low y) ↔ SameLetter x y

unfoldable pub lowered : ℕ → ℕ
lowered c = if leb b'A' c && leb c b'Z' then c + (b'a' - b'A') else c

pub lowered-Lowers : Lowers lowered
unfolding lowered
lowered-Lowers x y = (λ e. ground arith, λ s. ground arith)

module _ (low : ℕ → ℕ) (lowers : Lowers low) where
  starts_with-lowered :
      (text query : Bytes)
      → starts_with (map low text) (map low query) ≡ true
      → (piece : Bytes) × (after : Bytes) × (text ≡ piece ++ after) × SameText piece query
  unfolding starts_with
  starts_with-lowered text [] h = ([], text, refl, tt)
  starts_with-lowered [] (y ∷ query) h = cc
  starts_with-lowered (x ∷ text) (y ∷ query) h =
      let (first, rest) = and_both _ _ h in
      let (piece, after, e, same) = starts_with-lowered text query rest in
      (
        x ∷ piece,
        after,
        ap (λ t. x ∷ t) e,
        ((lowers x y).0 ((==_iff (low x) (low y)).0 first), same),
      )

  lowered-starts_with :
      (piece after query : Bytes)
      → SameText piece query
      → starts_with (map low (piece ++ after)) (map low query) ≡ true
  unfolding starts_with
  lowered-starts_with [] [] [] same = refl
  lowered-starts_with [] (x ∷ after) [] same = refl
  lowered-starts_with [] after (y ∷ query) same = absurd same
  lowered-starts_with (x ∷ piece) after [] same = absurd same
  lowered-starts_with (x ∷ piece) after (y ∷ query) (first, same) =
      let e = (==_iff (low x) (low y)).1 ((lowers x y).1 first) in
      rw e (lowered-starts_with piece after query same)

  contains-lowered :
      (text query : Bytes) → contains (map low text) (map low query) ≡ true → HasText text query
  unfolding contains
  contains-lowered [] query h =
      let (piece, after, e, same) = starts_with-lowered [] query h in ([], piece, after, e, same)
  contains-lowered (x ∷ text) query h =
      elim (Bool-cases (starts_with (low x ∷ map low text) (map low query))) [
        | inl here ↦
            let (piece, after, e, same) = starts_with-lowered (x ∷ text) query here in
            ([], piece, after, e, same)
        | inr away ↦
            let (before, piece, after, e, same) = contains-lowered text query (rw away at h) in
            (x ∷ before, piece, after, ap (λ t. x ∷ t) e, same)
      ]

  lowered-contains :
      (before rest query : Bytes)
      → starts_with (map low rest) (map low query) ≡ true
      → contains (map low (before ++ rest)) (map low query) ≡ true
  unfolding contains
  lowered-contains [] [] query h = h
  lowered-contains [] (x ∷ rest) query h = rw h refl
  lowered-contains (x ∷ before) rest query h = ground (arith, lowered-contains before rest query h)

  pub contains-lowered_iff :
      (text query : Bytes) → (contains (map low text) (map low query) ≡ true) ↔ HasText text query
  contains-lowered_iff text query = (
    contains-lowered text query,
    λ found.
        let (before, piece, after, e, same) = found in
        rw e (
          lowered-contains before (piece ++ after) query
            (lowered-starts_with piece after query same)),
  )
