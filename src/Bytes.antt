-- ===== src/Bytes.antt =====
-- Byte strings, `std::string` and `std::string_view`: a list of bytes, with the standard
-- operations that the sources call on them. Bytes compare as unsigned values.
pub mod Laws
pub mod Case
use aurhub.Base.{
  ℕ, zero, suc, ◌+◌, ◌<◌, Bool, true, false, ◌&&◌, ◌||◌, List, [], ◌∷◌, Option, none, some, ltb,
  ◌==◌, if◌then◌else◌,
}

abbrev pub Bytes : Type 0
Bytes = List ℕ

-- Every element is the value of an `unsigned char`.
abbrev pub AreBytes : Bytes → Type 0
AreBytes [] = Unit
AreBytes (c ∷ cs) = (c < 256) × AreBytes cs

-- `operator==`
unfoldable pub bytes_eq : Bytes → Bytes → Bool
bytes_eq [] [] = true
bytes_eq [] (y ∷ ys) = false
bytes_eq (x ∷ xs) [] = false
bytes_eq (x ∷ xs) (y ∷ ys) = x == y && bytes_eq xs ys

-- `operator<`
unfoldable pub bytes_lt : Bytes → Bytes → Bool
bytes_lt [] [] = false
bytes_lt [] (y ∷ ys) = true
bytes_lt (x ∷ xs) [] = false
bytes_lt (x ∷ xs) (y ∷ ys) = ltb x y || (x == y && bytes_lt xs ys)

-- `empty()`
unfoldable pub is_empty : Bytes → Bool
is_empty [] = true
is_empty (x ∷ xs) = false

-- `starts_with(q)`
unfoldable pub starts_with : Bytes → Bytes → Bool
starts_with t [] = true
starts_with [] (y ∷ q) = false
starts_with (x ∷ t) (y ∷ q) = x == y && starts_with t q

-- `contains(q)`
unfoldable pub contains : Bytes → Bytes → Bool
contains [] q = starts_with [] q
contains (x ∷ t) q = starts_with (x ∷ t) q || contains t q

-- `find(c)`
unfoldable pub find_byte : ℕ → Bytes → Option ℕ
find_byte c [] = none
find_byte c (x ∷ t) =
    if x == c then some 0 else (elim (find_byte c t) [ none ↦ none | some i ↦ some (suc i) ])
