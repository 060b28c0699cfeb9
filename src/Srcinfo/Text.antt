-- ===== src/Srcinfo/Text.antt =====
-- The lines of the input, `trim` and `unicode_blank`. `std::isspace` is that of the C locale.
use Prim.Native.Char.{code}
use Prim.Native.String.{String}
use aurhub.Base.{
  ℕ, Bool, true, false, ◌&&◌, ◌||◌, List, [], ◌∷◌, Option, none, some, leb, ◌==◌, if◌then◌else◌,
}
use aurhub.Bytes.{Bytes}

-- the bytes of an ASCII literal
abbrev pub codes : String → Bytes
codes String.[] = []
codes (String.◌∷◌ c s) = code c ∷ codes s

abbrev pub is_space : ℕ → Bool
is_space c = c == b' ' || (leb 9 c && leb c 13)

-- the first loop of `trim`
unfoldable pub trim_front : Bytes → Bytes
trim_front [] = []
trim_front (c ∷ t) = if is_space c then trim_front t else c ∷ t

-- the second loop: a byte stays if it is no space or if something stays behind it
unfoldable pub keep_front : ℕ → Bytes → Bytes
keep_front c [] = if is_space c then [] else c ∷ []
keep_front c (d ∷ t) = c ∷ d ∷ t

unfoldable pub trim_back : Bytes → Bytes
unfolding keep_front
trim_back [] = []
trim_back (c ∷ t) = keep_front c (trim_back t)

unfoldable pub trim : Bytes → Bytes
unfolding trim_front trim_back
trim value = trim_back (trim_front value)

-- Only spaces and no-break spaces, which are the bytes 0xc2 0xa0.
unfoldable pub unicode_blank : Bytes → Bool
unicode_blank [] = true
unicode_blank (c ∷ []) = is_space c
unicode_blank (c ∷ d ∷ t) =
    let rest = unicode_blank (d ∷ t) in
    let rest' = unicode_blank t in
    if is_space c then rest else if c == 0xc2 && d == 0xa0 then rest' else false

-- puts a byte in front of the first line
unfoldable pub cons_line : ℕ → List Bytes → List Bytes
cons_line c [] = (c ∷ []) ∷ []
cons_line c (line ∷ lines) = (c ∷ line) ∷ lines

-- The lines that the loop of `parse_srcinfo` takes off the input. A last line may lack its newline,
-- and there is no empty line behind a last newline.
unfoldable pub split_lines : Bytes → List Bytes
unfolding cons_line
split_lines [] = []
split_lines (c ∷ t) =
    let lines = split_lines t in if c == b'\n' then [] ∷ lines else cons_line c lines

-- `find(c)`, with what stands before and behind the byte
unfoldable pub split_at : ℕ → Bytes → Option (Bytes × Bytes)
split_at c [] = none
split_at c (x ∷ t) =
    if x == c
    then some ([], t)
    else (elim (split_at c t) [ none ↦ none | some (before, after) ↦ some (x ∷ before, after) ])
