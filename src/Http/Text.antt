-- ===== src/Http/Text.antt =====
-- The text functions of src/http.cpp: the letters of header names, token lists and query strings.
pub mod Decode
use Prim.Native.Nat.{bit_or}
use aurhub.Base.{
  ℕ, suc, ◌+◌, ◌-◌, ◌*◌, ◌^◌, ◌%◌, Bool, true, false, ◌&&◌, ◌||◌, List, [], ◌∷◌, Option, none, some,
  map, leb, ◌==◌, if◌then◌else◌,
}
use aurhub.Bytes.{Bytes, starts_with, bytes_eq}
use aurhub.Srcinfo.Text.{cons_line, split_at}

-- -1 is `none`.
unfoldable pub hex_value : ℕ → Option ℕ
hex_value ch =
    if leb b'0' ch && leb ch b'9'
    then some (ch - b'0')
    else if leb b'a' ch && leb ch b'f'
    then some (ch - b'a' + 10)
    else if leb b'A' ch && leb ch b'F'
    then some (ch - b'A' + 10)
    else none

unfoldable pub ascii_lower : ℕ → ℕ
ascii_lower ch = if leb b'A' ch && leb ch b'Z' then ch + (b'a' - b'A') else ch

-- The test of the lengths is the clauses with one list empty.
unfoldable pub ascii_iequals : Bytes → Bytes → Bool
unfolding ascii_lower
ascii_iequals [] [] = true
ascii_iequals [] (y ∷ right) = false
ascii_iequals (x ∷ left) [] = false
ascii_iequals (x ∷ left) (y ∷ right) = ascii_lower x == ascii_lower y && ascii_iequals left right

abbrev pub is_ows : ℕ → Bool
is_ows c = c == b' ' || c == 9

-- the first loop of `trim_ows`
unfoldable pub trim_ows_front : Bytes → Bytes
trim_ows_front [] = []
trim_ows_front (c ∷ t) = if is_ows c then trim_ows_front t else c ∷ t

-- the second loop: a byte stays if it is no blank or if something stays behind it
unfoldable pub keep_token : ℕ → Bytes → Bytes
keep_token c [] = if is_ows c then [] else c ∷ []
keep_token c (d ∷ t) = c ∷ d ∷ t

unfoldable pub trim_ows_back : Bytes → Bytes
unfolding keep_token
trim_ows_back [] = []
trim_ows_back (c ∷ t) = keep_token c (trim_ows_back t)

unfoldable pub trim_ows : Bytes → Bytes
unfolding trim_ows_front trim_ows_back
trim_ows value = trim_ows_back (trim_ows_front value)

-- What a loop takes off a text that it cuts at a separator until the text is empty.
unfoldable pub pieces : ℕ → Bytes → List Bytes
unfolding cons_line
pieces separator [] = []
pieces separator (c ∷ t) =
    let rest = pieces separator t in if c == separator then [] ∷ rest else cons_line c rest

unfoldable pub any_token : List Bytes → Bytes → Bool
unfolding ascii_iequals trim_ows
any_token [] wanted = false
any_token (token ∷ tokens) wanted = ascii_iequals (trim_ows token) wanted || any_token tokens wanted

unfoldable pub token_list_contains : Bytes → Bytes → Bool
unfolding pieces any_token
token_list_contains values wanted = any_token (pieces b',' values) wanted

-- the byte of two hexadecimal digits
unfoldable pub hex_byte : ℕ → ℕ → Option ℕ
unfolding hex_value
hex_byte a b = elim (hex_value a) [
  | none ↦ none
  | some high ↦ elim (hex_value b) [
    | none ↦ none
    | some low ↦ some (bit_or (high * 2 ^ 4) low % 2 ^ 8)
  ]
]

abbrev plus_space : ℕ → ℕ
plus_space c = if c == b'+' then b' ' else c

unfoldable pub url_decode : Bytes → Bytes
unfolding hex_byte
url_decode [] = []
url_decode (c ∷ []) = plus_space c ∷ []
url_decode (c ∷ a ∷ []) = plus_space c ∷ url_decode (a ∷ [])
url_decode (c ∷ a ∷ b ∷ t) = elim (c == b'%') [
  | false ↦ plus_space c ∷ url_decode (a ∷ b ∷ t)
  | true ↦ elim (hex_byte a b) [
    | none ↦ c ∷ url_decode (a ∷ b ∷ t)
    | some byte ↦ byte ∷ url_decode t
  ]
]

pub record QueryParam : Type 0 where
  pub key : Bytes
  pub value : Bytes

unfoldable pub make_param : Bytes → QueryParam
unfolding url_decode split_at
make_param part = elim (split_at b'=' part) [
  | none ↦ record { key = url_decode part; value = [] }
  | some (before, after) ↦ record { key = url_decode before; value = url_decode after }
]

unfoldable pub parse_query : Bytes → List QueryParam
unfolding pieces make_param
parse_query query = map make_param (pieces b'&' query)

unfoldable pub query_value : List QueryParam → Bytes → Bytes
query_value [] key = []
query_value (p ∷ params) key =
    let rest = query_value params key in if bytes_eq p.key key then p.value else rest

-- `find` of a text
unfoldable pub find_text : Bytes → Bytes → Option ℕ
find_text [] wanted = if starts_with [] wanted then some 0 else none
find_text (c ∷ text) wanted =
    let rest = find_text text wanted in
    if starts_with (c ∷ text) wanted
    then some 0
    else elim rest [ none ↦ none | some position ↦ some (suc position) ]

-- the digits that `std::from_chars` reads
unfoldable pub leading_digits : Bytes → Bytes
leading_digits [] = []
leading_digits (c ∷ text) =
    let rest = leading_digits text in if leb b'0' c && leb c b'9' then c ∷ rest else []

unfoldable pub digits_value : ℕ → Bytes → ℕ
digits_value value [] = value
digits_value value (c ∷ digits) = digits_value (value * 10 + (c - b'0')) digits
