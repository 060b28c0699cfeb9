-- ===== src/Http/Text/Decode.antt =====
-- `url_decode` and `parse_query` of src/http.cpp against a percent encoding, and `ascii_iequals`.
use aurhub.Base.{
  ℕ, false, zero, suc, ◌++◌, ◌+◌, ◌-◌, ◌/◌, ◌%◌, ◌<◌, ◌≡◌, ◌↔◌, refl, ap, Bool, true, ◌&&◌, [], ◌∷◌,
  Option, none, some, ltb, ◌==◌, ==_iff, arith, if◌then◌else◌, and_both, ◌∙◌, inl, inr,
  Option-cases,
}
use aurhub.Bytes.{Bytes, AreBytes}
use aurhub.Bytes.Case.{SameText, Lowers, lowered, lowered-Lowers}
use aurhub.Srcinfo.Text.{split_at, cons_line}
use aurhub.Http.Text.{
  pieces, parse_query, make_param, hex_byte, url_decode, ascii_lower, ascii_iequals,
}

-- a digit of the upper case encoding
unfoldable hex_digit : ℕ → ℕ
hex_digit d = if ltb d 10 then b'0' + d else b'A' + (d - 10)

-- Every byte is written as a percent sign and two digits.
unfoldable pub percent_encode : Bytes → Bytes
unfolding hex_digit
percent_encode [] = []
percent_encode (c ∷ t) = b'%' ∷ hex_digit (c / 16) ∷ hex_digit (c % 16) ∷ percent_encode t

given : Option ℕ → ℕ
given none = 256
given (some n) = n

decodes_below : ℕ → Bool
decodes_below zero = true
decodes_below (suc c) =
    given (hex_byte (hex_digit (c / 16)) (hex_digit (c % 16))) == c && decodes_below c

table : decodes_below 256 ≡ true
unfolding decodes_below given hex_byte hex_digit
table = refl

decodes_sound :
    (n c : ℕ)
    → decodes_below n ≡ true
    → c < n
    → given (hex_byte (hex_digit (c / 16)) (hex_digit (c % 16))) ≡ c
unfolding decodes_below
decodes_sound zero c h l = absurd (omega arith)
decodes_sound (suc n) c h l = ground (arith, decodes_sound n c)

hex_byte-digits : (c : ℕ) → c < 256 → hex_byte (hex_digit (c / 16)) (hex_digit (c % 16)) ≡ some c
unfolding given
hex_byte-digits c l =
    let sound = decodes_sound 256 c table l in
    elim (Option-cases (hex_byte (hex_digit (c / 16)) (hex_digit (c % 16)))) [
      | inl e ↦ absurd (omega (arith, rw e at sound))
      | inr (b, e) ↦ e ∙ ap some (rw e at sound)
    ]

-- `url_decode` is a left inverse of the percent encoding of byte strings.
pub url_decode-percent_encode :
    (text : Bytes) → AreBytes text → url_decode (percent_encode text) ≡ text
unfolding url_decode percent_encode
url_decode-percent_encode [] bytes = refl
url_decode-percent_encode (c ∷ t) (small, bytes) =
    rw (url_decode, hex_byte-digits c small) (ap (◌∷◌ c) (url_decode-percent_encode t bytes))

ascii_lower-Lowers : Lowers ascii_lower
unfolding ascii_lower lowered
ascii_lower-Lowers = lowered-Lowers

-- `ascii_iequals` accepts two texts if and only if they have the same bytes in the same order, but
-- for the case of ASCII letters.
pub ascii_iequals_iff :
    (left right : Bytes) → (ascii_iequals left right ≡ true) ↔ SameText left right
unfolding ascii_iequals
ascii_iequals_iff [] [] = (λ h. tt, λ e. refl)
ascii_iequals_iff [] (y ∷ right) = (λ h. cc, λ e. absurd e)
ascii_iequals_iff (x ∷ left) [] = (λ h. cc, λ e. absurd e)
ascii_iequals_iff (x ∷ left) (y ∷ right) =
    let (to, from) = ascii_iequals_iff left right in
    let (lowers, raises) = ascii_lower-Lowers x y in
    let (equal, equals) = ==_iff (ascii_lower x) (ascii_lower y) in
    (
      λ h. let (first, rest) = and_both _ _ h in (lowers (equal first), to rest),
      λ (letter, same). rw (equals (raises letter), from same) refl,
    )

-- No byte is the separator.
abbrev Lacks : ℕ → Bytes → Type 0
Lacks separator [] = Unit
Lacks separator (c ∷ t) = ((c == separator) ≡ false) × Lacks separator t

Lacks-append :
    (separator : ℕ) (a b : Bytes) → Lacks separator a → Lacks separator b → Lacks separator (a ++ b)
Lacks-append separator [] b p q = q
Lacks-append separator (x ∷ a) b (first, p) q = (first, Lacks-append separator a b p q)

pieces-Lacks :
    (separator c : ℕ) (t : Bytes)
    → Lacks separator (c ∷ t)
    → pieces separator (c ∷ t) ≡ (c ∷ t) ∷ []
unfolding pieces cons_line
pieces-Lacks separator c [] (first, rest) = rw first refl
pieces-Lacks separator c (d ∷ t) (first, rest) = rw (pieces-Lacks separator d t rest, first) refl

pieces-append :
    (separator c : ℕ) (a b : Bytes)
    → Lacks separator (a ++ c ∷ b)
    → pieces separator (a ++ c ∷ b) ≡ (a ++ c ∷ b) ∷ []
pieces-append separator c [] b h = pieces-Lacks separator c b h
pieces-append separator c (x ∷ a) b h = pieces-Lacks separator x (a ++ c ∷ b) h

split_at-Lacks : (c : ℕ) (a b : Bytes) → Lacks c a → split_at c (a ++ c ∷ b) ≡ some (a, b)
unfolding split_at
split_at-Lacks c [] b p = rw ((==_iff c c).1 refl) refl
split_at-Lacks c (x ∷ a) b (first, p) = rw (first, split_at-Lacks c a b p) refl

hex_digit-bounds :
    (d : ℕ) → d < 16 → (47 < hex_digit d) × (hex_digit d < 71) × ((hex_digit d == b'=') ≡ false)
unfolding hex_digit
hex_digit-bounds d h = (ground arith, ground arith, ground arith)

percent_encode-Lacks :
    (text : Bytes)
    → AreBytes text
    → Lacks b'&' (percent_encode text) × Lacks b'=' (percent_encode text)
unfolding percent_encode
percent_encode-Lacks [] bytes = (tt, tt)
percent_encode-Lacks (c ∷ t) (small, bytes) =
    let (rest, rest') = percent_encode-Lacks t bytes in
    let (l, u, e) = hex_digit-bounds (c / 16) (omega arith) in
    let (l', u', e') = hex_digit-bounds (c % 16) (omega arith) in
    ((refl, (ground arith, (ground arith, rest))), (refl, (e, (e', rest'))))

-- A query string of one parameter, its key and value percent encoded, is parsed into that
-- parameter, for byte strings.
pub parse_query-percent_encode :
    (key value : Bytes)
    → AreBytes key
    → AreBytes value
    → parse_query (percent_encode key ++ b'=' ∷ percent_encode value)
      ≡ record { key = key; value = value } ∷ []
unfolding parse_query make_param
parse_query-percent_encode key value key_bytes value_bytes =
    let k = percent_encode key in
    let v = percent_encode value in
    let (k_amp, k_eq) = percent_encode-Lacks key key_bytes in
    let whole =
      Lacks-append b'&' k (b'=' ∷ v) k_amp (refl, (percent_encode-Lacks value value_bytes).0) in
    rw
      (
        pieces-append b'&' b'=' k v whole,
        make_param,
        split_at-Lacks b'=' k v k_eq,
        url_decode-percent_encode key key_bytes,
        url_decode-percent_encode value value_bytes,
      )
      refl
