-- ===== src/Http/Request/Fuel.antt =====
-- The loop of `parse_http_request` of src/http.cpp over the header fields ends.
use aurhub.Base.{
  ℕ, zero, suc, ◌+◌, ◌≤◌, ◌≡◌, refl, sym, false, [], ◌∷◌, some, length, take, drop, ltb, arith, inl,
  inr, Bool-cases, Option-cases,
}
use aurhub.Bytes.{Bytes, starts_with}
use aurhub.Srcinfo.Text.{codes}
use aurhub.Http.Text.{find_text}
use aurhub.Http.Request.{Headers, parse_field, parse_fields}

parse_fields-stops :
    (fuel : ℕ) (request : Bytes) (header_end offset : ℕ) (h : Headers)
    → header_end ≤ offset
    → parse_fields fuel request header_end offset h ≡ some h
unfolding parse_fields
parse_fields-stops zero request header_end offset h le = refl
parse_fields-stops (suc fuel) request header_end offset h le =
    let e : ltb offset header_end ≡ false = ground arith in rw e refl

parse_fields-agree :
    (fuel other : ℕ) (request : Bytes) (header_end offset : ℕ) (h : Headers)
    → header_end ≤ offset + fuel
    → header_end ≤ offset + other
    → parse_fields fuel request header_end offset h ≡ parse_fields other request header_end offset h
unfolding parse_fields
parse_fields-agree zero other request header_end offset h le other_le =
    sym (parse_fields-stops other request header_end offset h (omega arith))
parse_fields-agree (suc fuel) zero request header_end offset h le other_le =
    parse_fields-stops (suc fuel) request header_end offset h (omega arith)
parse_fields-agree (suc fuel) (suc other) request header_end offset h le other_le =
    elim (Bool-cases (ltb offset header_end)) [
      | inr done ↦ rw done refl
      | inl more ↦ elim (Option-cases (find_text (drop offset request) (codes "\r\n"))) [
        | inl e ↦ rw (more, e) refl
        | inr (size, e) ↦ elim (Bool-cases (ltb header_end (offset + size))) [
          | inl late ↦ rw (more, e, late) refl
          | inr early ↦ elim (Option-cases (parse_field (take size (drop offset request)) h)) [
            | inl f ↦ rw (more, e, early, f) refl
            | inr (next, f) ↦
                rw (more, e, early, f)
                  (parse_fields-agree fuel other request header_end (offset + size + 2) next
                    (omega arith) (omega arith))
          ]
        ]
      ]
    ]

find_text-inside :
    (text wanted : Bytes) (position : ℕ)
    → find_text text wanted ≡ some position
    → position ≤ length text
unfolding find_text
find_text-inside [] wanted position e = elim (Bool-cases (starts_with [] wanted)) [
  | inl here ↦ let e' = rw here at e in let same : 0 ≡ position = cc in omega arith
  | inr away ↦ let e' = rw away at e in cc
]
find_text-inside (c ∷ text) wanted position e = elim (Bool-cases (starts_with (c ∷ text) wanted)) [
  | inl here ↦ let e' = rw here at e in let same : 0 ≡ position = cc in omega arith
  | inr away ↦ elim (Option-cases (find_text text wanted)) [
    | inl f ↦ let e' = rw (away, f) at e in cc
    | inr (i, f) ↦
        let e' = rw (away, f) at e in
        let same : suc i ≡ position = cc in omega (arith, find_text-inside text wanted i f)
  ]
]

-- With the length of the request as its fuel, the loop over the header fields does not run out of
-- it: any fuel of at least as many steps as there are bytes in the fields gives the same result.
pub parse_fields-ends :
    (request : Bytes) (header_end offset fuel : ℕ) (h : Headers)
    → find_text request (codes "\r\n\r\n") ≡ some header_end
    → header_end ≤ offset + fuel
    → parse_fields (length request) request header_end offset h
      ≡ parse_fields fuel request header_end offset h
parse_fields-ends request header_end offset fuel h e le =
    parse_fields-agree (length request) fuel request header_end offset h
      (omega (arith, find_text-inside request (codes "\r\n\r\n") header_end e)) le
