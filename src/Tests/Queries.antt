-- ===== src/Tests/Queries.antt =====
-- Query strings and header names.
use aurhub.Base.{◌≡◌, inl, inr, ◌↔◌, refl, true, [], ◌∷◌, ◌++◌, arith}
use aurhub.Bytes.{bytes_eq}
use aurhub.Bytes.Case.{SameText}
use aurhub.Http.Text.{ascii_iequals, url_decode, parse_query, query_value, token_list_contains}
use aurhub.Http.Text.Decode.{
  percent_encode, parse_query-percent_encode, url_decode-percent_encode, ascii_iequals_iff,
}
use aurhub.Srcinfo.Text.{codes}

url_decode-percent_encode_example : url_decode (percent_encode (b'+' ∷ 200 ∷ [])) ≡ b'+' ∷ 200 ∷ []
url_decode-percent_encode_example =
    url_decode-percent_encode (b'+' ∷ 200 ∷ []) (omega arith, (omega arith, tt))

ascii_iequals_iff_example :
    (ascii_iequals (codes "Zip") (codes "zIP") ≡ true) ↔ SameText (codes "Zip") (codes "zIP")
ascii_iequals_iff_example = ascii_iequals_iff (codes "Zip") (codes "zIP")

same_letters : SameText (codes "Zip") (codes "zIP")
same_letters = (inr (inl (omega arith)), (inr (inr (omega arith)), (inr (inr (omega arith)), tt)))

zip_accepted : ascii_iequals (codes "Zip") (codes "zIP") ≡ true
zip_accepted = ascii_iequals_iff_example.1 same_letters

argument : query_value (parse_query (codes "v=5&arg=a%2Bb+c&arg=d")) (codes "arg") ≡ codes "a+b c"
unfolding query_value parse_query bytes_eq
argument = refl

close_token : token_list_contains (codes "keep-alive ,  Close") (codes "close") ≡ true
unfolding token_list_contains
close_token = refl

parse_query-percent_encode_example :
    parse_query (percent_encode (codes "arg") ++ b'=' ∷ percent_encode (codes "a&b"))
    ≡ record { key = codes "arg"; value = codes "a&b" } ∷ []
parse_query-percent_encode_example =
    parse_query-percent_encode (codes "arg") (codes "a&b")
      (omega arith, (omega arith, (omega arith, tt)))
      (omega arith, (omega arith, (omega arith, tt)))
