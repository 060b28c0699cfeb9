-- ===== src/Http/Request/Body.antt =====
-- Which requests `parse_http_request` of src/http.cpp routes with a body.
use aurhub.Base.{
  ℕ, ◌+◌, ◌%◌, ◌^◌, ◌≡◌, refl, sym, ap, ◌∙◌, Bool, true, false, not, ◌&&◌, ◌||◌, length, take, drop,
  ltb, ◌==◌, arith, inl, inr, Bool-cases, Option-cases,
}
use aurhub.Bytes.{Bytes, bytes_eq, contains, is_empty}
use aurhub.Srcinfo.Text.{codes}
use aurhub.Http.Text.{find_text}
use aurhub.Http.Response.{ClientConnection}
use aurhub.Http.Request.{
  Parsed, refused, routed, RequestLine, Headers, no_headers, takes_body, parse_line, parse_fields,
  finish_request, parse_headers, parse_request,
}

abbrev pub is_git_post : Bytes → Bytes → Bool
is_git_post method target =
    contains target (codes ".git")
    && bytes_eq method (codes "POST")
    && contains target (codes "git-upload-pack")

unfoldable has_place : Parsed → Bool
has_place (refused status reason message) = true
has_place (routed method target body connection) = is_empty body || is_git_post method target

finish_request-has_place :
    (request : Bytes) (header_end : ℕ) (line : RequestLine) (http11 : Bool) (h : Headers)
    → has_place (finish_request request header_end line http11 h) ≡ true
unfolding finish_request has_place takes_body take is_empty
finish_request-has_place request header_end line http11 h = elim (Bool-cases h.transfer_encoding) [
  | inl coded ↦ rw coded refl
  | inr plain ↦ elim (Bool-cases (h.content_length == 0)) [
    | inl zero_length ↦ let e : h.content_length ≡ 0 = ground arith in rw (plain, e) refl
    | inr long ↦ elim (Bool-cases (takes_body line)) [
      | inr other ↦ rw (plain, long, other) refl
      | inl post ↦
          elim (Bool-cases (ltb (length request) ((header_end + 4 + h.content_length) % 2 ^ 64))) [
            | inl short ↦ rw (plain, long, post, short) refl
            | inr whole ↦
                let b = is_empty (take h.content_length (drop (header_end + 4) request)) in
                rw (plain, long, post, whole)
                  (elim (Bool-cases b) [ inl e ↦ rw e refl | inr e ↦ rw (e, post) refl ])
          ]
    ]
  ]
]

parse_headers-has_place :
    (request : Bytes) (header_end line_end : ℕ) (line : RequestLine)
    → has_place (parse_headers request header_end line_end line) ≡ true
unfolding parse_headers has_place
parse_headers-has_place request header_end line_end line =
    let http11 = bytes_eq line.version (codes "HTTP/1.1") in
    let http10 = bytes_eq line.version (codes "HTTP/1.0") in
    elim (Bool-cases (not http11 && not http10)) [
      | inl other ↦ rw other refl
      | inr known ↦
          elim (Option-cases
            (parse_fields (length request) request header_end (line_end + 2) no_headers)) [
              | inl e ↦ rw (known, e) refl
              | inr (h, e) ↦
                  rw (known, e) (finish_request-has_place request header_end line http11 h)
            ]
    ]

parse_request-has_place : (request : Bytes) → has_place (parse_request request) ≡ true
unfolding parse_request has_place
parse_request-has_place request = elim (Option-cases (find_text request (codes "\r\n\r\n"))) [
  | inl e ↦ rw (e, has_place) refl
  | inr (header_end, e) ↦ elim (Option-cases (find_text request (codes "\r\n"))) [
    | inl f ↦ rw (e, f, has_place) refl
    | inr (line_end, f) ↦ elim (Bool-cases (ltb header_end line_end)) [
      | inl late ↦ rw (e, f, late, has_place) refl
      | inr early ↦ elim (Option-cases (parse_line (take line_end request))) [
        | inl g ↦ rw (e, f, early, g, has_place) refl
        | inr (line, g) ↦
            rw (e, f, early, g, has_place)
              (parse_headers-has_place request header_end line_end line)
      ]
    ]
  ]
]

-- A request that `parse_request` routes with a body that is not empty is a POST to a target with
-- ".git" and "git-upload-pack" in it.
pub parse_request-is_git_post :
    (request method target body : Bytes) (connection : ClientConnection)
    → parse_request request ≡ routed method target body connection
    → is_empty body ≡ false
    → is_git_post method target ≡ true
unfolding has_place
parse_request-is_git_post request method target body connection e some_body =
    let place : has_place (routed method target body connection) ≡ true =
      sym (ap has_place e) ∙ parse_request-has_place request in
    rw some_body at place
