-- ===== src/Connection/Bounds.antt =====
-- The buffers of a connection, src/connection.cpp, between two requests.
use aurhub.Base.{
  ℕ, zero, suc, ◌+◌, ◌-◌, ◌*◌, ◌%◌, ◌^◌, ◌≤◌, ◌≡◌, refl, Bool, true, false, not, [], ◌∷◌, length,
  take, drop, ltb, leb, ◌==◌, arith, inl, inr, Bool-cases, Option-cases,
}
use aurhub.Bytes.{Bytes, is_empty}
use aurhub.Http.Response.{PreparedResponse, closed_response}
use aurhub.Srcinfo.Text.{codes}
use aurhub.Http.Text.{find_text}
use aurhub.Connection.{
  Connection, max_header_bytes, max_buffered_input_bytes, has_response, install_response,
  buffered_input_size, compact_input, quick_content_length, refuse_input, prepare_request,
  prepare_next_response,
}

length-drop : (n : ℕ) (xs : Bytes) → length (drop n xs) ≡ length xs - n
unfolding drop
length-drop zero xs = omega arith
length-drop (suc n) [] = omega arith
length-drop (suc n) (x ∷ xs) = omega (arith, length-drop n xs)

-- What has been taken is part of what has been read.
abbrev pub IsBuffered : Connection → Type 0
IsBuffered c = c.input_offset ≤ length c.input

compact_input-IsBuffered : (c : Connection) → IsBuffered c → IsBuffered (compact_input c)
unfolding compact_input
compact_input-IsBuffered c h = elim (Bool-cases (c.input_offset == length c.input)) [
  | inl e ↦ rw e (omega arith)
  | inr e ↦ elim (Bool-cases (leb (16 * 1024) c.input_offset)) [
    | inl l ↦ rw (e, l) (omega arith)
    | inr l ↦ rw (e, l) h
  ]
]

refuse_input-IsBuffered : (message : Bytes) (c : Connection) → IsBuffered (refuse_input message c)
unfolding refuse_input install_response
refuse_input-IsBuffered message c = omega arith

abbrev answers : Bytes → Bool
answers bytes = not (is_empty bytes)

refuse_input-has_response :
    (message : Bytes) (c : Connection) → has_response (refuse_input message c) ≡ true
unfolding refuse_input install_response has_response closed_response is_empty
refuse_input-has_response message c = refl

install_response-has_response :
    (c : Connection) (r : PreparedResponse)
    → answers r.bytes ≡ true
    → has_response (install_response c r) ≡ true
unfolding install_response has_response
install_response-has_response c r h = h

module _ (parse_http_request : Bytes → PreparedResponse) (c : Connection) where
  -- What holds of the two results.
  abbrev Prepared : Connection × Bool → Type 0
  Prepared r =
      (IsBuffered c → IsBuffered r.0)
      × (r.1 ≡ false → (r.0 ≡ c) × (buffered_input_size c ≤ max_buffered_input_bytes))
      × (((request : Bytes) → answers (parse_http_request request).bytes ≡ true)
          → r.1 ≡ true
          → has_response r.0 ≡ true)

  refused : (message : Bytes) → Prepared (refuse_input message c, true)
  refused message =
      (λ h. refuse_input-IsBuffered message c, λ e. cc, λ a e. refuse_input-has_response message c)

  abbrev input : Bytes
  input = drop c.input_offset c.input

  size : length input ≡ buffered_input_size c
  unfolding buffered_input_size
  size = length-drop c.input_offset c.input

  prepare_request-Prepared :
      (header_end : ℕ) → Prepared (prepare_request parse_http_request c input header_end)
  unfolding prepare_request
  prepare_request-Prepared header_end =
      let total = (header_end + 4 + quick_content_length (take header_end input)) % 2 ^ 64 in
      elim (Bool-cases (ltb max_header_bytes (header_end + 4))) [
        | inl long ↦ rw long (refused (codes "request header too large\n"))
        | inr short ↦ elim (Bool-cases (ltb (length input) total)) [
          | inl part ↦ elim (Bool-cases (ltb max_buffered_input_bytes total)) [
            | inl large ↦ rw (short, part, large) (refused (codes "too much pipelined input\n"))
            | inr small ↦
                let bound : length input ≤ max_buffered_input_bytes = ground arith in
                rw (short, part, small) (λ h. h, λ e. (refl, omega (arith, size, bound)), λ a e. cc)
          ]
          | inr whole ↦
              let part : length input ≡ length c.input - c.input_offset =
                length-drop c.input_offset c.input in
              let enough : total ≤ length input = ground arith in
              rw (short, whole)
                (
                  λ h.
                      compact_input-IsBuffered (record c { input_offset = c.input_offset + total })
                        (omega arith),
                  λ e. cc,
                  λ a e.
                      install_response-has_response
                        (compact_input (record c { input_offset = c.input_offset + total }))
                        (parse_http_request (take total input)) (a (take total input)),
                )
        ]
      ]

  prepared : Prepared (prepare_next_response parse_http_request c)
  unfolding prepare_next_response
  prepared = elim (Bool-cases (has_response c)) [
    | inl old ↦ rw old (λ h. h, λ e. cc, λ a e. old)
    | inr new ↦ elim (Option-cases (find_text input (codes "\r\n\r\n"))) [
      | inr (header_end, e) ↦ rw (new, e) (prepare_request-Prepared header_end)
      | inl e ↦ elim (Bool-cases (ltb max_header_bytes (length input))) [
        | inl long ↦ rw (new, e, long) (refused (codes "request header too large\n"))
        | inr short ↦
            let bound : length input ≤ max_header_bytes = ground arith in
            rw (new, e, short) (λ h. h, λ f. (refl, omega (arith, size, bound)), λ a f. cc)
      ]
    ]
  ]

  -- `prepare_next_response` keeps the offset of the input within the input, so that the size of
  -- what is buffered does not wrap, whatever the answer to the request is.
  pub prepare_next_response-IsBuffered :
      IsBuffered c → IsBuffered (prepare_next_response parse_http_request c).0
  prepare_next_response-IsBuffered = prepared.0

  -- Where `prepare_next_response` waits for more input, it leaves the connection as it is, and no
  -- more is buffered than the limit of a connection.
  pub prepare_next_response-waits :
      (prepare_next_response parse_http_request c).1 ≡ false
      → ((prepare_next_response parse_http_request c).0 ≡ c)
        × (buffered_input_size c ≤ max_buffered_input_bytes)
  prepare_next_response-waits = prepared.1

  -- When no answer to a request is empty, `prepare_next_response` announces a response only where
  -- the connection has one, be it an old one, a refusal or the answer: the server does not stall on
  -- an empty output.
  pub prepare_next_response-has_response :
      ((request : Bytes) → not (is_empty (parse_http_request request).bytes) ≡ true)
      → (prepare_next_response parse_http_request c).1 ≡ true
      → has_response (prepare_next_response parse_http_request c).0 ≡ true
  prepare_next_response-has_response = prepared.2
