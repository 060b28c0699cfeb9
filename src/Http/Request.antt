-- ===== src/Http/Request.antt =====
-- `parse_http_request` of src/http.cpp. The routes, `route_request`, are an argument.
pub mod Body
pub mod Fuel
use aurhub.Base.{
  ℕ, zero, suc, ◌+◌, ◌-◌, ◌%◌, ◌^◌, Bool, true, false, not, ◌&&◌, ◌||◌, List, [], ◌∷◌, Option, none,
  some, length, take, drop, ltb, leb, ◌==◌, if◌then◌else◌,
}
use aurhub.Bytes.{Bytes, bytes_eq, is_empty, contains, find_byte}
use aurhub.Http.Text.{
  ascii_iequals, trim_ows, is_ows, token_list_contains, find_text, leading_digits, digits_value,
}
use aurhub.Http.Response.{ClientConnection, PreparedResponse, closed_response}
use aurhub.Srcinfo.Text.{codes}

pub record RequestLine : Type 0 where
  pub method : Bytes
  pub target : Bytes
  pub version : Bytes

-- `find(byte, position)`
unfoldable pub find_from : ℕ → ℕ → Bytes → Option ℕ
unfolding find_byte
find_from byte position text = elim (find_byte byte (drop position text)) [
  | none ↦ none
  | some i ↦ some (position + i)
]

-- the two spaces of the line and what stands around them
unfoldable pub parse_line : Bytes → Option RequestLine
unfolding find_from
parse_line line = elim (find_byte b' ' line) [
  | none ↦ none
  | some first_space ↦ elim (find_from b' ' (first_space + 1) line) [
    | none ↦ none
    | some second_space ↦
        if (elim (find_from b' ' (second_space + 1) line) [ none ↦ false | some third ↦ true ])
          || first_space == 0
          || second_space == first_space + 1
          || second_space + 1 == length line
        then none
        else some (record {
          method = take first_space line;
          target = take (second_space - first_space - 1) (drop (first_space + 1) line);
          version = drop (second_space + 1) line;
        })
  ]
]

-- The locals of the loop over the header fields.
pub record Headers : Type 0 where
  pub connection_close : Bool
  pub connection_keep_alive : Bool
  pub content_length_seen : Bool
  pub content_length : ℕ
  pub transfer_encoding : Bool

abbrev pub no_headers : Headers
no_headers = record {
  connection_close = false;
  connection_keep_alive = false;
  content_length_seen = false;
  content_length = 0;
  transfer_encoding = false;
}

-- A number of 64 bits that is the whole value.
unfoldable pub parse_length : Bytes → Option ℕ
unfolding leading_digits digits_value
parse_length value =
    if is_empty value
      || not (bytes_eq (leading_digits value) value)
      || leb (2 ^ 64) (digits_value 0 value)
    then none
    else some (digits_value 0 value)

-- a field of which the name is that of a field that matters
unfoldable pub read_field : Bytes → Bytes → Headers → Option Headers
unfolding parse_length ascii_iequals token_list_contains
read_field name value h =
    if ascii_iequals name (codes "connection")
    then some (record h {
      connection_close = h.connection_close || token_list_contains value (codes "close");
      connection_keep_alive =
          h.connection_keep_alive || token_list_contains value (codes "keep-alive");
    })
    else if ascii_iequals name (codes "content-length")
    then elim (parse_length value) [
      | none ↦ none
      | some parsed_length ↦
          if h.content_length_seen && not (parsed_length == h.content_length)
          then none
          else some (record h { content_length_seen = true; content_length = parsed_length })
    ]
    else if ascii_iequals name (codes "transfer-encoding")
    then some (record h { transfer_encoding = not (is_empty value) })
    else some h

unfoldable pub starts_blank : Bytes → Bool
starts_blank [] = false
starts_blank (c ∷ header) = is_ows c

unfoldable pub parse_field : Bytes → Headers → Option Headers
unfolding read_field starts_blank trim_ows
parse_field header h = elim (find_byte b':' header) [
  | none ↦ none
  | some colon ↦
      if colon == 0 || starts_blank header
      then none
      else read_field (take colon header) (trim_ows (drop (colon + 1) header)) h
]

-- Every field takes at least two bytes, so the length of the request is enough fuel.
unfoldable pub parse_fields : ℕ → Bytes → ℕ → ℕ → Headers → Option Headers
unfolding parse_field find_text
parse_fields zero request header_end offset h = some h
parse_fields (suc fuel) request header_end offset h =
    if ltb offset header_end
    then elim (find_text (drop offset request) (codes "\r\n")) [
      | none ↦ none
      | some size ↦
          if ltb header_end (offset + size)
          then none
          else elim (parse_field (take size (drop offset request)) h) [
            | none ↦ none
            | some next ↦ parse_fields fuel request header_end (offset + size + 2) next
          ]
    ]
    else some h

-- What is done with a request: it is refused, or routed.
pub data Parsed : Type 0 where
  refused : ℕ → Bytes → Bytes → Parsed
  routed : Bytes → Bytes → Bytes → ClientConnection → Parsed

abbrev pub bad_request : Bytes → Parsed
bad_request message = refused 400 (codes "Bad Request") message

-- whether the connection is kept
unfoldable pub kept_connection : Bool → Headers → ClientConnection
kept_connection http11 h =
    if h.connection_close
    then ClientConnection.close
    else if http11
    then ClientConnection.implicit_keep_alive
    else if h.connection_keep_alive
    then ClientConnection.explicit_keep_alive
    else ClientConnection.close

-- `is_git && method == "POST" && ...`
unfoldable pub takes_body : RequestLine → Bool
unfolding bytes_eq contains
takes_body line =
    contains line.target (codes ".git")
    && bytes_eq line.method (codes "POST")
    && contains line.target (codes "git-upload-pack")

-- the part behind the header fields
unfoldable pub finish_request : Bytes → ℕ → RequestLine → Bool → Headers → Parsed
unfolding takes_body kept_connection
finish_request request header_end line http11 h =
    if h.transfer_encoding
    then bad_request (codes "request bodies are not supported\n")
    else if not (h.content_length == 0) && not (takes_body line)
    then bad_request (codes "request bodies are not supported\n")
    else if not (h.content_length == 0)
        && ltb (length request) ((header_end + 4 + h.content_length) % 2 ^ 64)
    then bad_request (codes "incomplete body\n")
    else routed line.method line.target (take h.content_length (drop (header_end + 4) request))
        (kept_connection http11 h)

-- the part behind the request line
unfoldable pub parse_headers : Bytes → ℕ → ℕ → RequestLine → Parsed
unfolding parse_fields finish_request bytes_eq
parse_headers request header_end line_end line =
    let http11 = bytes_eq line.version (codes "HTTP/1.1") in
    let http10 = bytes_eq line.version (codes "HTTP/1.0") in
    if not http11 && not http10
    then refused 505 (codes "HTTP Version Not Supported") (codes "HTTP version not supported\n")
    else elim (parse_fields (length request) request header_end (line_end + 2) no_headers) [
      | none ↦ bad_request (codes "bad request\n")
      | some h ↦ finish_request request header_end line http11 h
    ]

unfoldable pub parse_request : Bytes → Parsed
unfolding parse_line parse_headers find_text
parse_request request = elim (find_text request (codes "\r\n\r\n")) [
  | none ↦ bad_request (codes "bad request\n")
  | some header_end ↦ elim (find_text request (codes "\r\n")) [
    | none ↦ bad_request (codes "bad request\n")
    | some line_end ↦
        if ltb header_end line_end
        then bad_request (codes "bad request\n")
        else elim (parse_line (take line_end request)) [
          | none ↦ bad_request (codes "bad request\n")
          | some line ↦ parse_headers request header_end line_end line
        ]
  ]
]

unfoldable pub parse_http_request :
    (Bytes → Bytes → Bytes → ClientConnection → PreparedResponse) → Bytes → PreparedResponse
unfolding parse_request closed_response
parse_http_request route_request request = elim (parse_request request) [
  | refused status reason message ↦ closed_response status reason message
  | routed method target body connection ↦ route_request method target body connection
]
