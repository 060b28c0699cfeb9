-- ===== src/Connection.antt =====
-- src/connection.cpp and src/connection.hpp: the buffers of a connection, and the next request that
-- is taken from them. The answer to a request, `parse_http_request`, is an argument. The events
-- that are registered for the socket are not modelled.
pub mod Bounds
pub mod Served
use aurhub.Base.{
  ℕ, zero, suc, ◌+◌, ◌-◌, ◌*◌, ◌%◌, ◌^◌, Bool, true, false, not, ◌&&◌, ◌||◌, List, [], ◌∷◌, ◌++◌,
  map, Option, none, some, length, take, drop, ltb, leb, ◌==◌, if◌then◌else◌,
}
use aurhub.Bytes.{Bytes, starts_with, is_empty}
use aurhub.Generation.Format.{GenerationView}
use aurhub.Http.Response.{PreparedResponse, closed_response}
use aurhub.Http.Text.{find_text, leading_digits, digits_value, ascii_lower, is_ows}
use aurhub.Srcinfo.Text.{codes}

abbrev pub max_header_bytes : ℕ
max_header_bytes = 64 * 1024

abbrev pub max_buffered_input_bytes : ℕ
max_buffered_input_bytes = 1024 * 1024

pub record Connection : Type 0 where
  pub input : Bytes
  pub input_offset : ℕ
  pub output : Bytes
  pub output_sent : ℕ
  pub external_file_offset : ℕ
  pub external_size : ℕ
  pub external_sent : ℕ
  pub close_after_response : Bool
  pub peer_read_closed : Bool
  pub snapshot_guard : Option GenerationView

unfoldable pub has_response : Connection → Bool
has_response connection = not (is_empty connection.output)

unfoldable pub install_response : Connection → PreparedResponse → Connection
install_response connection response = record connection {
  output = response.bytes;
  output_sent = 0;
  external_file_offset = response.external_file_offset;
  external_size = response.external_size;
  external_sent = 0;
  close_after_response = response.close_after;
  snapshot_guard = response.snapshot_guard;
}

unfoldable pub reset_response : Connection → Connection
reset_response connection = record connection {
  output = [];
  output_sent = 0;
  external_file_offset = 0;
  external_size = 0;
  external_sent = 0;
  close_after_response = false;
  snapshot_guard = none;
}

-- The difference wraps in the source, and is 0 here, where the offset is beyond the input.
unfoldable pub buffered_input_size : Connection → ℕ
buffered_input_size connection = length connection.input - connection.input_offset

unfoldable pub compact_input : Connection → Connection
compact_input connection =
    if connection.input_offset == length connection.input
    then record connection { input = []; input_offset = 0 }
    else if leb (16 * 1024) connection.input_offset
    then record connection {
      input = drop connection.input_offset connection.input;
      input_offset = 0;
    }
    else connection

unfoldable pub skip_ows : Bytes → Bytes
skip_ows [] = []
skip_ows (c ∷ text) = let rest = skip_ows text in if is_ows c then rest else c ∷ text

-- The length that the text after the first "content-length:" of the headers gives. Out of range,
-- `std::from_chars` leaves an error, and the length is 0.
unfoldable pub quick_content_length : Bytes → ℕ
unfolding find_text skip_ows leading_digits digits_value ascii_lower
quick_content_length headers =
    let low = map ascii_lower headers in
    elim (find_text low (codes "content-length:")) [
      | none ↦ 0
      | some position ↦
          let value = digits_value 0 (leading_digits (skip_ows (drop (position + 15) low))) in
          if ltb value (2 ^ 64) then value else 0
    ]

-- the answer to a request that is too large; what is buffered is dropped
unfoldable pub refuse_input : Bytes → Connection → Connection
unfolding install_response closed_response
refuse_input message connection =
    record (install_response connection
      (closed_response 431 (codes "Request Header Fields Too Large") message)) {
        input = [];
        input_offset = 0;
      }

-- the part behind the search for the end of the headers
unfoldable pub prepare_request :
    (Bytes → PreparedResponse) → Connection → Bytes → ℕ → Connection × Bool
unfolding refuse_input quick_content_length install_response compact_input
prepare_request parse_http_request connection input header_end =
    let header_size = header_end + 4 in
    let total_needed = (header_size + quick_content_length (take header_end input)) % 2 ^ 64 in
    if ltb max_header_bytes header_size
    then (refuse_input (codes "request header too large\n") connection, true)
    else if ltb (length input) total_needed
    then (if ltb max_buffered_input_bytes total_needed
        then (refuse_input (codes "too much pipelined input\n") connection, true)
        else (connection, false))
    else (
      install_response
          (compact_input
            (record connection { input_offset = connection.input_offset + total_needed }))
          (parse_http_request (take total_needed input)),
      true,
    )

unfoldable pub prepare_next_response : (Bytes → PreparedResponse) → Connection → Connection × Bool
unfolding has_response find_text refuse_input prepare_request
prepare_next_response parse_http_request connection =
    let input = drop connection.input_offset connection.input in
    if has_response connection
    then (connection, true)
    else elim (find_text input (codes "\r\n\r\n")) [
      | none ↦
          if ltb max_header_bytes (length input)
          then (refuse_input (codes "request header too large\n") connection, true)
          else (connection, false)
      | some header_end ↦ prepare_request parse_http_request connection input header_end
    ]
