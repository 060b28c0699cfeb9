-- ===== src/Tests/Connecting.antt =====
-- A connection with one whole request and the beginning of another one.
use aurhub.Base.{◌*◌, ◌≤◌, ◌≡◌, refl, true, false, not, [], none, arith, take, drop}
use aurhub.Bytes.{Bytes, is_empty, starts_with}
use aurhub.Http.Response.{ClientConnection, PreparedResponse, closed_response}
use aurhub.Http.Request.{parse_http_request}
use aurhub.Connection.Served.{Route, prepare_next_response-parse_http_request}
use aurhub.Srcinfo.Text.{codes}
use aurhub.Connection.{
  Connection, has_response, buffered_input_size, quick_content_length, prepare_next_response,
}
use aurhub.Connection.Bounds.{
  IsBuffered, prepare_next_response-IsBuffered, prepare_next_response-waits,
  prepare_next_response-has_response,
}

-- the answer of this test to every request
abbrev answered : Bytes → PreparedResponse
answered request = closed_response 404 (codes "Not Found") (codes "not found\n")

abbrev reading : Bytes → Connection
reading input = record {
  input = input;
  input_offset = 0;
  output = [];
  output_sent = 0;
  external_file_offset = 0;
  external_size = 0;
  external_sent = 0;
  close_after_response = false;
  peer_read_closed = false;
  snapshot_guard = none;
}

abbrev two_requests : Connection
two_requests = reading (codes "GET / HTTP/1.1\r\n\r\nGET /h")

abbrev half_request : Connection
half_request = reading (codes "GET / HT")

prepare_next_response-IsBuffered_example :
    IsBuffered (prepare_next_response answered two_requests).0
prepare_next_response-IsBuffered_example =
    prepare_next_response-IsBuffered answered two_requests (omega arith)

waiting : (prepare_next_response answered half_request).1 ≡ false
unfolding prepare_next_response is_empty starts_with drop
waiting = refl

prepare_next_response-waits_example :
    ((prepare_next_response answered half_request).0 ≡ half_request)
    × (buffered_input_size half_request ≤ 1024 * 1024)
prepare_next_response-waits_example = prepare_next_response-waits answered half_request waiting

ready : (prepare_next_response answered two_requests).1 ≡ true
unfolding prepare_next_response is_empty starts_with drop take
ready = refl

never_empty : (request : Bytes) → not (is_empty (answered request).bytes) ≡ true
unfolding closed_response is_empty
never_empty request = refl

prepare_next_response-has_response_example :
    has_response (prepare_next_response answered two_requests).0 ≡ true
prepare_next_response-has_response_example =
    prepare_next_response-has_response answered two_requests never_empty ready

-- The length is found in another header field, and in the target of the request.
other_field : quick_content_length (codes "GET / HTTP/1.1\r\nX-Content-Length: 7") ≡ 7
unfolding quick_content_length starts_with drop
other_field = refl

in_target : quick_content_length (codes "GET /rpc?x=content-length:9 HTTP/1.1") ≡ 9
unfolding quick_content_length starts_with drop
in_target = refl

-- the server, of which every route is this one
abbrev route_nothing : Route
route_nothing method target body connection = closed_response 404 (codes "Not Found") (codes "no\n")

routes_answer :
    (method target body : Bytes) (connection : ClientConnection)
    → not (is_empty (route_nothing method target body connection).bytes) ≡ true
unfolding closed_response is_empty
routes_answer method target body connection = refl

abbrev bad_line : Connection
bad_line = reading (codes "GET /\r\n\r\n")

served : (prepare_next_response (parse_http_request route_nothing) bad_line).1 ≡ true
unfolding prepare_next_response is_empty starts_with drop take
served = refl

prepare_next_response-parse_http_request_example :
    has_response (prepare_next_response (parse_http_request route_nothing) bad_line).0 ≡ true
prepare_next_response-parse_http_request_example =
    prepare_next_response-parse_http_request route_nothing routes_answer bad_line served
