-- ===== src/Connection/Served.antt =====
-- The buffers of src/connection.cpp with the parser of requests of src/http.cpp, as the server
-- composes them. The routes are an argument.
use aurhub.Base.{◌≡◌, refl, true, not}
use aurhub.Bytes.{Bytes, is_empty}
use aurhub.Http.Response.{ClientConnection, PreparedResponse, closed_response}
use aurhub.Http.Request.{Parsed, refused, routed, parse_request, parse_http_request}
use aurhub.Connection.{Connection, has_response, prepare_next_response}
use aurhub.Connection.Bounds.{prepare_next_response-has_response}

abbrev pub Route : Type 0
Route = Bytes → Bytes → Bytes → ClientConnection → PreparedResponse

abbrev answer : Route → Parsed → PreparedResponse
answer route_request parsed = elim parsed [
  | refused status reason message ↦ closed_response status reason message
  | routed method target body connection ↦ route_request method target body connection
]

module _ (route_request : Route)
    (answers : (method target body : Bytes) (connection : ClientConnection)
      → not (is_empty (route_request method target body connection).bytes) ≡ true) where
  parsed-answers : (parsed : Parsed) → not (is_empty (answer route_request parsed).bytes) ≡ true
  unfolding closed_response is_empty
  parsed-answers (refused status reason message) = refl
  parsed-answers (routed method target body connection) = answers method target body connection

  request-answers :
      (request : Bytes) → not (is_empty (parse_http_request route_request request).bytes) ≡ true
  unfolding parse_http_request
  request-answers request = parsed-answers (parse_request request)

  -- When no route's response is empty, `prepare_next_response` with `parse_http_request` announces
  -- a response only where the connection has one: a request that the parser refuses is answered
  -- as well.
  pub prepare_next_response-parse_http_request :
      (c : Connection)
      → (prepare_next_response (parse_http_request route_request) c).1 ≡ true
      → has_response (prepare_next_response (parse_http_request route_request) c).0 ≡ true
  prepare_next_response-parse_http_request c =
      prepare_next_response-has_response (parse_http_request route_request) c request-answers
