-- ===== src/Http/Response.antt =====
-- The responses of src/http.cpp: their headers, and those with a text as their body.
use aurhub.Base.{
  ℕ, zero, suc, ◌+◌, ◌/◌, ◌%◌, Bool, true, false, [], ◌∷◌, ◌++◌, Option, none, length, ltb,
  if◌then◌else◌,
}
use aurhub.Bytes.{Bytes}
use aurhub.Generation.Format.{GenerationView}
use aurhub.Srcinfo.Text.{codes}

pub data ClientConnection : Type 0 where
  close implicit_keep_alive explicit_keep_alive : ClientConnection

-- The null pointer is `none`.
pub record PreparedResponse : Type 0 where
  pub bytes : Bytes
  pub external_file_offset : ℕ
  pub external_size : ℕ
  pub close_after : Bool
  pub snapshot_guard : Option GenerationView

-- The digits of a number before those that are there. A number has no more digits than it says.
unfoldable pub digits_before : ℕ → ℕ → Bytes → Bytes
digits_before zero n later = (b'0' + n % 10) ∷ later
digits_before (suc fuel) n later =
    let more = digits_before fuel (n / 10) ((b'0' + n % 10) ∷ later) in
    if ltb n 10 then (b'0' + n % 10) ∷ later else more

-- `std::to_string`
unfoldable pub to_string : ℕ → Bytes
unfolding digits_before
to_string n = digits_before n n []

unfoldable pub http_header : ℕ → Bytes → Bytes → ℕ → ClientConnection → Bytes
unfolding to_string
http_header status reason content_type content_length connection =
    codes "HTTP/1.1 "
    ++ to_string status
    ++ codes " "
    ++ reason
    ++ codes "\r\nContent-Type: "
    ++ content_type
    ++ codes "\r\nContent-Length: "
    ++ to_string content_length
    ++ codes "\r\n"
    ++ (elim connection [
      | ClientConnection.close ↦ codes "Connection: close\r\n"
      | ClientConnection.explicit_keep_alive ↦ codes "Connection: keep-alive\r\n"
      | ClientConnection.implicit_keep_alive ↦ []
    ])
    ++ codes "Access-Control-Allow-Origin: *"
    ++ codes "\r\nAccess-Control-Allow-Methods: GET, OPTIONS\r\n\r\n"

unfoldable pub owned_response : ℕ → Bytes → Bytes → Bytes → ClientConnection → PreparedResponse
unfolding http_header
owned_response status reason content_type body connection = record {
  bytes = http_header status reason content_type (length body) connection ++ body;
  external_file_offset = 0;
  external_size = 0;
  close_after = elim connection [ ClientConnection.close ↦ true | _ ↦ false ];
  snapshot_guard = none;
}

unfoldable pub closed_response : ℕ → Bytes → Bytes → PreparedResponse
unfolding owned_response
closed_response status reason body =
    owned_response status reason (codes "text/plain") body ClientConnection.close
