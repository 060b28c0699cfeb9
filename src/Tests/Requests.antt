-- ===== src/Tests/Requests.antt =====
-- A fetch of a package's git repository, and requests that are refused.
use aurhub.Base.{◌≡◌, refl, true, false, some, length, take, drop, arith}
use aurhub.Bytes.{Bytes, is_empty, starts_with}
use aurhub.Srcinfo.Text.{codes}
use aurhub.Http.Response.{ClientConnection}
use aurhub.Http.Request.{refused, routed, parse_request, parse_fields, no_headers}
use aurhub.Http.Text.{find_text}
use aurhub.Http.Request.Fuel.{parse_fields-ends}
use aurhub.Http.Request.Body.{is_git_post, parse_request-is_git_post}

abbrev fetch : Bytes
fetch = codes "POST /a.git/git-upload-pack HTTP/1.1\r\nContent-Length: 4\r\n\r\n0000"

abbrev get_with_body : Bytes
get_with_body = codes "GET /rpc HTTP/1.1\r\nContent-Length: 4\r\n\r\n0000"

abbrev old_version : Bytes
old_version = codes "GET / HTTP/0.9\r\n\r\n"

fetch_routed :
    parse_request fetch
    ≡ routed
        (codes "POST")
        (codes "/a.git/git-upload-pack")
        (codes "0000")
        ClientConnection.implicit_keep_alive
unfolding parse_request starts_with take drop is_empty
fetch_routed = refl

get_refused :
    parse_request get_with_body
    ≡ refused 400 (codes "Bad Request") (codes "request bodies are not supported\n")
unfolding parse_request starts_with take drop is_empty
get_refused = refl

version_refused :
    parse_request old_version
    ≡ refused 505 (codes "HTTP Version Not Supported") (codes "HTTP version not supported\n")
unfolding parse_request starts_with take drop is_empty
version_refused = refl

fetch_body : is_empty (codes "0000") ≡ false
unfolding is_empty
fetch_body = refl

parse_request-is_git_post_example :
    is_git_post (codes "POST") (codes "/a.git/git-upload-pack") ≡ true
parse_request-is_git_post_example =
    parse_request-is_git_post fetch (codes "POST") (codes "/a.git/git-upload-pack") (codes "0000")
      ClientConnection.implicit_keep_alive fetch_routed fetch_body

fetch_header_end : find_text fetch (codes "\r\n\r\n") ≡ some 55
unfolding find_text starts_with
fetch_header_end = refl

parse_fields-ends_example :
    parse_fields (length fetch) fetch 55 38 no_headers ≡ parse_fields 17 fetch 55 38 no_headers
parse_fields-ends_example =
    parse_fields-ends fetch 55 38 17 no_headers fetch_header_end (omega arith)
