-- ===== src/Server/Requests.antt =====
-- The requests that webapp/message.builder.js writes, as JsonMsg.cpp and `OnWsClientMessage` of
-- WebAppServer.cpp read them.
use html_terminal.Prelude.{ℕ, ◌%◌, ◌^◌, ◌≡◌, refl, Option, some, Text}
use html_terminal.Protocol.{
  make_new_terminal_req, make_resize_req, make_key_event, make_close_terminal_req, make_file_req,
  path_or_empty,
}
use html_terminal.Server.Json.{find, value_to_string, value_to_int, detect_type}
use html_terminal.Server.Web.{Request, request_as, read_request}

-- The server reads each message of the web client as the request that it was made for: ids and sizes
-- modulo 2 ^ 32, the key as it is, and a path that is null as the empty one.
pub read_request-make :
    (h t width height : ℕ) (key : Text) (path : Option Text)
    → (read_request (make_new_terminal_req h) ≡ some (Request.add_terminal (h % 2 ^ 32)))
      × (read_request (make_resize_req t width height)
          ≡ some (Request.resize (t % 2 ^ 32) (width % 2 ^ 32) (height % 2 ^ 32)))
      × (read_request (make_close_terminal_req t) ≡ some (Request.del (t % 2 ^ 32)))
      × (read_request (make_key_event t key) ≡ some (Request.key_event (t % 2 ^ 32) key))
      × (read_request (make_file_req t path)
          ≡ some (Request.file (t % 2 ^ 32) (path_or_empty path)))
unfolding read_request request_as detect_type find value_to_string value_to_int
    make_new_terminal_req make_resize_req make_key_event make_close_terminal_req make_file_req
read_request-make h t width height key path = (refl, refl, refl, refl, refl)
