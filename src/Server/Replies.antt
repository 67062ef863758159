-- ===== src/Server/Replies.antt =====
-- The messages of JsonMsg.cpp, as `onWsMessage` of webapp/messenger.js reads their fields.
use html_terminal.Prelude.{
  ℕ, ◌^◌, ◌<◌, ◌≡◌, refl, String, Option, none, some, List, [], ◌∷◌, Text, M, arith, Bool, false,
  All, if◌then◌else◌,
}
use package.text.Mathlib.Text.{◌==◌ as str_eq}
use html_terminal.Protocol.{
  Json, JsonValue, text, word, number, binary, entries, FileInfo, FieldValue, text_field,
  number_field, flag_field, Inbound,
}
use html_terminal.Server.Json.{
  int_value, make_remote_host_connected_msg, make_client_disconnected_msg,
  make_terminal_created_msg, make_terminal_output_msg, make_terminal_closed,
  make_directory_listing_msg, find, file_objects,
}
use html_terminal.Server.State.{
  WebMsg, json_of, host_connected, host_disconnected, terminal_created, terminal_output,
  terminal_closed, directory_listing,
}
use html_terminal.App.{App}
use html_terminal.TerminalManager.{on_host_connected, on_host_disconnected}
use html_terminal.WebApp.{
  on_ws_message, on_terminal_added, on_terminal_closed, on_terminal_output, on_directory_listen,
  bytes_to_text,
}

abbrev word_or_empty : Option JsonValue → String
word_or_empty (some (word w)) = w
word_or_empty _ = ""

abbrev number_or_zero : Option JsonValue → ℕ
number_or_zero (some (number n)) = n
number_or_zero _ = 0

abbrev text_or_empty : (Text → Text) → Option JsonValue → Text
text_or_empty decode (some (text t)) = decode t
text_or_empty decode _ = []

abbrev bytes_or_empty : Option JsonValue → List ℕ
bytes_or_empty (some (binary bytes)) = bytes
bytes_or_empty _ = []

unfoldable pub field : String → List (String × FieldValue) → Option FieldValue
field key [] = none
field key ((name, v) ∷ fields) =
    let rest = field key fields in if str_eq name key then some v else rest

abbrev text_of : (Text → Text) → Option FieldValue → Text
text_of decode (some (text_field t)) = decode t
text_of decode _ = []

abbrev number_of : Option FieldValue → ℕ
number_of (some (number_field n)) = n
number_of _ = 0

abbrev flag_of : Option FieldValue → Bool
flag_of (some (flag_field b)) = b
flag_of _ = false

-- What webapp/filemode.node.js reads of the object of a file.
unfoldable pub file_of : (Text → Text) → List (String × FieldValue) → FileInfo
unfolding field
file_of decode fields = record {
  name = text_of decode (field "name" fields);
  is_dir = flag_of (field "is_dir" fields);
  size = number_of (field "size" fields);
  last_mod = number_of (field "last_mod" fields);
}

abbrev files_of : (Text → Text) → List (List (String × FieldValue)) → List FileInfo
files_of decode [] = []
files_of decode (fields ∷ objects) = file_of decode fields ∷ files_of decode objects

abbrev entries_or_empty : (Text → Text) → Option JsonValue → List FileInfo
entries_or_empty decode (some (entries objects)) = files_of decode objects
entries_or_empty decode _ = []

-- The fields that `onWsMessage` reads, of an object whose fields have the values it expects. `decode` is
-- what the browser makes of the bytes of a text.
unfoldable pub inbound_of : (Text → Text) → Json → Inbound
unfolding find
inbound_of decode json = record {
  kind = word_or_empty (find "type" json);
  host_id = number_or_zero (find "host_id" json);
  host_ip = text_or_empty decode (find "host_ip" json);
  host_user_name = text_or_empty decode (find "host_user_name" json);
  host_name = text_or_empty decode (find "host_name" json);
  terminal_id = number_or_zero (find "terminal_id" json);
  bytes = bytes_or_empty (find "output" json);
  req_path = text_or_empty decode (find "req_path" json);
  files = entries_or_empty decode (find "files" json);
}

int_value_small : (x : ℕ) → x < 2 ^ 31 → int_value x ≡ number x
unfolding int_value
int_value_small x h = ground arith

abbrev pub IsAscii : Text → Type 0
IsAscii = All (λ c. c < 128)

-- In UTF-8 an ASCII character is its own code.
abbrev pub DecodesAscii : (Text → Text) → Type 0
DecodesAscii decode = (t : Text) → IsAscii t → decode t ≡ t

files_of-file_objects :
    (decode : Text → Text) (files : List FileInfo)
    → DecodesAscii decode
    → All (λ file. IsAscii file.name) files
    → files_of decode (file_objects files) ≡ files
unfolding file_of field
files_of-file_objects decode [] law ascii = refl
files_of-file_objects decode (file ∷ files) law ascii =
    rw (law file.name ascii.0, files_of-file_objects decode files law ascii.1) refl

-- Each message of the server, with ids below 2 ^ 31 and with names and paths in ASCII, is handled by the
-- client's function for it, with the ids, the names, the output and, of each file, the name, the size,
-- the time and the kind that the server wrote.
pub on_ws_message-json_of :
    (decode : Text → Text) (h t : ℕ) (ip user_name name path : Text) (output : List ℕ)
    (files : List FileInfo)
    → h < 2 ^ 31
    → t < 2 ^ 31
    → DecodesAscii decode
    → IsAscii ip
    → IsAscii user_name
    → IsAscii name
    → IsAscii path
    → All (λ file. IsAscii file.name) files
    → let received : WebMsg → M App (Unit {0}) =
        λ msg. on_ws_message (inbound_of decode (json_of msg)) in
      (received (host_connected h ip user_name name) ≡ on_host_connected h ip user_name name)
      × (received (host_disconnected h) ≡ on_host_disconnected h)
      × (received (terminal_created h t) ≡ on_terminal_added h t)
      × (received (terminal_output t output) ≡ on_terminal_output t (bytes_to_text output))
      × (received (terminal_closed t h) ≡ on_terminal_closed h t)
      × (received (directory_listing t path files) ≡ on_directory_listen t path files)
unfolding on_ws_message inbound_of json_of find make_remote_host_connected_msg
    make_client_disconnected_msg make_terminal_created_msg make_terminal_output_msg
    make_terminal_closed make_directory_listing_msg
on_ws_message-json_of decode h t ip user_name name path output files small_h small_t law ascii_ip
      ascii_user ascii_name ascii_path ascii_files =
    rw
      (
        int_value_small h small_h,
        int_value_small t small_t,
        law ip ascii_ip,
        law user_name ascii_user,
        law name ascii_name,
        law path ascii_path,
        files_of-file_objects decode files law ascii_files,
      )
      (refl, refl, refl, refl, refl, refl)
