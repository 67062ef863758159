-- ===== src/Server/Json.antt =====
-- JsonMsg.cpp: what the server writes to a web client, and how it reads what comes from one. An
-- `int` and a `uint32_t` are their 32 bits. A JSON string is its text.
use package.text.Mathlib.Text.{◌==◌ as str_eq}
use html_terminal.Prelude.{
  ℕ, ◌-◌, ◌%◌, ◌^◌, String, Option, none, some, List, [], ◌∷◌, Text, codes, same_text, ltb,
  if◌then◌else◌,
}
use html_terminal.Protocol.{
  Json, JsonValue, text, word, number, negative, binary, entries, FileInfo, FieldValue, text_field,
  number_field, flag_field,
}

-- `(int) x` as a JSON number.
unfoldable pub int_value : ℕ → JsonValue
int_value x = if ltb x (2 ^ 31) then number x else negative (2 ^ 32 - x)

-- `MakeRemoteHostConnectedMsg(host_id, host_ip, host_user_name, host_name)`
unfoldable pub make_remote_host_connected_msg : ℕ → Text → Text → Text → Json
unfolding int_value
make_remote_host_connected_msg host_id host_ip host_user_name host_name =
    ("type", word "host_connected")
    ∷ ("host_id", int_value host_id)
    ∷ ("host_ip", text host_ip)
    ∷ ("host_user_name", text host_user_name)
    ∷ ("host_name", text host_name)
    ∷ []

-- `MakeClientDisconnectedMsg(client_id)`
unfoldable pub make_client_disconnected_msg : ℕ → Json
unfolding int_value
make_client_disconnected_msg client_id =
    ("type", word "host_disconnected") ∷ ("host_id", int_value client_id) ∷ []

-- `MakeTerminalCreatedMsg(host_id, terminal_id)`
unfoldable pub make_terminal_created_msg : ℕ → ℕ → Json
unfolding int_value
make_terminal_created_msg host_id terminal_id =
    ("type", word "terminal_added")
    ∷ ("host_id", int_value host_id)
    ∷ ("terminal_id", int_value terminal_id)
    ∷ []

-- `MakeTerminalOutputMsg(terminal_id, output)`: a binary value is written with its `bytes`.
unfoldable pub make_terminal_output_msg : ℕ → List ℕ → Json
unfolding int_value
make_terminal_output_msg terminal_id output =
    ("type", word "terminal_output")
    ∷ ("terminal_id", int_value terminal_id)
    ∷ ("output", binary output)
    ∷ []

-- `MakeTerminalClosed(terminal_id, host_id)`
unfoldable pub make_terminal_closed : ℕ → ℕ → Json
unfolding int_value
make_terminal_closed terminal_id host_id =
    ("type", word "terminal_closed")
    ∷ ("terminal_id", int_value terminal_id)
    ∷ ("host_id", int_value host_id)
    ∷ []

-- `info`, the object of one file.
abbrev pub file_object : FileInfo → List (String × FieldValue)
file_object file =
    ("name", text_field file.name)
    ∷ ("size", number_field file.size)
    ∷ ("last_mod", number_field file.last_mod)
    ∷ ("is_dir", flag_field file.is_dir)
    ∷ []

-- The loop of `MakeDirectoryListingMsg`.
abbrev pub file_objects : List FileInfo → List (List (String × FieldValue))
file_objects [] = []
file_objects (file ∷ files) = file_object file ∷ file_objects files

-- `MakeDirectoryListingMsg(terminal_id, req_path, files)`
unfoldable pub make_directory_listing_msg : ℕ → Text → List FileInfo → Json
unfolding int_value
make_directory_listing_msg terminal_id req_path files =
    ("type", word "directory_listing_received")
    ∷ ("terminal_id", int_value terminal_id)
    ∷ ("req_path", text req_path)
    ∷ ("files", entries (file_objects files))
    ∷ []

-- `json.find(key)`
unfoldable pub find : String → Json → Option JsonValue
find key [] = none
find key ((name, v) ∷ fields) =
    let rest = find key fields in if str_eq name key then some v else rest

-- `ValueToString(key)`: "" for a key that is missing, and none where `get` throws a `type_error`.
unfoldable pub value_to_string : Option JsonValue → Option Text
value_to_string none = some []
value_to_string (some (text t)) = some t
value_to_string (some (word w)) = some (codes w)
value_to_string (some _) = none

-- `ValueToInt(key)`: -1 for a key that is missing.
unfoldable pub value_to_int : Option JsonValue → Option ℕ
value_to_int none = some (2 ^ 32 - 1)
value_to_int (some (number n)) = some (n % 2 ^ 32)
value_to_int (some (negative n)) = some ((2 ^ 32 - n % 2 ^ 32) % 2 ^ 32)
value_to_int (some _) = none

-- `JsonMsg::Type`, of those that a web client sends.
pub data MsgType : Type 0 where
  unknown terminal_add terminal_del terminal_resize terminal_key_event file_transfer_req : MsgType

-- `TryDetectType()`
unfoldable pub detect_type : Text → MsgType
detect_type type =
    if same_text type (codes "terminal_req")
    then terminal_add
    else if same_text type (codes "terminal_del")
    then terminal_del
    else if same_text type (codes "terminal_key")
    then terminal_key_event
    else if same_text type (codes "terminal_resize")
    then terminal_resize
    else if same_text type (codes "file_req")
    then file_transfer_req
    else unknown
