-- ===== src/Protocol.antt =====
-- The messages between the web client and the server: webapp/message.builder.js builds those that
-- it sends, and `onWsMessage` of webapp/messenger.js reads those that come. A message is the object
-- that `JSON.stringify` is given or that `JSON.parse` returns.
use html_terminal.Prelude.{ℕ, Bool, String, Option, none, some, List, [], ◌∷◌, Text}

-- An entry of `json.files`.
pub record FileInfo : Type 0 where
  pub name : Text
  pub is_dir : Bool
  pub size : ℕ
  pub last_mod : ℕ

-- The value of a field of an entry.
pub data FieldValue : Type 0 where
  text_field : Text → FieldValue
  number_field : ℕ → FieldValue
  flag_field : Bool → FieldValue

-- `negative n` is the number -n. `binary` and `entries` are values that only the server writes: an
-- object whose `bytes` are an array of numbers, and an array of the objects of a listing.
pub data JsonValue : Type 0 where
  text : Text → JsonValue
  word : String → JsonValue
  number negative : ℕ → JsonValue
  binary : List ℕ → JsonValue
  entries : List (List (String × FieldValue)) → JsonValue

-- The fields of an object literal, in their order.
abbrev pub Json : Type 0
Json = List (String × JsonValue)

-- `makeNewTerminalReq(host_id)`
unfoldable pub make_new_terminal_req : ℕ → Json
make_new_terminal_req host_id =
    ("type", word "terminal_req") ∷ ("remote_host_id", number host_id) ∷ []

-- `makeResizeReq(terminalId, width_val, height_val)`
unfoldable pub make_resize_req : ℕ → ℕ → ℕ → Json
make_resize_req terminal_id width_val height_val =
    ("type", word "terminal_resize")
    ∷ ("terminal_id", number terminal_id)
    ∷ ("width", number width_val)
    ∷ ("height", number height_val)
    ∷ []

-- `makeKeyEvent(terminalId, keyEvent)`
unfoldable pub make_key_event : ℕ → Text → Json
make_key_event terminal_id key_event =
    ("type", word "terminal_key")
    ∷ ("terminal_id", number terminal_id)
    ∷ ("key", text key_event)
    ∷ []

-- `makeCloseTerminalReq(terminalId)`
unfoldable pub make_close_terminal_req : ℕ → Json
make_close_terminal_req terminal_id =
    ("type", word "terminal_del") ∷ ("terminal_id", number terminal_id) ∷ []

abbrev pub path_or_empty : Option Text → Text
path_or_empty none = []
path_or_empty (some path) = path

-- `makeFileReq(terminalId, pathReq)`: a null path is sent as "".
unfoldable pub make_file_req : ℕ → Option Text → Json
make_file_req terminal_id path_req =
    ("type", word "file_req")
    ∷ ("terminal_id", number terminal_id)
    ∷ ("path", text (path_or_empty path_req))
    ∷ []

-- A parsed message: its type and the fields that `onWsMessage` reads, each under the types of
-- message that carry it.
pub record Inbound : Type 0 where
  pub kind : String
  pub host_id : ℕ
  pub host_ip : Text
  pub host_user_name : Text
  pub host_name : Text
  pub terminal_id : ℕ
  pub bytes : List ℕ
  pub req_path : Text
  pub files : List FileInfo
