-- ===== src/Server/Web/Reading.antt =====
-- How `OnWsClientMessage` of WebAppServer.cpp reads a message.
use html_terminal.Prelude.{ℕ, Option, none, some, Text, String}
use html_terminal.Protocol.{Json}
use html_terminal.Server.Json.{
  find, value_to_string, value_to_int, detect_type, MsgType, unknown, terminal_add, terminal_del,
  terminal_resize, terminal_key_event, file_transfer_req,
}

-- What a message of a web client asks for.
pub data Request : Type 0 where
  add_terminal : ℕ → Request
  resize : ℕ → ℕ → ℕ → Request
  del : ℕ → Request
  key_event : ℕ → Text → Request
  file : ℕ → Text → Request
  ignored : Request

abbrev pub and_then : {A B : Type 0} → Option A → (A → Option B) → Option B
and_then none f = none
and_then (some a) f = f a

abbrev pub int_of : String → Json → Option ℕ
int_of key json = value_to_int (find key json)

abbrev pub string_of : String → Json → Option Text
string_of key json = value_to_string (find key json)

-- The arguments of the handler for a type of message; none where `ValueToInt` or `ValueToString`
-- throws.
unfoldable pub request_as : MsgType → Json → Option Request
unfolding find value_to_int value_to_string
request_as terminal_add json = and_then (int_of "remote_host_id" json) (λ h. some (add_terminal h))
request_as terminal_resize json = and_then (int_of "terminal_id" json) (λ t.
    and_then (int_of "width" json)
      (λ width. and_then (int_of "height" json) (λ height. some (resize t width height))))
request_as terminal_del json = and_then (int_of "terminal_id" json) (λ t. some (del t))
request_as terminal_key_event json =
    and_then (int_of "terminal_id" json)
      (λ t. and_then (string_of "key" json) (λ key. some (key_event t key)))
request_as file_transfer_req json =
    and_then (int_of "terminal_id" json)
      (λ t. and_then (string_of "path" json) (λ path. some (file t path)))
request_as unknown json = some ignored

-- `Parse` of a JSON text, `GetType` and the arguments of the handler.
unfoldable pub read_request : Json → Option Request
unfolding request_as detect_type
read_request json = and_then (string_of "type" json) (λ type. request_as (detect_type type) json)
