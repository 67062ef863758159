-- ===== src/FileTransfer.antt =====
-- FileTransfer.cpp: one transfer of a file or of the listing of a directory, as the control server and
-- the client on a remote host each have it. The file system, `DirectoryListing` and `DataResource` of
-- the cpp_utils submodule are a parameter.
pub mod Handlers
pub mod Init
pub mod Handshake
pub mod Download
use html_terminal.Prelude.{
  ℕ, ◌+◌, ◌%◌, ◌^◌, Bool, true, false, not, ◌&&◌, Option, none, some, List, [], ◌∷◌, ◌++◌, codes,
  Text, length, is_some, ◌==◌, if◌then◌else◌,
}
use html_terminal.Wire.{
  MessageType, type_from_int, Memory, Packet, simple_message, bare_message, read_integer,
}

-- `exists`, `is_directory` and `file_size` of std::filesystem, none where they set the error;
-- `SerializeDirectory` and `CreateFromFile`, none where they fail, with the bytes that they hold.
pub record FileSystem : Type 0 where
  pub exists : Text → Option Bool
  pub is_directory : Text → Option Bool
  pub file_size : Text → Option ℕ
  pub serialize_directory : Text → Option (List ℕ)
  pub create_from_file : Text → Option (List ℕ)

-- The calls of `_client`. `content_sent none` is `Send` of a null pointer.
pub data ClientCall : Type 0 where
  packet_sent : Packet → ClientCall
  content_sent : Option (List ℕ) → ClientCall
  builder_removed : ClientCall

-- `client` is a connection. `calls` has its calls, the latest first.
pub record FileTransfer : Type 0 where
  pub req_id : ℕ
  pub req_file_path : Text
  pub client : Option ℕ
  pub serialized_dir : Option (List ℕ)
  pub is_get_request : Bool
  pub is_directory_listing_request : Bool
  pub awaing_raw_data : Bool
  pub received_file_size : ℕ
  pub expected_file_size : ℕ
  pub data_transfer_counter : ℕ
  pub calls : List ClientCall

-- `FileTransfer(listener, req_id, req_file_path, is_get_request)`
abbrev pub new_transfer : ℕ → Text → Bool → FileTransfer
new_transfer id path is_get = record {
  req_id = id;
  req_file_path = path;
  client = none;
  serialized_dir = none;
  is_get_request = is_get;
  is_directory_listing_request = false;
  awaing_raw_data = false;
  received_file_size = 0;
  expected_file_size = 0;
  data_transfer_counter = 0;
  calls = [];
}

abbrev pub call_client : ClientCall → FileTransfer → FileTransfer
call_client call t = record t { calls = call ∷ t.calls }

-- A `bool` in memory.
abbrev pub number : Bool → ℕ
number false = 0
number true = 1

-- `SendTransferRequestMsg(client)`: the message that it sends.
unfoldable pub transfer_request_msg : (mem : Memory) → FileTransfer → Packet
transfer_request_msg mem t = simple_message mem MessageType.file_transfer_req (
    mem.add t.req_file_path (
      mem.add (mem.bytes_of 1 (number t.is_get_request))
        (mem.add (mem.bytes_of 4 t.req_id) (mem.make_data []))))

-- The locals of `SendInitResponse` and what it stores in `_serialized_dir`.
pub record Inspected : Type 0 where
  pub is_valid : Bool
  pub file_length : ℕ
  pub directory : Option (List ℕ)

abbrev pub invalid : Inspected
invalid = record { is_valid = false; file_length = 0; directory = none }

abbrev pub measured_directory : Option (List ℕ) → Inspected
measured_directory none = record { is_valid = true; file_length = 0; directory = none }
measured_directory (some bytes) = record {
  is_valid = true;
  file_length = length bytes;
  directory = some bytes;
}

abbrev pub measured_file : Option ℕ → Inspected
measured_file none = invalid
measured_file (some size) = record { is_valid = true; file_length = size; directory = none }

abbrev pub inspect_existing : FileSystem → Text → Option Bool → Inspected
inspect_existing fs path none = invalid
inspect_existing fs path (some true) = measured_directory (fs.serialize_directory path)
inspect_existing fs path (some false) = measured_file (fs.file_size path)

abbrev pub inspect_path : FileSystem → Text → Option Bool → Inspected
inspect_path fs path (some true) = inspect_existing fs path (fs.is_directory path)
inspect_path fs path _ = invalid

-- The conditions of `SendInitResponse`.
unfoldable pub inspect : FileSystem → FileTransfer → Inspected
inspect fs t =
    if t.is_get_request
    then inspect_path fs t.req_file_path (fs.exists t.req_file_path)
    else record { is_valid = true; file_length = 0; directory = none }

abbrev pub init_msg : (mem : Memory) → ℕ → Inspected → Packet
init_msg mem id i = simple_message mem MessageType.file_transfer_init (
    mem.add (mem.bytes_of 8 i.file_length) (
      mem.add (mem.bytes_of 1 (number (is_some i.directory))) (
        mem.add (mem.bytes_of 1 (number i.is_valid))
          (mem.add (mem.bytes_of 4 id) (mem.make_data [])))))

-- `SendInitResponse()`
unfoldable pub send_init_response : (mem : Memory) → FileSystem → FileTransfer → FileTransfer
unfolding inspect
send_init_response mem fs t =
    let i = inspect fs t in
    call_client (packet_sent (init_msg mem t.req_id i)) (record t {
      serialized_dir = i.directory;
      is_directory_listing_request = is_some i.directory;
    })

-- `OnClientConnected(client)`
unfoldable pub on_client_connected : (mem : Memory) → FileSystem → ℕ → FileTransfer → FileTransfer
unfolding send_init_response
on_client_connected mem fs client t = send_init_response mem fs (record t { client = some client })

-- `SendAckAndSwitchToRaw()`
unfoldable pub send_ack_and_switch_to_raw : FileTransfer → FileTransfer
send_ack_and_switch_to_raw t = call_client builder_removed (
    call_client (packet_sent (bare_message MessageType.file_transfer_ack))
      (record t { awaing_raw_data = true }))

abbrev pub with_value : Option ℕ → (ℕ → FileTransfer → FileTransfer) → FileTransfer → FileTransfer
with_value none f t = t
with_value (some x) f t = f x t

-- `HandleTransferInit(client, data)`: each `CopyTo` is made if the one before returned true.
unfoldable pub handle_transfer_init : (mem : Memory) → ℕ → mem.Data → FileTransfer → FileTransfer
unfolding read_integer send_ack_and_switch_to_raw
handle_transfer_init mem client d t =
    with_value (read_integer mem d 0 4)
      (λ req_id. with_value (read_integer mem d 4 1) (λ is_valid.
        with_value (read_integer mem d 5 1) (λ flag t.
          with_value (read_integer mem d 6 8)
            (λ size t.
              let sized = record t { expected_file_size = size } in
              if is_valid == 0 then sized else send_ack_and_switch_to_raw sized)
            (record t { is_directory_listing_request = not (flag == 0) }))))
      (record t { client = some client })

-- `HandleFileTransferMsg(msg)`, before it calls the listener.
unfoldable pub handle_file_transfer_msg : List ℕ → FileTransfer → FileTransfer
handle_file_transfer_msg bytes t = record t {
  data_transfer_counter = (t.data_transfer_counter + 1) % 2 ^ 32;
  received_file_size = (t.received_file_size + length bytes) % 2 ^ 64;
}

abbrev pub or_false : Option Bool → Bool
or_false none = false
or_false (some b) = b

-- `SendRequestedData()`
unfoldable pub send_requested_data : FileSystem → FileTransfer → FileTransfer
send_requested_data fs t =
    if or_false (fs.is_directory t.req_file_path) && is_some t.serialized_dir
    then call_client (content_sent t.serialized_dir) t
    else call_client (content_sent (fs.create_from_file t.req_file_path)) t

abbrev pub on_message : FileSystem → MessageType → FileTransfer → FileTransfer
on_message fs MessageType.file_transfer_ack t = send_requested_data fs t
on_message fs _ t = t

-- `OnClientRead(client, msg)`, and the bytes that the listener is given, if it is called. Of a message
-- that is not a `SimpleMessage` only the content is read.
unfoldable pub on_client_read : FileSystem → Packet → FileTransfer → FileTransfer × Option (List ℕ)
unfolding type_from_int send_requested_data handle_file_transfer_msg
on_client_read fs msg t =
    if t.awaing_raw_data
    then (handle_file_transfer_msg msg.content t, some msg.content)
    else (on_message fs (type_from_int msg.type) t, none)

abbrev last_piece : List Text → Text
last_piece [] = []
last_piece (piece ∷ []) = piece
last_piece (_ ∷ piece ∷ pieces) = last_piece (piece ∷ pieces)

abbrev save_named : (Text → Bool) → Text → Text → Bool
save_named save dir [] = false
save_named save dir (c ∷ name) = save (dir ++ (codes "/" ++ (c ∷ name)))

-- `SaveToOutputDirectory(msg, dir_path)`: `split` is `Split` of `StringUtils`, and `save` is `SaveToFile`
-- of the content.
unfoldable pub save_to_output_directory :
    (Text → Text → List Text) → (Text → Bool) → Text → FileTransfer → Bool
save_to_output_directory split save dir t =
    save_named save dir (last_piece (split t.req_file_path (codes "/")))
