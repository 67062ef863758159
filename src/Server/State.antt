-- ===== src/Server/State.antt =====
-- The state of the control server: the fields of `WebAppServer`, `ActiveSessions` and
-- `TerminalServer`, and the calls that wait for the thread of either. A client of the web server and
-- a remote host are the ids of their connections.
use html_terminal.Prelude.{ℕ, Bool, Option, List, ◌++◌, [], ◌∷◌, Text, Dict}
use html_terminal.Protocol.{Json, FileInfo}
use html_terminal.Server.Json.{
  make_remote_host_connected_msg, make_client_disconnected_msg, make_terminal_created_msg,
  make_terminal_output_msg, make_terminal_closed, make_directory_listing_msg,
}

-- What a web client is sent, by the function of JsonMsg.cpp that writes it.
pub data WebMsg : Type 0 where
  host_connected : ℕ → Text → Text → Text → WebMsg
  host_disconnected : ℕ → WebMsg
  terminal_created : ℕ → ℕ → WebMsg
  terminal_output : ℕ → List ℕ → WebMsg
  terminal_closed : ℕ → ℕ → WebMsg
  directory_listing : ℕ → Text → List FileInfo → WebMsg

unfoldable pub json_of : WebMsg → Json
unfolding make_remote_host_connected_msg make_client_disconnected_msg make_terminal_created_msg
    make_terminal_output_msg make_terminal_closed make_directory_listing_msg
json_of (host_connected h ip user_name name) = make_remote_host_connected_msg h ip user_name name
json_of (host_disconnected h) = make_client_disconnected_msg h
json_of (terminal_created h t) = make_terminal_created_msg h t
json_of (terminal_output t output) = make_terminal_output_msg t output
json_of (terminal_closed t h) = make_terminal_closed t h
json_of (directory_listing t path files) = make_directory_listing_msg t path files

-- What a remote host is sent, by `MessageType`.
pub data HostMsg : Type 0 where
  create_terminal : ℕ → HostMsg
  resize_terminal : ℕ → ℕ → ℕ → HostMsg
  delete_terminal : ℕ → HostMsg
  on_terminal_write : ℕ → Text → HostMsg
  file_transfer_req : ℕ → Text → HostMsg

-- What the browser gets for a download: the header with the size of the file, and its parts.
pub data HttpMsg : Type 0 where
  file_header : ℕ → HttpMsg
  file_data : List ℕ → HttpMsg

pub data Sent : Type 0 where
  to_web : ℕ → WebMsg → Sent
  to_http : ℕ → HttpMsg → Sent
  to_host : ℕ → HostMsg → Sent

-- A message with a part of a file transfer: the path that was asked for, the raw bytes, the entries
-- that `DeserializeDirectory` reads in them, if it can, and the counter of parts and the sizes of the
-- transfer, as they are when the call runs.
pub record Part : Type 0 where
  pub path : Text
  pub raw : List ℕ
  pub listing : Option (List FileInfo)
  pub data_transfer_counter : ℕ
  pub expected_file_size : ℕ
  pub received_file_size : ℕ

-- A call of `WebAppServer` that its thread is to run.
pub data WebCall : Type 0 where
  on_ws_client_message : ℕ → Json → WebCall
  add_client remove_client : ℕ → WebCall
  on_remote_host_info_received : ℕ → Text → Text → Text → WebCall
  on_terminal_client_closed : ℕ → WebCall
  on_terminal_created : ℕ → ℕ → ℕ → Bool → WebCall
  on_terminal_output : ℕ → ℕ → List ℕ → WebCall
  on_terminal_closed : ℕ → ℕ → ℕ → WebCall
  on_file_transfer_data_received : ℕ → Part → WebCall

-- A call of `TerminalServer` that its thread is to run.
pub data TermCall : Type 0 where
  create_new_terminal : ℕ → ℕ → TermCall
  resize_terminal : ℕ → ℕ → ℕ → ℕ → TermCall
  delete_terminal : ℕ → ℕ → TermCall
  send_key_event : ℕ → ℕ → Text → TermCall
  handle_terminal_created : ℕ → ℕ → Bool → TermCall
  handle_terminal_read : ℕ → ℕ → List ℕ → TermCall
  handle_terminal_end : ℕ → ℕ → TermCall
  on_client_closed : ℕ → TermCall

-- `terminal_ids` leads from a terminal to its remote host.
pub record WebAppSession : Type 0 where
  pub client : ℕ
  pub terminal_ids : Dict ℕ

-- A `terminal_id` of 0 marks a download.
pub record FileTransferSession : Type 0 where
  pub id : ℕ
  pub web_app_client : ℕ
  pub terminal_id : ℕ

pub record RemoteHostInfo : Type 0 where
  pub ip : Text
  pub client_user_name : Text
  pub client_name : Text

pub record TerminalInfo : Type 0 where
  pub proxy_client_id : ℕ
  pub app_client_id : ℕ

-- `remote_hosts` and `id_counter` are those of `TerminalServer`. `sent` has the latest message first.
pub record Server : Type 0 where
  pub web_app_sessions : Dict WebAppSession
  pub transfer_sessions : Dict FileTransferSession
  pub transfer_id_counter : ℕ
  pub active_remote_hosts : Dict RemoteHostInfo
  pub remote_hosts : Dict (Dict TerminalInfo)
  pub id_counter : ℕ
  pub web_calls : List WebCall
  pub term_calls : List TermCall
  pub sent : List Sent

abbrev pub send : Sent → Server → Server
send msg s = record s { sent = msg ∷ s.sent }

-- `_thread->Post(...)` of either thread.
abbrev pub post_web : WebCall → Server → Server
post_web c s = record s { web_calls = s.web_calls ++ (c ∷ []) }

abbrev pub post_term : TermCall → Server → Server
post_term c s = record s { term_calls = s.term_calls ++ (c ∷ []) }

-- The same message to each client, in their order.
abbrev pub send_all : List ℕ → WebMsg → Server → Server
send_all [] msg s = s
send_all (c ∷ cs) msg s = send_all cs msg (send (to_web c msg) s)
