-- ===== src/Server/Web.antt =====
-- WebAppServer.cpp: the calls that its thread runs.
mod Reading
mod Commands
unfoldable pub use Reading.*
unfoldable pub use Commands.*
use html_terminal.Prelude.{
  ℕ, Bool, true, false, Option, none, some, List, [], ◌∷◌, Text, Dict, String, lookup, ◌==◌,
  if◌then◌else◌,
}
use html_terminal.Protocol.{Json, FileInfo}
use html_terminal.Server.Tables
use html_terminal.Server.Sessions
use html_terminal.Server.Tables.{emplace, remove}
use html_terminal.Server.Json.{
  find, value_to_string, value_to_int, detect_type, MsgType, unknown, terminal_add, terminal_del,
  terminal_resize, terminal_key_event, file_transfer_req,
}
use html_terminal.Server.State.{
  Server, WebAppSession, FileTransferSession, RemoteHostInfo, Part, to_web, to_http, file_header,
  file_data, to_host, HostMsg, WebMsg, WebCall, TermCall, create_new_terminal, send_key_event, send,
  post_term, send_all,
}
use html_terminal.Server.Sessions.{
  create_web_app_session, get_web_app_session, clients_of, erase_web_app_session, delete_terminal,
  get_remote_host_by_terminal, is_web_app_client_owning_terminal, find_remote_host,
  next_transfer_id, create_file_transfer_session, erase_file_transfer_session,
}

-- `OnWsClientMessage(client, message)`; none where it throws.
unfoldable pub on_ws_client_message : (ℕ → Bool) → ℕ → Json → Server → Option Server
unfolding read_request
on_ws_client_message up client json s =
    and_then (read_request json) (λ request. some (on_request up client request s))

-- `OnRemoteHostInfoReceived(host_id, ip, user_name, host_name)`
unfoldable pub on_remote_host_info_received : ℕ → Text → Text → Text → Server → Server
unfolding emplace clients_of
on_remote_host_info_received host_id ip user_name host_name s =
    let info : RemoteHostInfo = record {
      ip = ip;
      client_user_name = user_name;
      client_name = host_name;
    } in
    send_all (clients_of s.web_app_sessions) (WebMsg.host_connected host_id ip user_name host_name)
      (record s { active_remote_hosts = emplace host_id info s.active_remote_hosts })

-- `OnTerminalClientClosed(proxy_client_id)`
unfoldable pub on_terminal_client_closed : ℕ → Server → Server
unfolding remove clients_of
on_terminal_client_closed host_id s =
    send_all (clients_of s.web_app_sessions) (WebMsg.host_disconnected host_id)
      (record s { active_remote_hosts = remove host_id s.active_remote_hosts })

abbrev pub with_session : Option WebAppSession → (WebAppSession → Server → Server) → Server → Server
with_session none f s = s
with_session (some session) f s = f session s

-- `OnTerminalCreated(client_id, terminal_id, remote_host_id, success)`, whatever the success
unfoldable pub on_terminal_created : ℕ → ℕ → ℕ → Bool → Server → Server
unfolding get_web_app_session Sessions.add_terminal
on_terminal_created client terminal_id remote_host_id success s =
    with_session (get_web_app_session client s)
      (λ session s.
        send (to_web session.client (WebMsg.terminal_created remote_host_id terminal_id))
          (Sessions.add_terminal client terminal_id remote_host_id session s))
      s

-- `OnTerminalOutput(client_id, terminal_id, output)`
unfoldable pub on_terminal_output : ℕ → ℕ → List ℕ → Server → Server
unfolding get_web_app_session
on_terminal_output client terminal_id output s =
    with_session (get_web_app_session client s)
      (λ session. send (to_web session.client (WebMsg.terminal_output terminal_id output))) s

-- `OnTerminalClosed(client_id, terminal_id, remote_host_id)`
unfoldable pub on_terminal_closed : ℕ → ℕ → ℕ → Server → Server
unfolding get_web_app_session
on_terminal_closed client terminal_id remote_host_id s =
    with_session (get_web_app_session client s)
      (λ session. send (to_web session.client (WebMsg.terminal_closed terminal_id remote_host_id)))
      s

abbrev pub with_transfer :
    Option FileTransferSession → (FileTransferSession → Server → Server) → Server → Server
with_transfer none f s = s
with_transfer (some session) f s = f session s

abbrev pub when_all_received : Part → ℕ → Server → Server
when_all_received part id s =
    let erased = erase_file_transfer_session id s in
    if part.expected_file_size == part.received_file_size then erased else s

-- The listing of a directory goes to the web client as a message of the socket.
abbrev pub list_directory :
    FileTransferSession → Part → ℕ → Option (List FileInfo) → Server → Server
list_directory session part id none s = s
list_directory session part id (some files) s = when_all_received part id (
    send
      (to_web session.web_app_client (WebMsg.directory_listing session.terminal_id part.path files))
      s)

-- A part of a file goes to the browser as it is, the first one after a header.
abbrev pub pass_on : FileTransferSession → Part → Server → Server
pass_on session part s =
    let header = send (to_http session.web_app_client (file_header part.expected_file_size)) s in
    send (to_http session.web_app_client (file_data part.raw))
      (if part.data_transfer_counter == 1 then header else s)

-- `OnFileTransferDataReceived(file_transfer, msg)`
unfoldable pub on_file_transfer_data_received : ℕ → Part → Server → Server
unfolding erase_file_transfer_session
on_file_transfer_data_received id part s =
    with_transfer (lookup id s.transfer_sessions)
      (λ session s.
        let done = when_all_received part id (pass_on session part s) in
        let listed = list_directory session part id part.listing s in
        if session.terminal_id == 0 then done else listed)
      s

abbrev complete_listing : FileTransferSession → Part → Option (List FileInfo) → Server → Server
complete_listing session part none s = s
complete_listing session part (some files) s =
    send
      (to_web session.web_app_client (WebMsg.directory_listing session.terminal_id part.path files))
      s

abbrev completed_for : Option FileTransferSession → Part → Server → Option Server
completed_for none part s = none
completed_for (some session) part s =
    let passed = pass_on session part s in
    let listed = complete_listing session part part.listing s in
    some (if session.terminal_id == 0 then passed else listed)

abbrev completed_nothing : Option FileTransferSession → Server → Option Server
completed_nothing none s = none
completed_nothing (some session) s = some s

-- `OnFileTransferCompleted(file_transfer, msg, success)`; none where it follows a null pointer.
unfoldable pub on_file_transfer_completed : ℕ → Part → Bool → Server → Option Server
on_file_transfer_completed id part true s = completed_for (lookup id s.transfer_sessions) part s
on_file_transfer_completed id part false s = completed_nothing (lookup id s.transfer_sessions) s

-- The loop of `AddClient`.
unfoldable pub greet : ℕ → Dict RemoteHostInfo → Server → Server
greet client [] s = s
greet client ((h, info) ∷ hosts) s = greet client hosts (
    send (to_web client (WebMsg.host_connected h info.ip info.client_user_name info.client_name)) s)

-- `AddClient(client)`
unfoldable pub add_client : ℕ → Server → Server
unfolding create_web_app_session greet
add_client client s = greet client s.active_remote_hosts (create_web_app_session client s)

-- The loop of `RemoveClient`.
unfoldable pub delete_all : Dict ℕ → Server → Server
delete_all [] s = s
delete_all ((t, h) ∷ terminals) s =
    delete_all terminals (post_term (TermCall.delete_terminal h t) s)

-- `RemoveClient(client)`
unfoldable pub remove_client : ℕ → Server → Server
unfolding get_web_app_session delete_all erase_web_app_session
remove_client client s =
    with_session (get_web_app_session client s)
      (λ session s. erase_web_app_session client (delete_all session.terminal_ids s)) s

-- A call that waited runs; none where it throws.
unfoldable pub run_web : (ℕ → Bool) → WebCall → Server → Option Server
unfolding on_ws_client_message add_client remove_client on_remote_host_info_received
    on_terminal_client_closed on_terminal_created on_terminal_output on_terminal_closed
    on_file_transfer_data_received
run_web up (WebCall.on_ws_client_message c json) s = on_ws_client_message up c json s
run_web up (WebCall.add_client c) s = some (add_client c s)
run_web up (WebCall.remove_client c) s = some (remove_client c s)
run_web up (WebCall.on_remote_host_info_received h ip user_name name) s =
    some (on_remote_host_info_received h ip user_name name s)
run_web up (WebCall.on_terminal_client_closed h) s = some (on_terminal_client_closed h s)
run_web up (WebCall.on_terminal_created c t h success) s =
    some (on_terminal_created c t h success s)
run_web up (WebCall.on_terminal_output c t output) s = some (on_terminal_output c t output s)
run_web up (WebCall.on_terminal_closed c t h) s = some (on_terminal_closed c t h s)
run_web up (WebCall.on_file_transfer_data_received id part) s =
    some (on_file_transfer_data_received id part s)
