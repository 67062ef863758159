-- ===== src/Server/Web/Commands.antt =====
-- The handlers of WebAppServer.cpp for what web clients ask for.
use html_terminal.Prelude.{ℕ, Bool, Option, none, some, Text, lookup, if◌then◌else◌}
use html_terminal.Server.Tables
use html_terminal.Server.Tables.{emplace, remove}
use html_terminal.Server.State.{
  Server, WebAppSession, FileTransferSession, to_host, HostMsg, TermCall, create_new_terminal,
  send_key_event, send, post_term,
}
use html_terminal.Server.Sessions.{
  get_web_app_session, delete_terminal, get_remote_host_by_terminal,
  is_web_app_client_owning_terminal, find_remote_host, next_transfer_id,
  create_file_transfer_session, erase_file_transfer_session,
}
use html_terminal.Server.Web.Reading.{Request, add_terminal, resize, del, key_event, file, ignored}

-- `if(!_sessions.IsWebAppClientOwningTerminal(...)) { return; }` and
-- `if(!_sessions.GetRemoteHostByTerminal(...)) { return; }`, then the rest for the remote host.
abbrev pub for_host : Option ℕ → (ℕ → Server → Server) → Server → Server
for_host none f s = s
for_host (some h) f s = f h s

unfoldable pub if_owned : ℕ → ℕ → (ℕ → Server → Server) → Server → Server
unfolding is_web_app_client_owning_terminal get_remote_host_by_terminal
if_owned client terminal_id f s =
    if is_web_app_client_owning_terminal client terminal_id s
    then for_host (get_remote_host_by_terminal client terminal_id s) f s
    else s

-- `OnTerminalResizeReq(client, terminal_id, width, height)`
unfoldable pub on_terminal_resize_req : ℕ → ℕ → ℕ → ℕ → Server → Server
unfolding if_owned
on_terminal_resize_req client terminal_id width height =
    if_owned client terminal_id
      (λ h. post_term (TermCall.resize_terminal h terminal_id width height))

abbrev pub drop_terminal : ℕ → ℕ → Option WebAppSession → Server → Server
drop_terminal client terminal_id none s = s
drop_terminal client terminal_id (some session) s = delete_terminal client terminal_id session s

-- `OnTerminalDelReq(client, terminal_id)`
unfoldable pub on_terminal_del_req : ℕ → ℕ → Server → Server
unfolding if_owned get_web_app_session
on_terminal_del_req client terminal_id = if_owned client terminal_id (λ h s.
    post_term (TermCall.delete_terminal h terminal_id)
      (drop_terminal client terminal_id (get_web_app_session client s) s))

-- `OnTerminalKeyEvent(client, terminal_id, key)`
unfoldable pub on_terminal_key_event : ℕ → ℕ → Text → Server → Server
unfolding if_owned
on_terminal_key_event client terminal_id key =
    if_owned client terminal_id (λ h. post_term (send_key_event h terminal_id key))

abbrev pub mark : ℕ → Option FileTransferSession → Server → Server
mark terminal_id none s = s
mark terminal_id (some session) s = record s {
  transfer_sessions =
      Tables.assign session.id (record session { terminal_id = terminal_id }) s.transfer_sessions;
}

-- The new session is in the map only if its id was not.
abbrev pub added :
    Option FileTransferSession → Option FileTransferSession → Option FileTransferSession
added (some old) new = none
added none new = new

-- A new file transfer session, and `CreateFileRequest(...)` of TerminalServer.cpp, which is called at
-- once. `terminal_id` is 0 for a download.
unfoldable pub request_file : (ℕ → Bool) → ℕ → ℕ → Text → ℕ → Server → Server
unfolding next_transfer_id create_file_transfer_session erase_file_transfer_session Tables.assign
request_file up client terminal_id path h s =
    let id = next_transfer_id s in
    let s' = create_file_transfer_session client s in
    if up h
    then mark terminal_id (added (lookup id s.transfer_sessions) (lookup id s'.transfer_sessions))
        (send (to_host h (HostMsg.file_transfer_req id path)) s')
    else erase_file_transfer_session id s'

-- `OnTerminalFileReq(client, terminal_id, path)`
unfoldable pub on_terminal_file_req : (ℕ → Bool) → ℕ → ℕ → Text → Server → Server
unfolding if_owned request_file
on_terminal_file_req up client terminal_id path =
    if_owned client terminal_id (request_file up client terminal_id path)

-- `PerpareFileDownloadResponse(http_request)` of the target `download?<terminal_id>&<path>`.
unfoldable pub perpare_file_download_response : (ℕ → Bool) → ℕ → ℕ → Text → Server → Server
unfolding find_remote_host request_file
perpare_file_download_response up client terminal_id path s =
    for_host (find_remote_host terminal_id s.web_app_sessions) (request_file up client 0 path) s

unfoldable pub on_request : (ℕ → Bool) → ℕ → Request → Server → Server
unfolding on_terminal_resize_req on_terminal_del_req on_terminal_key_event on_terminal_file_req
on_request up client (add_terminal h) = post_term (create_new_terminal client h)
on_request up client (resize t width height) = on_terminal_resize_req client t width height
on_request up client (del t) = on_terminal_del_req client t
on_request up client (key_event t key) = on_terminal_key_event client t key
on_request up client (file t path) = on_terminal_file_req up client t path
on_request up client ignored = λ s. s
