-- ===== src/Server/Sessions.antt =====
-- ActiveSessions.cpp: which web client has which terminals of which remote hosts.
use html_terminal.Prelude.{
  ℕ, ◌+◌, ◌%◌, ◌^◌, Bool, Option, none, some, List, [], ◌∷◌, Dict, lookup, is_some, if◌then◌else◌,
}
use html_terminal.Server.Tables.{emplace, remove, assign}
use html_terminal.Server.State.{Server, WebAppSession}

-- `CreateWebAppSession(web_app_client)`
unfoldable pub create_web_app_session : ℕ → Server → Server
unfolding emplace
create_web_app_session client s = record s {
  web_app_sessions =
      emplace client (record { client = client; terminal_ids = [] }) s.web_app_sessions;
}

-- `GetWebAppSession(web_app_client_id)`
unfoldable pub get_web_app_session : ℕ → Server → Option WebAppSession
get_web_app_session client s = lookup client s.web_app_sessions

-- The clients of `GetAllWebAppSessions(...)`.
unfoldable pub clients_of : Dict WebAppSession → List ℕ
clients_of [] = []
clients_of ((c, session) ∷ m) = session.client ∷ clients_of m

-- `EraseWebAppSession(web_app_client)`
unfoldable pub erase_web_app_session : ℕ → Server → Server
unfolding remove
erase_web_app_session client s = record s { web_app_sessions = remove client s.web_app_sessions }

-- A change of the session that `_web_app_sessions` holds for the client.
abbrev pub put_session : ℕ → WebAppSession → Server → Server
put_session client session s = record s {
  web_app_sessions = assign client session s.web_app_sessions;
}

-- `session->AddTerminal(terminal_id, remote_host_id)`
unfoldable pub add_terminal : ℕ → ℕ → ℕ → WebAppSession → Server → Server
unfolding assign emplace
add_terminal client terminal_id remote_host_id session =
    put_session client
      (record session { terminal_ids = emplace terminal_id remote_host_id session.terminal_ids })

-- `session->DeleteTerminal(terminal_id)`
unfoldable pub delete_terminal : ℕ → ℕ → WebAppSession → Server → Server
unfolding assign remove
delete_terminal client terminal_id session =
    put_session client (record session { terminal_ids = remove terminal_id session.terminal_ids })

abbrev pub host_in : ℕ → Option WebAppSession → Option ℕ
host_in terminal_id none = none
host_in terminal_id (some session) = lookup terminal_id session.terminal_ids

-- `GetRemoteHostByTerminal(client_id, terminal_id, out_remote_host_id)`, none where it is false.
unfoldable pub get_remote_host_by_terminal : ℕ → ℕ → Server → Option ℕ
get_remote_host_by_terminal client terminal_id s =
    host_in terminal_id (lookup client s.web_app_sessions)

-- `IsWebAppClientOwningTerminal(client, terminal_id)`
unfoldable pub is_web_app_client_owning_terminal : ℕ → ℕ → Server → Bool
unfolding get_remote_host_by_terminal
is_web_app_client_owning_terminal client terminal_id s =
    is_some (get_remote_host_by_terminal client terminal_id s)

-- `GetRemoteHostByTerminal(terminal_id, out_remote_host_id)`: that of the first session that has the
-- terminal, whoever asks.
unfoldable pub find_remote_host : ℕ → Dict WebAppSession → Option ℕ
find_remote_host terminal_id [] = none
find_remote_host terminal_id ((c, session) ∷ m) =
    let rest = find_remote_host terminal_id m in
    let here = lookup terminal_id session.terminal_ids in if is_some here then here else rest

-- `FileTransferSession::NextId()`
unfoldable pub next_transfer_id : Server → ℕ
next_transfer_id s = (s.transfer_id_counter + 1) % 2 ^ 32

-- `CreateFileTransferSession(web_app_client)`, whose id is `next_transfer_id`.
unfoldable pub create_file_transfer_session : ℕ → Server → Server
unfolding emplace next_transfer_id
create_file_transfer_session client s =
    let id = next_transfer_id s in
    record s {
      transfer_id_counter = id;
      transfer_sessions =
          emplace id (record { id = id; web_app_client = client; terminal_id = 0 })
            s.transfer_sessions;
    }

-- `EraseFileTransferSession(file_session_id)`
unfoldable pub erase_file_transfer_session : ℕ → Server → Server
unfolding remove
erase_file_transfer_session id s = record s { transfer_sessions = remove id s.transfer_sessions }
