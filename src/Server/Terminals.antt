-- ===== src/Server/Terminals.antt =====
-- TerminalServer.cpp: the calls that its thread runs. `up` says which remote hosts have a connection:
-- `_proxy_server->GetClient(id)`, of the server library.
use html_terminal.Prelude.{
  ℕ, ◌+◌, ◌%◌, ◌^◌, Bool, Option, none, some, List, [], Text, Dict, lookup, if◌then◌else◌,
}
use html_terminal.Server.Tables.{emplace, remove, assign}
use html_terminal.Server.State.{
  Server, TerminalInfo, to_host, HostMsg, create_terminal, on_terminal_write, WebCall,
  on_terminal_client_closed, on_terminal_created, on_terminal_output, on_terminal_closed, send,
  post_web, TermCall,
}

-- `NextId()`
unfoldable pub next_id : Server → ℕ
next_id s = (s.id_counter + 1) % 2 ^ 32

abbrev pub table_of : Option (Dict TerminalInfo) → Dict TerminalInfo
table_of none = []
table_of (some table) = table

-- `_remote_hosts[remote_host_id].AddTerminal(terminal_id, info)`
unfoldable pub add_terminal : ℕ → ℕ → TerminalInfo → Server → Server
unfolding assign emplace
add_terminal remote_host_id terminal_id info s = record s {
  remote_hosts =
      assign remote_host_id
        (emplace terminal_id info (table_of (lookup remote_host_id s.remote_hosts))) s.remote_hosts;
}

-- `CreateNewTerminal(app_client_id, remote_host_id)`
unfoldable pub create_new_terminal : (ℕ → Bool) → ℕ → ℕ → Server → Server
unfolding next_id add_terminal
create_new_terminal up app_client_id remote_host_id s =
    if up remote_host_id
    then (let id = next_id s in
        let info : TerminalInfo = record {
          proxy_client_id = remote_host_id;
          app_client_id = app_client_id;
        } in
        send (to_host remote_host_id (create_terminal id))
          (add_terminal remote_host_id id info (record s { id_counter = id })))
    else s

-- A message for a remote host, if it has a connection.
unfoldable pub send_to : (ℕ → Bool) → ℕ → HostMsg → Server → Server
send_to up remote_host_id msg s =
    if up remote_host_id then send (to_host remote_host_id msg) s else s

-- `ResizeTerminal(remote_host_id, terminal_id, width, height)`: the sizes are sent in 16 bits.
unfoldable pub resize_terminal : (ℕ → Bool) → ℕ → ℕ → ℕ → ℕ → Server → Server
unfolding send_to
resize_terminal up remote_host_id terminal_id width height =
    send_to up remote_host_id
      (HostMsg.resize_terminal terminal_id (width % 2 ^ 16) (height % 2 ^ 16))

-- `DeleteTerminal(remote_host_id, terminal_id)`
unfoldable pub delete_terminal : (ℕ → Bool) → ℕ → ℕ → Server → Server
unfolding send_to
delete_terminal up remote_host_id terminal_id =
    send_to up remote_host_id (HostMsg.delete_terminal terminal_id)

-- `SendKeyEvent(remote_host_id, terminal_id, key)`
unfoldable pub send_key_event : (ℕ → Bool) → ℕ → ℕ → Text → Server → Server
unfolding send_to
send_key_event up remote_host_id terminal_id key =
    send_to up remote_host_id (on_terminal_write terminal_id key)

abbrev pub info_in : ℕ → Option (Dict TerminalInfo) → Option TerminalInfo
info_in terminal_id none = none
info_in terminal_id (some table) = lookup terminal_id table

abbrev pub client_in : Option TerminalInfo → Option ℕ
client_in none = none
client_in (some info) = some info.app_client_id

-- `GetAppClinetId(client_id, terminal_id, out_app_client_id)`, none where it is false.
unfoldable pub get_app_clinet_id : ℕ → ℕ → Server → Option ℕ
get_app_clinet_id client_id terminal_id s =
    client_in (info_in terminal_id (lookup client_id s.remote_hosts))

abbrev pub call_for : Option ℕ → (ℕ → WebCall) → Server → Server
call_for none call s = s
call_for (some client) call s = post_web (call client) s

-- `HandleTerminalCreated(client, msg_data)`, of a terminal id and a success
unfoldable pub handle_terminal_created : ℕ → ℕ → Bool → Server → Server
unfolding get_app_clinet_id
handle_terminal_created remote_host_id terminal_id success s =
    call_for (get_app_clinet_id remote_host_id terminal_id s)
      (λ client. on_terminal_created client terminal_id remote_host_id success) s

-- `HandleTerminalRead(client, msg_data)`, of a terminal id and its output
unfoldable pub handle_terminal_read : ℕ → ℕ → List ℕ → Server → Server
unfolding get_app_clinet_id
handle_terminal_read client_id terminal_id output s =
    call_for (get_app_clinet_id client_id terminal_id s)
      (λ client. on_terminal_output client terminal_id output) s

-- `HandleTerminalEnd(client, msg_data)`, of a terminal id
unfoldable pub handle_terminal_end : ℕ → ℕ → Server → Server
unfolding get_app_clinet_id
handle_terminal_end remote_host_id terminal_id s =
    call_for (get_app_clinet_id remote_host_id terminal_id s)
      (λ client. on_terminal_closed client terminal_id remote_host_id) s

-- `OnClientClosed(client)`
unfoldable pub on_client_closed : ℕ → Server → Server
unfolding remove
on_client_closed client s =
    post_web (on_terminal_client_closed client)
      (record s { remote_hosts = remove client s.remote_hosts })

-- A call that waited runs.
unfoldable pub run_term : (ℕ → Bool) → TermCall → Server → Server
unfolding create_new_terminal resize_terminal delete_terminal send_key_event handle_terminal_created
    handle_terminal_read handle_terminal_end on_client_closed
run_term up (TermCall.create_new_terminal c h) = create_new_terminal up c h
run_term up (TermCall.resize_terminal h t width height) = resize_terminal up h t width height
run_term up (TermCall.delete_terminal h t) = delete_terminal up h t
run_term up (TermCall.send_key_event h t key) = send_key_event up h t key
run_term up (TermCall.handle_terminal_created h t success) = handle_terminal_created h t success
run_term up (TermCall.handle_terminal_read h t output) = handle_terminal_read h t output
run_term up (TermCall.handle_terminal_end h t) = handle_terminal_end h t
run_term up (TermCall.on_client_closed h) = on_client_closed h
