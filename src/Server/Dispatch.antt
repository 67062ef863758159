-- ===== src/Server/Dispatch.antt =====
-- TerminalServer.cpp: the messages between the control server and a remote host, by their bytes. A
-- call posts itself with the content; here it posts the arguments that it reads there.
use html_terminal.Prelude.{
  Bool, false, ℕ, true, not, Option, none, some, List, [], ◌∷◌, Text, Dict, ◌==◌, if◌then◌else◌,
}
use html_terminal.Wire.{
  MessageType, type_from_int, Memory, Packet, simple_message, read_integer, or_zero,
}
use html_terminal.FileTransfer.{FileSystem, FileTransfer, new_transfer, transfer_request_msg}
use html_terminal.FileTransfer.Handlers.{make_new_transfer_req, handle_file_transfer_init}
use html_terminal.Server.State.{
  Server, HostMsg, on_terminal_write, file_transfer_req, TermCall, handle_terminal_created,
  handle_terminal_read, handle_terminal_end, on_client_closed, to_host, send,
  on_remote_host_info_received, post_web, post_term,
}

-- `TerminalServer` with the part of it that is a `FileTransferHandlerServer`, and the calls of its
-- handlers, the latest first: messages without content to hosts, hosts given to `MonitorClient`, and
-- connections given to `RemoveClient`.
pub record TerminalServer : Type 0 where
  pub server : Server
  pub transfers : Dict FileTransfer
  pub host_sent : List (ℕ × MessageType)
  pub monitored : List ℕ
  pub removed : List ℕ

-- The messages of `CreateNewTerminal`, `ResizeTerminal`, `DeleteTerminal`, `SendKeyEvent` and
-- `CreateFileRequest`.
unfoldable pub host_packet : (mem : Memory) → HostMsg → Packet
unfolding transfer_request_msg
host_packet mem (HostMsg.create_terminal t) =
    simple_message mem MessageType.create_terminal (mem.make_data (mem.bytes_of 4 t))
host_packet mem (HostMsg.resize_terminal t width height) =
    simple_message mem MessageType.resize_terminal (
      mem.add (mem.bytes_of 2 height)
        (mem.add (mem.bytes_of 2 width) (mem.make_data (mem.bytes_of 4 t))))
host_packet mem (HostMsg.delete_terminal t) =
    simple_message mem MessageType.delete_terminal (mem.make_data (mem.bytes_of 4 t))
host_packet mem (on_terminal_write t key) =
    simple_message mem MessageType.on_terminal_write
      (mem.add key (mem.add (mem.bytes_of 4 t) (mem.make_data [])))
host_packet mem (file_transfer_req id path) = transfer_request_msg mem (new_transfer id path true)

abbrev pub answer : ℕ → MessageType → TerminalServer → TerminalServer
answer h type s = record s { host_sent = (h, type) ∷ s.host_sent }

abbrev pub post_call : TermCall → TerminalServer → TerminalServer
post_call call s = record s { server = post_term call s.server }

-- A string that ends at the first byte 0, and what stands behind it; none where no byte is 0.
abbrev pub add_byte : ℕ → Option (Text × Text) → Option (Text × Text)
add_byte b none = none
add_byte b (some (name, rest)) = some (b ∷ name, rest)

unfoldable pub split_name : List ℕ → Option (Text × Text)
split_name [] = none
split_name (b ∷ bytes) =
    let rest = split_name bytes in if b == 0 then some ([], bytes) else add_byte b rest

abbrev pub introduce : ℕ → Text → Option (Text × Text) → TerminalServer → Option TerminalServer
introduce h ip none s = none
introduce h ip (some (user_name, host_name)) s = some (record s {
  server = post_web (on_remote_host_info_received h ip user_name host_name) s.server;
  monitored = h ∷ s.monitored;
})

-- `HandleClientInfo(client, msg_data)`; none where it reads behind the end of the data.
unfoldable pub handle_client_info : ℕ → Text → List ℕ → TerminalServer → Option TerminalServer
unfolding split_name
handle_client_info h ip bytes = introduce h ip (split_name bytes)

-- `HandleFileTransferInit(client, data)`
unfoldable pub handle_transfer_init :
    (mem : Memory) → ℕ → mem.Data → TerminalServer → TerminalServer
unfolding handle_file_transfer_init
handle_transfer_init mem h d s = record s {
  transfers = handle_file_transfer_init mem h d s.transfers;
  removed = h ∷ s.removed;
}

-- What is not read is 0.
abbrev pub dispatch :
    (mem : Memory) → ℕ → Text → MessageType → mem.Data → TerminalServer → Option TerminalServer
dispatch mem h ip MessageType.client_info d s = handle_client_info h ip (mem.to_string d) s
dispatch mem h ip MessageType.on_terminal_created d s =
    let terminal_id = or_zero (read_integer mem d 0 4) in
    let success = or_zero (read_integer mem d 4 1) in
    some (post_call (handle_terminal_created h terminal_id (not (success == 0))) s)
dispatch mem h ip MessageType.on_terminal_read d s =
    let terminal_id = or_zero (read_integer mem d 0 4) in
    let output = mem.to_string (mem.set_offset 4 d) in
    some (
      post_call (handle_terminal_read h terminal_id output)
        (answer h MessageType.on_terminal_read_ack s))
dispatch mem h ip MessageType.on_terminal_end d s =
    some (post_call (handle_terminal_end h (or_zero (read_integer mem d 0 4))) s)
dispatch mem h ip MessageType.ping d s = some (answer h MessageType.pong s)
dispatch mem h ip MessageType.file_transfer_init d s = some (handle_transfer_init mem h d s)
dispatch mem h ip _ d s = some s

-- `OnClientRead(client, msg)`, of a client with the id `h` and the address `ip`; none where it reads
-- behind the end of the data.
unfoldable pub on_client_read :
    (mem : Memory) → ℕ → Text → Packet → TerminalServer → Option TerminalServer
unfolding type_from_int read_integer handle_client_info handle_transfer_init
on_client_read mem h ip msg s =
    if msg.completed
    then dispatch mem h ip (type_from_int msg.type) (mem.make_data msg.content) s
    else some s

-- `SendPingToClient(client)`
unfoldable pub send_ping_to_client : ℕ → TerminalServer → TerminalServer
send_ping_to_client h = answer h MessageType.ping

-- `OnClientUnresponsive(client)`
unfoldable pub on_client_unresponsive : ℕ → TerminalServer → TerminalServer
on_client_unresponsive h s = post_call (on_client_closed h) (record s { removed = h ∷ s.removed })

abbrev asked :
    ℕ → ℕ → Text → Option (Dict FileTransfer × Packet) → TerminalServer → TerminalServer × Bool
asked h id path none s = (s, false)
asked h id path (some (transfers, _)) s = (
  record s {
    transfers = transfers;
    server = send (to_host h (file_transfer_req id path)) s.server;
  },
  true,
)

-- `CreateFileRequest(remote_host_id, file_transfer_id, path, true)`, and whether there is a request.
unfoldable pub create_file_request :
    (mem : Memory) → FileSystem → (ℕ → Bool) → ℕ → ℕ → Text → TerminalServer → TerminalServer × Bool
unfolding make_new_transfer_req
create_file_request mem fs up h id path s =
    if up h
    then asked h id path (make_new_transfer_req mem fs id path true s.transfers) s
    else (s, false)
