-- ===== src/TermClient/Dispatch.antt =====
-- TerminalClient.cpp: the messages between the client on a remote host and the control server, by their
-- bytes. A call posts itself with the content; here it posts the arguments that it reads there.
use html_terminal.Prelude.{codes, ℕ, not, Option, none, some, [], ◌∷◌, Text, ◌==◌, if◌then◌else◌}
use html_terminal.Wire.{
  MessageType, type_from_int, Memory, Packet, simple_message, bare_message, read_integer, or_zero,
}
use html_terminal.FileTransfer.{number}
use html_terminal.FileTransfer.Handlers.{FileTransferHandlerClient, make_file_transfer_request}
use html_terminal.TermClient.{
  TermClient, Reply, on_terminal_created, on_terminal_read, on_terminal_end, client_info, ping,
  pong, ThreadCall, handle_create_terminal, handle_delete_terminal, handle_resize_terminal,
  handle_terminal_write, post, reply, handle_disconnected, on_read_ack,
}

-- `TerminalClient` with the part of it that is a `FileTransferHandlerClient`.
pub record TerminalClient : Type 0 where
  pub terminals : TermClient
  pub files : FileTransferHandlerClient

-- The messages of `SendClientInfoMsg`, `HandleCreateTerminal`, `OnTerminalRead`, `OnTerminalEnd`,
-- `SendPingToClient` and `HandlePingMessage`.
unfoldable pub reply_packet : (mem : Memory) → Reply → Packet
reply_packet mem (on_terminal_created t result) =
    simple_message mem MessageType.on_terminal_created
      (mem.add (mem.bytes_of 1 (number result)) (mem.make_data (mem.bytes_of 4 t)))
reply_packet mem (on_terminal_read t output) =
    simple_message mem MessageType.on_terminal_read
      (mem.add output (mem.make_data (mem.bytes_of 4 t)))
reply_packet mem (on_terminal_end t) =
    simple_message mem MessageType.on_terminal_end (mem.make_data (mem.bytes_of 4 t))
reply_packet mem (client_info user_name client_name) =
    simple_message mem MessageType.client_info
      (mem.add client_name (mem.add (0 ∷ []) (mem.make_data user_name)))
reply_packet mem ping = bare_message MessageType.ping
reply_packet mem pong = bare_message MessageType.pong

abbrev pub with_terminals : (TermClient → TermClient) → TerminalClient → TerminalClient
with_terminals f c = record c { terminals = f c.terminals }

-- A call with the terminal id, if `CopyTo` reads it.
abbrev pub post_with_id : Option ℕ → (ℕ → ThreadCall) → TerminalClient → TerminalClient
post_with_id none call c = c
post_with_id (some t) call c = with_terminals (post (call t)) c

-- The second number, if the first is read.
abbrev pub and_also : Option ℕ → Option ℕ → Option ℕ
and_also none second = none
and_also (some _) second = second

-- `HandleResizeTerminal(msg_data)` calls `Resize` whether the data was read or not.
unfoldable pub handle_resize_terminal_data :
    (mem : Memory) → mem.Data → TerminalClient → TerminalClient
unfolding read_integer
handle_resize_terminal_data mem d =
    let terminal_id = read_integer mem d 0 4 in
    let width = and_also terminal_id (read_integer mem d 4 2) in
    let height = and_also width (read_integer mem d 6 2) in
    with_terminals
      (post (handle_resize_terminal (or_zero terminal_id) (or_zero width) (or_zero height)))

abbrev pub request_file :
    Option ℕ → Option ℕ → Text → FileTransferHandlerClient → FileTransferHandlerClient
request_file (some id) (some is_download) (c ∷ path) s =
    make_file_transfer_request id (not (is_download == 0)) (c ∷ path) s
request_file _ _ _ s = s

-- `HandleFileRequest(msg_data)`
unfoldable pub handle_file_request : (mem : Memory) → mem.Data → TerminalClient → TerminalClient
unfolding read_integer make_file_transfer_request
handle_file_request mem d c =
    let path = mem.to_string (mem.set_offset 5 d) in
    record c { files = request_file (read_integer mem d 0 4) (read_integer mem d 4 1) path c.files }

abbrev pub dispatch : (mem : Memory) → MessageType → mem.Data → TerminalClient → TerminalClient
dispatch mem MessageType.ping d = with_terminals (reply pong)
dispatch mem MessageType.on_terminal_read_ack d = with_terminals on_read_ack
dispatch mem MessageType.create_terminal d =
    post_with_id (read_integer mem d 0 4) handle_create_terminal
dispatch mem MessageType.resize_terminal d = handle_resize_terminal_data mem d
dispatch mem MessageType.delete_terminal d =
    post_with_id (read_integer mem d 0 4) handle_delete_terminal
dispatch mem MessageType.on_terminal_write d =
    post_with_id (read_integer mem d 0 4)
      (λ t. handle_terminal_write t (mem.to_string (mem.add_offset 4 d)))
dispatch mem MessageType.file_transfer_req d = handle_file_request mem d
dispatch mem _ d = λ c. c

-- `OnClientRead(client, msg)`
unfoldable pub on_client_read : (mem : Memory) → Packet → TerminalClient → TerminalClient
unfolding type_from_int read_integer on_read_ack handle_resize_terminal_data handle_file_request
on_client_read mem msg c =
    if msg.completed then dispatch mem (type_from_int msg.type) (mem.make_data msg.content) c else c

abbrev or_unknown : Option Text → Text
or_unknown none = codes "Unknown"
or_unknown (some name) = name

-- `OnClientConnected(client)`, with `SendClientInfoMsg()`: `user` and `name` are the environment's USER
-- and TERMINAL_CLIENT_NAME, if they are set.
unfoldable pub on_client_connected : Option Text → Option Text → TerminalClient → TerminalClient
on_client_connected user name =
    with_terminals (reply (client_info (or_unknown user) (or_unknown name)))

-- `SendPingToClient(client)`
unfoldable pub send_ping_to_client : TerminalClient → TerminalClient
send_ping_to_client = with_terminals (reply ping)

-- `OnClientClosed(client)` and `OnClientUnresponsive(client)`
unfoldable pub on_client_closed : TerminalClient → TerminalClient
unfolding handle_disconnected
on_client_closed = with_terminals handle_disconnected
