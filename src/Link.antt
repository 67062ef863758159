-- ===== src/Link.antt =====
-- TerminalServer.cpp and TerminalClient.cpp together: what either side makes of the bytes of the other.
pub mod Commands
pub mod Answers
pub mod Creation
pub mod Line
use html_terminal.Prelude.{
  ℕ, ◌%◌, ◌^◌, ◌≢◌, Bool, true, false, Option, some, List, [], ◌∷◌, Text, All,
}
use html_terminal.Wire.{MessageType}
use html_terminal.TermClient.{
  Reply, on_terminal_created, on_terminal_read, on_terminal_end, client_info, ping, pong,
  handle_create_terminal, handle_delete_terminal, handle_resize_terminal, handle_terminal_write,
  post,
}
use html_terminal.TermClient.Dispatch.{TerminalClient, with_terminals}
use html_terminal.FileTransfer.Handlers.{make_file_transfer_request}
use html_terminal.Server.State.{
  HostMsg, TermCall, on_terminal_write, file_transfer_req, on_remote_host_info_received, post_web,
}
use html_terminal.Server.Dispatch.{TerminalServer, answer, post_call}

-- What the client is to do for a message of the server.
abbrev pub delivered : HostMsg → TerminalClient → TerminalClient
delivered (HostMsg.create_terminal t) = with_terminals (post (handle_create_terminal (t % 2 ^ 32)))
delivered (HostMsg.resize_terminal t width height) =
    with_terminals (post (handle_resize_terminal (t % 2 ^ 32) (width % 2 ^ 16) (height % 2 ^ 16)))
delivered (HostMsg.delete_terminal t) = with_terminals (post (handle_delete_terminal (t % 2 ^ 32)))
delivered (on_terminal_write t key) = with_terminals (post (handle_terminal_write (t % 2 ^ 32) key))
delivered (file_transfer_req id []) = λ c. c
delivered (file_transfer_req id (b ∷ path)) =
    λ c. record c { files = make_file_transfer_request (id % 2 ^ 32) true (b ∷ path) c.files }

-- No byte of the user's name is 0.
abbrev pub IsCString : Text → Type 0
IsCString = All (λ b. b ≢ 0)

abbrev pub HasPlainName : Reply → Type 0
HasPlainName (client_info user_name client_name) = IsCString user_name
HasPlainName _ = Unit

-- What the server is to do for a message of the client `h` at the address `ip`.
abbrev pub heard : ℕ → Text → Reply → TerminalServer → TerminalServer
heard h ip (on_terminal_created t result) =
    post_call (TermCall.handle_terminal_created h (t % 2 ^ 32) result)
heard h ip (on_terminal_read t output) = λ s.
    post_call (TermCall.handle_terminal_read h (t % 2 ^ 32) output)
      (answer h MessageType.on_terminal_read_ack s)
heard h ip (on_terminal_end t) = post_call (TermCall.handle_terminal_end h (t % 2 ^ 32))
heard h ip (client_info user_name client_name) = λ s. record s {
  server = post_web (on_remote_host_info_received h ip user_name client_name) s.server;
  monitored = h ∷ s.monitored;
}
heard h ip ping = answer h MessageType.pong
heard h ip pong = λ s. s
