-- ===== src/Link/Line.antt =====
-- The line between the control server and the client on a host, with all that is under way on it: the
-- output of terminals in one direction, and acknowledgements and commands in the other.
mod Turns
mod Counts
pub mod Acks
use html_terminal.Prelude.{
  ℕ, zero, suc, ◌+◌, ◌≡◌, Bool, true, Option, some, List, [], ◌∷◌, ◌++◌, Text, is_some,
}
use html_terminal.Wire.{MessageType, Memory, Packet, bare_message}
use html_terminal.Server.State.{HostMsg}
use html_terminal.Server.Dispatch as Control
use html_terminal.Server.Dispatch.{TerminalServer, host_packet}
use html_terminal.TermClient.{
  TermClient, Reply, on_terminal_created, on_terminal_read, on_terminal_end, client_info, ping,
  pong, read_terminal, turn,
}
use html_terminal.TermClient.Dispatch as Host
use html_terminal.TermClient.Dispatch.{TerminalClient, reply_packet, with_terminals}

-- What goes to the host: a command, an answer without content, which is an acknowledgement or a pong, or
-- a ping.
pub data Down : Type 0 where
  command : HostMsg → Down
  ack pong_back pinged : Down

abbrev pub down_packet : (mem : Memory) → Down → Packet
down_packet mem (command msg) = host_packet mem msg
down_packet mem ack = bare_message MessageType.on_terminal_read_ack
down_packet mem pong_back = bare_message MessageType.pong
down_packet mem pinged = bare_message MessageType.ping

abbrev pub type_of : Down → MessageType
type_of (command msg) = MessageType.unknown
type_of ack = MessageType.on_terminal_read_ack
type_of pong_back = MessageType.pong
type_of pinged = MessageType.ping

-- `to_server` and `to_host` have what is under way, the first one first.
pub record Line : Type 0 where
  pub client : TerminalClient
  pub server : TerminalServer
  pub to_server : List Reply
  pub to_host : List Down

-- Messages after those that were sent, the latest first.
abbrev pub after_replies : List Reply → List Reply → List Reply
after_replies [] sent = sent
after_replies (msg ∷ msgs) sent = after_replies msgs (msg ∷ sent)

abbrev pub after_answers : ℕ → List Down → List (ℕ × MessageType) → List (ℕ × MessageType)
after_answers h [] sent = sent
after_answers h (msg ∷ msgs) sent = after_answers h msgs ((h, type_of msg) ∷ sent)

-- A terminal writes, the server reads a message, it sends a command or a ping, the client reads a
-- message, or the thread of the client has a turn. What a step sends is under way afterwards.
pub data Step (mem : Memory) (h : ℕ) (ip : Text) (l : Line) : Line → Type 0 where
  writes :
      (t : ℕ) (output : List ℕ) (replies : List Reply)
      → is_some l.client.terminals.term_handler ≡ true
      → (read_terminal t output l.client.terminals).sent
        ≡ after_replies replies l.client.terminals.sent
      → Step mem h ip l (record l {
        client = with_terminals (read_terminal t output) l.client;
        to_server = l.to_server ++ replies;
      })
  server_reads :
      (msg : Reply) (rest : List Reply) (answers : List Down) (s' : TerminalServer)
      → l.to_server ≡ msg ∷ rest
      → Control.on_client_read mem h ip (reply_packet mem msg) l.server ≡ some s'
      → s'.host_sent ≡ after_answers h answers l.server.host_sent
      → Step mem h ip l (record l { server = s'; to_server = rest; to_host = l.to_host ++ answers })
  commands :
      (msg : HostMsg) → Step mem h ip l (record l { to_host = l.to_host ++ (command msg ∷ []) })
  pings : Step mem h ip l (record l { to_host = l.to_host ++ (pinged ∷ []) })
  client_reads :
      (msg : Down) (rest : List Down) (replies : List Reply)
      → l.to_host ≡ msg ∷ rest
      → (Host.on_client_read mem (down_packet mem msg) l.client).terminals.sent
        ≡ after_replies replies l.client.terminals.sent
      → Step mem h ip l (record l {
        client = Host.on_client_read mem (down_packet mem msg) l.client;
        to_server = l.to_server ++ replies;
        to_host = rest;
      })
  client_turns :
      (init : ℕ → Bool) (replies : List Reply) (c' : TermClient)
      → turn init l.client.terminals ≡ some c'
      → c'.sent ≡ after_replies replies l.client.terminals.sent
      → Step mem h ip l (record l {
        client = with_terminals (λ c. c') l.client;
        to_server = l.to_server ++ replies;
      })

-- The connection as it begins: nothing is under way.
abbrev pub new_line : TerminalClient → TerminalServer → Line
new_line c s = record { client = c; server = s; to_server = []; to_host = [] }

pub data Reach (mem : Memory) (h : ℕ) (ip : Text) (c : TerminalClient) (s : TerminalServer)
    : ℕ → Line → Type 0 where
  here : Reach mem h ip c s 0 (new_line c s)
  next :
      {n : ℕ} {l l' : Line}
      → Reach mem h ip c s n l
      → Step mem h ip l l'
      → Reach mem h ip c s (suc n) l'

-- The output among messages, and the acknowledgements.
abbrev pub reads : List Reply → ℕ
reads [] = 0
reads (on_terminal_read t output ∷ msgs) = suc (reads msgs)
reads (_ ∷ msgs) = reads msgs

abbrev pub acks : List Down → ℕ
acks [] = 0
acks (ack ∷ msgs) = suc (acks msgs)
acks (_ ∷ msgs) = acks msgs
