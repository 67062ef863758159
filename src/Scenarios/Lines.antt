-- ===== src/Scenarios/Lines.antt =====
-- The theorems on the line between the server and a remote host (7), with a memory whose integers have
-- their lowest byte first.
use html_terminal.Prelude.{ℕ, Bool, true, some, [], ◌∷◌, codes}
use html_terminal.Server.Dispatch.{TerminalServer}
use html_terminal.Server.Loops.{start}
use html_terminal.TermClient.{TerminalHandler, init_called, on_terminal_created, on_terminal_read}
use html_terminal.TermClient.Dispatch as Host
use html_terminal.TermClient.Dispatch.{TerminalClient, with_terminals}
use html_terminal.TermClient.Flow.{connected}
use html_terminal.TermClient.Dispatch.{TerminalClient}
use html_terminal.Link.Line.{Line, new_line}

abbrev client : TerminalClient
client = record { terminals = connected; files = record { transfers = []; connecting = [] } }

abbrev control : TerminalServer
control = record { server = start; transfers = []; host_sent = []; monitored = []; removed = [] }

abbrev starts : ℕ → Bool
starts t = true

abbrev handler : TerminalHandler
handler = record { terminals = (1, 1) ∷ []; read_enabled = true }

-- The client has started the terminal 1, which has written once, and the server has read nothing of it.
abbrev busy : Line
busy = record {
  client = record (new_line client control).client {
    terminals = record {
      pending_msg_counter = 1;
      term_handler = some handler;
      waiting = [];
      calls = init_called 1 ∷ [];
      sent = on_terminal_read 1 (codes "x") ∷ on_terminal_created 1 true ∷ [];
    };
  };
  server = control;
  to_server = on_terminal_created 1 true ∷ on_terminal_read 1 (codes "x") ∷ [];
  to_host = [];
}
