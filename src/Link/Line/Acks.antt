-- ===== src/Link/Line/Acks.antt =====
-- The counter of the client and what is under way on the line.
use html_terminal.Prelude.{ℕ, ◌+◌, ◌≤◌, ◌≡◌, Text}
use html_terminal.Wire.{Memory, IsLawful}
use html_terminal.Server.Dispatch as Control
use html_terminal.Server.Dispatch.{introduce}
use html_terminal.TermClient.Dispatch as Host
use html_terminal.Link.Line.{Line, reads, acks}

module _ (mem : Memory) (law : IsLawful mem) (h : ℕ) (ip : Text) where
  -- Every message that the counter counts is under way, or its acknowledgement is.
  pub record Counted (n : ℕ) (l : Line) : Type 0 where
    pub all : l.client.terminals.pending_msg_counter ≡ reads l.to_server + acks l.to_host
    pub small : l.client.terminals.pending_msg_counter ≤ n
