-- ===== src/Server/Ownership/Safety.antt =====
-- What the book means for the messages that are sent.
use html_terminal.Prelude.{
  ℕ, ◌^◌, ◌<◌, ◌≡◌, sym, ◌∙◌, Option, none, some, get_elem?, All-get_elem?, arith,
}
use html_terminal.Server.State.{Server, to_web, to_host, WebMsg, HostMsg}
use html_terminal.Server.Loops.{Reach}
use html_terminal.Server.Ownership.{Book, SentFact, WebMsgFact, HostMsgFact}
use html_terminal.Server.Ownership.Steps.{booked, Reach-Booked}

-- The terminal that a message for a web client is about.
abbrev pub web_topic : WebMsg → Option ℕ
web_topic (WebMsg.terminal_created h t) = some t
web_topic (WebMsg.terminal_output t output) = some t
web_topic (WebMsg.terminal_closed t h) = some t
web_topic (WebMsg.directory_listing t path files) = some t
web_topic _ = none

-- The terminal that a message for a remote host is about.
abbrev pub host_topic : HostMsg → Option ℕ
host_topic (HostMsg.create_terminal t) = some t
host_topic (HostMsg.resize_terminal t width height) = some t
host_topic (HostMsg.delete_terminal t) = some t
host_topic (HostMsg.on_terminal_write t key) = some t
host_topic _ = none

some_eq : (x t : ℕ) → ◌≡◌ {A = Option ℕ} (some x) (some t) → x ≡ t
some_eq x t e = ground arith

web_topic-client_of :
    (b : Book) (c t : ℕ) (msg : WebMsg)
    → web_topic msg ≡ some t
    → WebMsgFact b c msg
    → b.client_of t ≡ c
web_topic-client_of b c t (WebMsg.terminal_created h x) e o = rw (sym (some_eq x t e)) o.1
web_topic-client_of b c t (WebMsg.terminal_output x output) e (h, o) = rw (sym (some_eq x t e)) o.1
web_topic-client_of b c t (WebMsg.terminal_closed x h) e o = rw (sym (some_eq x t e)) o.1
web_topic-client_of b c t (WebMsg.host_connected h ip user_name name) e f = cc
web_topic-client_of b c t (WebMsg.host_disconnected h) e f = cc
web_topic-client_of b c t (WebMsg.directory_listing x path files) e (h, o) =
    rw (sym (some_eq x t e)) o.1

host_topic-host_of :
    (b : Book) (h t : ℕ) (msg : HostMsg)
    → host_topic msg ≡ some t
    → HostMsgFact b h msg
    → b.host_of t ≡ h
host_topic-host_of b h t (HostMsg.create_terminal x) e (c, o) = rw (sym (some_eq x t e)) o.2
host_topic-host_of b h t (HostMsg.resize_terminal x width height) e (c, o) =
    rw (sym (some_eq x t e)) o.2
host_topic-host_of b h t (HostMsg.delete_terminal x) e (c, o) = rw (sym (some_eq x t e)) o.2
host_topic-host_of b h t (HostMsg.on_terminal_write x key) e (c, o) = rw (sym (some_eq x t e)) o.2
host_topic-host_of b h t (HostMsg.file_transfer_req x path) e f = cc

module _ {n : ℕ} {s : Server} (r : Reach n s) (small : n < 2 ^ 32) where
  -- Whatever the clients, the hosts and the threads did in fewer than 2 ^ 32 steps: two messages that
  -- web clients were sent about the same terminal went to the same client.
  pub one_client_per_terminal :
      (i j c c' t : ℕ) (msg msg' : WebMsg)
      → get_elem? s.sent i ≡ some (to_web c msg)
      → get_elem? s.sent j ≡ some (to_web c' msg')
      → web_topic msg ≡ some t
      → web_topic msg' ≡ some t
      → c ≡ c'
  one_client_per_terminal i j c c' t msg msg' e e' f f' = elim (Reach-Booked r small) [
    | booked b a le ↦
        sym (web_topic-client_of b c t msg f (All-get_elem? (SentFact b) s.sent i a.sent e))
        ∙ web_topic-client_of b c' t msg' f' (All-get_elem? (SentFact b) s.sent j a.sent e')
  ]

  -- Whatever the clients, the hosts and the threads did in fewer than 2 ^ 32 steps: two commands that
  -- remote hosts were sent about the same terminal, its creation among them, went to the same host.
  pub one_host_per_terminal :
      (i j h h' t : ℕ) (msg msg' : HostMsg)
      → get_elem? s.sent i ≡ some (to_host h msg)
      → get_elem? s.sent j ≡ some (to_host h' msg')
      → host_topic msg ≡ some t
      → host_topic msg' ≡ some t
      → h ≡ h'
  one_host_per_terminal i j h h' t msg msg' e e' f f' = elim (Reach-Booked r small) [
    | booked b a le ↦
        sym (host_topic-host_of b h t msg f (All-get_elem? (SentFact b) s.sent i a.sent e))
        ∙ host_topic-host_of b h' t msg' f' (All-get_elem? (SentFact b) s.sent j a.sent e')
  ]
