-- ===== src/Server/Ownership.antt =====
-- A book of terminals, with a web client and a remote host for each, and what it means for the tables,
-- the waiting calls and the sent messages of the control server to agree with it.
pub mod TermSteps
pub mod WebSteps
pub mod Transfers
pub mod WebTurns
pub mod Steps
pub mod Safety
pub mod Isolation
use html_terminal.Prelude.{
  ℕ, suc, ◌+◌, ◌%◌, ◌^◌, ◌≤◌, ◌<◌, ◌≡◌, ◌≢◌, refl, ◌∙◌, Bool, true, false, Option, none, some, List,
  [], ◌∷◌, ◌++◌, ◌⊎◌, inl, inr, Dict, All, All-append, All-mono, update, update_self, update_ne,
  arith,
}
use html_terminal.Server.State.{
  Server, WebAppSession, FileTransferSession, TerminalInfo, Sent, to_web, to_http, to_host, WebMsg,
  HostMsg, WebCall, TermCall,
}

-- The terminals up to `last`.
pub record Book : Type 0 where
  pub last : ℕ
  pub client_of : ℕ → ℕ
  pub host_of : ℕ → ℕ

abbrev pub Owns : Book → ℕ → ℕ → ℕ → Type 0
Owns b c h t = (t ≤ b.last) × (b.client_of t ≡ c) × (b.host_of t ≡ h)

abbrev pub WebFact : Book → WebCall → Type 0
WebFact b (WebCall.on_terminal_created c t h success) = Owns b c h t
WebFact b (WebCall.on_terminal_output c t output) = (h : ℕ) × Owns b c h t
WebFact b (WebCall.on_terminal_closed c t h) = Owns b c h t
WebFact b _ = Unit

abbrev pub TermFact : Book → TermCall → Type 0
TermFact b (TermCall.resize_terminal h t width height) = (c : ℕ) × Owns b c h t
TermFact b (TermCall.delete_terminal h t) = (c : ℕ) × Owns b c h t
TermFact b (TermCall.send_key_event h t key) = (c : ℕ) × Owns b c h t
TermFact b _ = Unit

abbrev pub WebMsgFact : Book → ℕ → WebMsg → Type 0
WebMsgFact b c (WebMsg.terminal_created h t) = Owns b c h t
WebMsgFact b c (WebMsg.terminal_output t output) = (h : ℕ) × Owns b c h t
WebMsgFact b c (WebMsg.terminal_closed t h) = Owns b c h t
WebMsgFact b c (WebMsg.directory_listing t path files) = (h : ℕ) × Owns b c h t
WebMsgFact b c _ = Unit

abbrev pub HostMsgFact : Book → ℕ → HostMsg → Type 0
HostMsgFact b h (HostMsg.create_terminal t) = (c : ℕ) × Owns b c h t
HostMsgFact b h (HostMsg.resize_terminal t width height) = (c : ℕ) × Owns b c h t
HostMsgFact b h (HostMsg.delete_terminal t) = (c : ℕ) × Owns b c h t
HostMsgFact b h (HostMsg.on_terminal_write t key) = (c : ℕ) × Owns b c h t
HostMsgFact b h _ = Unit

abbrev pub SentFact : Book → Sent → Type 0
SentFact b (to_web c msg) = WebMsgFact b c msg
SentFact b (to_http c msg) = Unit
SentFact b (to_host h msg) = HostMsgFact b h msg

abbrev pub TerminalFact : Book → ℕ → ℕ × ℕ → Type 0
TerminalFact b c (t, h) = Owns b c h t

abbrev pub SessionFact : Book → ℕ × WebAppSession → Type 0
SessionFact b (c, session) = (session.client ≡ c) × All (TerminalFact b c) session.terminal_ids

-- A file transfer is a download, or its client owns its terminal.
abbrev pub TransferFact : Book → ℕ × FileTransferSession → Type 0
TransferFact b (id, x) = (x.terminal_id ≡ 0) ⊎ ((h : ℕ) × Owns b x.web_app_client h x.terminal_id)

abbrev pub InfoFact : Book → ℕ → ℕ × TerminalInfo → Type 0
InfoFact b h (t, info) = Owns b info.app_client_id h t

abbrev pub HostFact : Book → ℕ × Dict TerminalInfo → Type 0
HostFact b (h, table) = All (InfoFact b h) table

pub record AgreesWith (b : Book) (s : Server) : Type 0 where
  pub counter : s.id_counter ≡ b.last
  pub sessions : All (SessionFact b) s.web_app_sessions
  pub transfers : All (TransferFact b) s.transfer_sessions
  pub hosts : All (HostFact b) s.remote_hosts
  pub web : All (WebFact b) s.web_calls
  pub term : All (TermFact b) s.term_calls
  pub sent : All (SentFact b) s.sent

-- A new terminal.
unfoldable pub entered : ℕ → ℕ → Book → Book
entered c h b = record {
  last = suc b.last;
  client_of = update b.client_of (suc b.last) c;
  host_of = update b.host_of (suc b.last) h;
}

module _ (b : Book) (client host : ℕ) where
  pub entered-Owns : Owns (entered client host b) client host (suc b.last)
  unfolding entered
  entered-Owns = (
    omega arith,
    update_self b.client_of (suc b.last) client,
    update_self b.host_of (suc b.last) host,
  )

  pub entered-last : (entered client host b).last ≤ suc b.last
  unfolding entered
  entered-last = omega arith

  Owns-mono : (c h t : ℕ) → Owns b c h t → Owns (entered client host b) c h t
  unfolding entered
  Owns-mono c h t (le, e, f) =
      let other : suc b.last ≢ t = λ q. omega arith in
      (
        omega arith,
        update_ne b.client_of (suc b.last) t client other ∙ e,
        update_ne b.host_of (suc b.last) t host other ∙ f,
      )

  some_mono : (h t : ℕ) → ((c : ℕ) × Owns b c h t) → (c : ℕ) × Owns (entered client host b) c h t
  some_mono h t (c, o) = (c, Owns-mono c h t o)

  WebFact-mono : (call : WebCall) → WebFact b call → WebFact (entered client host b) call
  WebFact-mono (WebCall.on_terminal_created c t h success) o = Owns-mono c h t o
  WebFact-mono (WebCall.on_terminal_output c t output) (h, o) = (h, Owns-mono c h t o)
  WebFact-mono (WebCall.on_terminal_closed c t h) o = Owns-mono c h t o
  WebFact-mono _ o = tt

  TermFact-mono : (call : TermCall) → TermFact b call → TermFact (entered client host b) call
  TermFact-mono (TermCall.resize_terminal h t width height) o = some_mono h t o
  TermFact-mono (TermCall.delete_terminal h t) o = some_mono h t o
  TermFact-mono (TermCall.send_key_event h t key) o = some_mono h t o
  TermFact-mono _ o = tt

  SentFact-mono : (msg : Sent) → SentFact b msg → SentFact (entered client host b) msg
  SentFact-mono (to_web c (WebMsg.terminal_created h t)) o = Owns-mono c h t o
  SentFact-mono (to_web c (WebMsg.terminal_output t output)) (h, o) = (h, Owns-mono c h t o)
  SentFact-mono (to_web c (WebMsg.terminal_closed t h)) o = Owns-mono c h t o
  SentFact-mono (to_web c (WebMsg.directory_listing t path files)) (h, o) = (h, Owns-mono c h t o)
  SentFact-mono (to_host h (HostMsg.create_terminal t)) o = some_mono h t o
  SentFact-mono (to_host h (HostMsg.resize_terminal t width height)) o = some_mono h t o
  SentFact-mono (to_host h (HostMsg.delete_terminal t)) o = some_mono h t o
  SentFact-mono (to_host h (HostMsg.on_terminal_write t key)) o = some_mono h t o
  SentFact-mono _ o = tt

  SessionFact-mono :
      (entry : ℕ × WebAppSession) → SessionFact b entry → SessionFact (entered client host b) entry
  SessionFact-mono (c, session) (e, all) = (
    e,
    All-mono (TerminalFact b c) (TerminalFact (entered client host b) c) session.terminal_ids
        (λ (t, h) o. Owns-mono c h t o) all,
  )

  TransferFact-mono :
      (entry : ℕ × FileTransferSession)
      → TransferFact b entry
      → TransferFact (entered client host b) entry
  TransferFact-mono (id, x) (inl e) = inl e
  TransferFact-mono (id, x) (inr (h, o)) = inr (h, Owns-mono x.web_app_client h x.terminal_id o)

  HostFact-mono :
      (entry : ℕ × Dict TerminalInfo) → HostFact b entry → HostFact (entered client host b) entry
  HostFact-mono (h, table) all =
      All-mono (InfoFact b h) (InfoFact (entered client host b) h) table
        (λ (t, info) o. Owns-mono info.app_client_id h t o) all

  -- A book with one more terminal agrees with all that the old one does.
  pub AgreesWith-mono :
      (s : Server)
      → AgreesWith b s
      → AgreesWith (entered client host b) (record s { id_counter = suc b.last })
  unfolding entered
  AgreesWith-mono s i = record {
    counter = refl;
    sessions =
        All-mono (SessionFact b) (SessionFact (entered client host b)) s.web_app_sessions
          SessionFact-mono i.sessions;
    transfers =
        All-mono (TransferFact b) (TransferFact (entered client host b)) s.transfer_sessions
          TransferFact-mono i.transfers;
    hosts =
        All-mono (HostFact b) (HostFact (entered client host b)) s.remote_hosts HostFact-mono
          i.hosts;
    web = All-mono (WebFact b) (WebFact (entered client host b)) s.web_calls WebFact-mono i.web;
    term =
        All-mono (TermFact b) (TermFact (entered client host b)) s.term_calls TermFact-mono i.term;
    sent = All-mono (SentFact b) (SentFact (entered client host b)) s.sent SentFact-mono i.sent;
  }
