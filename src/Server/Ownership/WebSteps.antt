-- ===== src/Server/Ownership/WebSteps.antt =====
-- The parts of the handlers of WebAppServer.cpp, and the agreement with a book.
use html_terminal.Prelude.{
  ℕ, ◌≡◌, sym, subst, some, Dict, lookup, All, arith, Option-cases, inl, inr,
}
use html_terminal.Server.Tables.{remove, assign, All-lookup, All-remove, All-assign}
use html_terminal.Server.Sessions
use html_terminal.Server.State.{
  Server, WebAppSession, FileTransferSession, RemoteHostInfo, to_web, WebMsg, send,
}
use html_terminal.Server.Sessions.{
  create_web_app_session, get_web_app_session, clients_of, erase_web_app_session, put_session,
  get_remote_host_by_terminal, is_web_app_client_owning_terminal, find_remote_host,
  next_transfer_id, create_file_transfer_session, erase_file_transfer_session,
}
use html_terminal.Server.Web.{if_owned, drop_terminal, with_session}
use html_terminal.Server.Ownership.{
  Book, Owns, WebMsgFact, TerminalFact, SessionFact, TransferFact, AgreesWith,
}
use html_terminal.Server.Ownership.TermSteps.{send-AgreesWith}

module _ (b : Book) (s : Server) (i : AgreesWith b s) where
  open i use {counter, sessions, transfers, hosts, web, term, sent}

  pub sessions-AgreesWith :
      (m : Dict WebAppSession)
      → All (SessionFact b) m
      → AgreesWith b (record s { web_app_sessions = m })
  sessions-AgreesWith m f = record {
    counter = counter;
    sessions = f;
    transfers = transfers;
    hosts = hosts;
    web = web;
    term = term;
    sent = sent;
  }

  pub transfers-AgreesWith :
      (m : Dict FileTransferSession) (n : ℕ)
      → All (TransferFact b) m
      → AgreesWith b (record s { transfer_sessions = m; transfer_id_counter = n })
  transfers-AgreesWith m n f = record {
    counter = counter;
    sessions = sessions;
    transfers = f;
    hosts = hosts;
    web = web;
    term = term;
    sent = sent;
  }

  pub active-AgreesWith :
      (m : Dict RemoteHostInfo) → AgreesWith b (record s { active_remote_hosts = m })
  active-AgreesWith m = record {
    counter = counter;
    sessions = sessions;
    transfers = transfers;
    hosts = hosts;
    web = web;
    term = term;
    sent = sent;
  }

  pub session-SessionFact :
      (c : ℕ) {x : WebAppSession} → lookup c s.web_app_sessions ≡ some x → SessionFact b (c, x)
  session-SessionFact c e = All-lookup (SessionFact b) c s.web_app_sessions sessions e

  -- The host that a session has for a terminal is the one of the book, as is the client.
  pub get_remote_host_by_terminal-Owns :
      (c t h : ℕ) → get_remote_host_by_terminal c t s ≡ some h → Owns b c h t
  unfolding get_remote_host_by_terminal
  get_remote_host_by_terminal-Owns c t h e = elim (Option-cases (lookup c s.web_app_sessions)) [
    | inl q ↦ absurd (ground arith)
    | inr (x, q) ↦
        All-lookup (TerminalFact b c) t x.terminal_ids ((session-SessionFact c q).1) (ground arith)
  ]

  pub if_owned-AgreesWith :
      (c t : ℕ) (f : ℕ → Server → Server)
      → ((h : ℕ) → Owns b c h t → AgreesWith b (f h s))
      → AgreesWith b (if_owned c t f s)
  unfolding if_owned is_web_app_client_owning_terminal
  if_owned-AgreesWith c t f k = elim (Option-cases (get_remote_host_by_terminal c t s)) [
    | inl e ↦ rw e i
    | inr (h, e) ↦ rw e (k h (get_remote_host_by_terminal-Owns c t h e))
  ]

  pub put_session-AgreesWith :
      (c : ℕ) (x : WebAppSession) → SessionFact b (c, x) → AgreesWith b (put_session c x s)
  put_session-AgreesWith c x f =
      sessions-AgreesWith (assign c x s.web_app_sessions)
        (All-assign (SessionFact b) c x s.web_app_sessions f sessions)

  pub with_session-AgreesWith :
      (c : ℕ) (f : WebAppSession → Server → Server)
      → ((x : WebAppSession) → SessionFact b (c, x) → AgreesWith b (f x s))
      → AgreesWith b (with_session (get_web_app_session c s) f s)
  unfolding get_web_app_session
  with_session-AgreesWith c f k = elim (Option-cases (lookup c s.web_app_sessions)) [
    | inl e ↦ rw e i
    | inr (x, e) ↦ rw e (k x (session-SessionFact c e))
  ]

  pub drop_terminal-AgreesWith :
      (c t : ℕ) → AgreesWith b (drop_terminal c t (get_web_app_session c s) s)
  unfolding get_web_app_session Sessions.delete_terminal
  drop_terminal-AgreesWith c t = elim (Option-cases (lookup c s.web_app_sessions)) [
    | inl e ↦ rw e i
    | inr (x, e) ↦
        let (same, all) = session-SessionFact c e in
        rw e (
          put_session-AgreesWith c (record x { terminal_ids = remove t x.terminal_ids })
            (same, All-remove (TerminalFact b c) t x.terminal_ids all))
  ]

  pub tell-AgreesWith :
      (c : ℕ) (x : WebAppSession) (msg : WebMsg)
      → SessionFact b (c, x)
      → WebMsgFact b c msg
      → AgreesWith b (send (to_web x.client msg) s)
  tell-AgreesWith c x msg f g =
      send-AgreesWith b s i (to_web x.client msg) (subst (λ d. WebMsgFact b d msg) (sym f.0) g)
