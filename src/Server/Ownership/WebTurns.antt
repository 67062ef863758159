-- ===== src/Server/Ownership/WebTurns.antt =====
-- The handlers of WebAppServer.cpp, and the agreement with a book.
use html_terminal.Prelude.{
  ℕ, refl, Bool, Option, none, some, List, [], ◌∷◌, Dict, All, Option-cases, inl, inr,
}
use html_terminal.Server.Tables.{emplace, remove, All-emplace, All-remove}
use html_terminal.Server.Sessions
use html_terminal.Server.State.{
  Server, WebAppSession, RemoteHostInfo, to_web, WebMsg, WebCall, TermCall, send, send_all,
}
use html_terminal.Server.Sessions.{
  create_web_app_session, clients_of, erase_web_app_session, find_remote_host, next_transfer_id,
  create_file_transfer_session, erase_file_transfer_session,
}
use html_terminal.Server.Web.{
  Request, read_request, on_terminal_resize_req, on_terminal_del_req, on_terminal_key_event,
  on_terminal_file_req, on_request, on_ws_client_message, on_remote_host_info_received,
  on_terminal_client_closed, on_terminal_created, on_terminal_output, on_terminal_closed, greet,
  add_client, delete_all, remove_client, run_web,
}
use html_terminal.Server.Ownership.{
  Book, Owns, WebFact, TerminalFact, SessionFact, WebMsgFact, AgreesWith,
}
use html_terminal.Server.Ownership.TermSteps.{post_term-AgreesWith, send-AgreesWith}
use html_terminal.Server.Ownership.WebSteps.{
  sessions-AgreesWith, active-AgreesWith, if_owned-AgreesWith, put_session-AgreesWith,
  with_session-AgreesWith, drop_terminal-AgreesWith, tell-AgreesWith,
}
use html_terminal.Server.Ownership.Transfers.{request_file-AgreesWith, received-AgreesWith}

abbrev pub AgreesIfAny : Book → Option Server → Type 0
AgreesIfAny b none = Unit
AgreesIfAny b (some s) = AgreesWith b s

module _ (b : Book) where
  on_request-AgreesWith :
      (up : ℕ → Bool) (c : ℕ) (request : Request) (s : Server)
      → AgreesWith b s
      → AgreesWith b (on_request up c request s)
  unfolding on_request on_terminal_resize_req on_terminal_del_req on_terminal_key_event
      on_terminal_file_req
  on_request-AgreesWith up c (Request.add_terminal h) s i =
      post_term-AgreesWith b s i (TermCall.create_new_terminal c h) tt
  on_request-AgreesWith up c (Request.resize t width height) s i =
      if_owned-AgreesWith b s i c t _
        (λ h o. post_term-AgreesWith b s i (TermCall.resize_terminal h t width height) (c, o))
  on_request-AgreesWith up c (Request.del t) s i = if_owned-AgreesWith b s i c t _ (λ h o.
      post_term-AgreesWith b _ (drop_terminal-AgreesWith b s i c t) (TermCall.delete_terminal h t)
        (c, o))
  on_request-AgreesWith up c (Request.key_event t key) s i =
      if_owned-AgreesWith b s i c t _
        (λ h o. post_term-AgreesWith b s i (TermCall.send_key_event h t key) (c, o))
  on_request-AgreesWith up c (Request.file t path) s i =
      if_owned-AgreesWith b s i c t _
        (λ h o. request_file-AgreesWith b up c t path h s (inr (h, o)) i)
  on_request-AgreesWith up c Request.ignored s i = i

  -- A message that tells of no terminal may go to anyone.
  send_all-AgreesWith :
      (cs : List ℕ) (msg : WebMsg) (s : Server)
      → ((c : ℕ) → WebMsgFact b c msg)
      → AgreesWith b s
      → AgreesWith b (send_all cs msg s)
  send_all-AgreesWith [] msg s f i = i
  send_all-AgreesWith (c ∷ cs) msg s f i =
      send_all-AgreesWith cs msg (send (to_web c msg) s) f
        (send-AgreesWith b s i (to_web c msg) (f c))

  greet-AgreesWith :
      (c : ℕ) (hosts : Dict RemoteHostInfo) (s : Server)
      → AgreesWith b s
      → AgreesWith b (greet c hosts s)
  unfolding greet
  greet-AgreesWith c [] s i = i
  greet-AgreesWith c ((h, x) ∷ hosts) s i = greet-AgreesWith c hosts _ (
      send-AgreesWith b s i
        (to_web c (WebMsg.host_connected h x.ip x.client_user_name x.client_name)) tt)

  delete_all-AgreesWith :
      (c : ℕ) (terminals : Dict ℕ) (s : Server)
      → All (TerminalFact b c) terminals
      → AgreesWith b s
      → AgreesWith b (delete_all terminals s)
  unfolding delete_all
  delete_all-AgreesWith c [] s f i = i
  delete_all-AgreesWith c ((t, h) ∷ terminals) s f i =
      delete_all-AgreesWith c terminals _ f.1
        (post_term-AgreesWith b s i (TermCall.delete_terminal h t) (c, f.0))

  erase-AgreesWith :
      (c : ℕ) (s : Server) → AgreesWith b s → AgreesWith b (erase_web_app_session c s)
  unfolding erase_web_app_session
  erase-AgreesWith c s i =
      sessions-AgreesWith b s i (remove c s.web_app_sessions)
        (All-remove (SessionFact b) c s.web_app_sessions i.sessions)

  create-AgreesWith :
      (c : ℕ) (s : Server) → AgreesWith b s → AgreesWith b (create_web_app_session c s)
  unfolding create_web_app_session
  create-AgreesWith c s i =
      let x : WebAppSession = record { client = c; terminal_ids = [] } in
      sessions-AgreesWith b s i (emplace c x s.web_app_sessions)
        (All-emplace (SessionFact b) c x s.web_app_sessions (refl, tt) i.sessions)

  created-AgreesWith :
      (c t h : ℕ) (success : Bool) (s : Server)
      → Owns b c h t
      → AgreesWith b s
      → AgreesWith b (on_terminal_created c t h success s)
  unfolding on_terminal_created Sessions.add_terminal
  created-AgreesWith c t h success s o i = with_session-AgreesWith b s i c _ (λ x f.
      let x' : WebAppSession = record x { terminal_ids = emplace t h x.terminal_ids } in
      let f' : SessionFact b (c, x') =
        (f.0, All-emplace (TerminalFact b c) t h x.terminal_ids o f.1) in
      tell-AgreesWith b _ (put_session-AgreesWith b s i c x' f') c x (WebMsg.terminal_created h t) f
        o)

  -- Whatever call runs, no terminal changes its client or its host.
  pub run_web-AgreesIfAny :
      (up : ℕ → Bool) (call : WebCall) (s : Server)
      → WebFact b call
      → AgreesWith b s
      → AgreesIfAny b (run_web up call s)
  unfolding run_web on_ws_client_message add_client remove_client on_remote_host_info_received
      on_terminal_client_closed on_terminal_output on_terminal_closed
  run_web-AgreesIfAny up (WebCall.on_ws_client_message c json) s f i =
      elim (Option-cases (read_request json)) [
        | inl e ↦ rw e tt
        | inr (request, e) ↦ rw e (on_request-AgreesWith up c request s i)
      ]
  run_web-AgreesIfAny up (WebCall.add_client c) s f i =
      greet-AgreesWith c s.active_remote_hosts _ (create-AgreesWith c s i)
  run_web-AgreesIfAny up (WebCall.remove_client c) s f i =
      with_session-AgreesWith b s i c _
        (λ x g. erase-AgreesWith c _ (delete_all-AgreesWith c x.terminal_ids s g.1 i))
  run_web-AgreesIfAny up (WebCall.on_remote_host_info_received h ip user_name name) s f i =
      send_all-AgreesWith (clients_of s.web_app_sessions)
        (WebMsg.host_connected h ip user_name name) _ (λ c. tt) (active-AgreesWith b s i _)
  run_web-AgreesIfAny up (WebCall.on_terminal_client_closed h) s f i =
      send_all-AgreesWith (clients_of s.web_app_sessions) (WebMsg.host_disconnected h) _ (λ c. tt)
        (active-AgreesWith b s i _)
  run_web-AgreesIfAny up (WebCall.on_terminal_created c t h success) s o i =
      created-AgreesWith c t h success s o i
  run_web-AgreesIfAny up (WebCall.on_terminal_output c t output) s o i =
      with_session-AgreesWith b s i c _
        (λ x f. tell-AgreesWith b s i c x (WebMsg.terminal_output t output) f o)
  run_web-AgreesIfAny up (WebCall.on_terminal_closed c t h) s o i =
      with_session-AgreesWith b s i c _
        (λ x f. tell-AgreesWith b s i c x (WebMsg.terminal_closed t h) f o)
  run_web-AgreesIfAny up (WebCall.on_file_transfer_data_received id part) s o i =
      received-AgreesWith b id part s i
