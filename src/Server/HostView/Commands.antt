-- ===== src/Server/HostView/Commands.antt =====
-- The requests of web clients and the change of a session, and what clients know of the hosts.
use html_terminal.Prelude.{
  ℕ, ◌≡◌, refl, sym, subst, Bool, Option, none, some, Dict, lookup, All, Bool-cases, Option-cases,
  inl, inr, Text,
}
use html_terminal.Server.Tables.{remove}
use html_terminal.Server.Sessions
use html_terminal.Server.Sessions.{
  clients_of, get_remote_host_by_terminal, is_web_app_client_owning_terminal, get_web_app_session,
  find_remote_host, create_file_transfer_session, erase_file_transfer_session, next_transfer_id,
  create_web_app_session, erase_web_app_session,
}
use html_terminal.Server.State.{Server, WebAppSession, FileTransferSession}
use html_terminal.Server.Web.{
  Request, if_owned, on_request, on_terminal_resize_req, on_terminal_del_req, drop_terminal,
  on_terminal_key_event, on_terminal_file_req, mark, request_file, with_session,
}
use html_terminal.Server.HostView.{knows, KnowsHosts, AllKnowHosts}
use html_terminal.Server.HostView.Clients.{clients_of-assign}

if_owned-AllKnowHosts :
    (c t : ℕ) (f : ℕ → Server → Server) (s : Server)
    → AllKnowHosts s
    → ((h : ℕ) → AllKnowHosts (f h s))
    → AllKnowHosts (if_owned c t f s)
unfolding if_owned is_web_app_client_owning_terminal
if_owned-AllKnowHosts c t f s i k = elim (Option-cases (get_remote_host_by_terminal c t s)) [
  | inl e ↦ rw e i
  | inr (h, e) ↦ rw e (k h)
]

pub with_session-AllKnowHosts :
    (c : ℕ) (f : WebAppSession → Server → Server) (s : Server)
    → AllKnowHosts s
    → ((x : WebAppSession) → lookup c s.web_app_sessions ≡ some x → AllKnowHosts (f x s))
    → AllKnowHosts (with_session (get_web_app_session c s) f s)
unfolding get_web_app_session
with_session-AllKnowHosts c f s i k = elim (Option-cases (lookup c s.web_app_sessions)) [
  | inl e ↦ rw e i
  | inr (x, e) ↦ rw e (k x e)
]

-- The terminals of a session are not in question.
pub put_terminals-AllKnowHosts :
    (c : ℕ) (x : WebAppSession) (terminals : Dict ℕ) (s : Server)
    → lookup c s.web_app_sessions ≡ some x
    → AllKnowHosts s
    → AllKnowHosts (Sessions.put_session c (record x { terminal_ids = terminals }) s)
put_terminals-AllKnowHosts c x terminals s e i =
    subst (All (KnowsHosts s.sent s.active_remote_hosts))
      (sym
        (clients_of-assign c (record x { terminal_ids = terminals }) x s.web_app_sessions e refl))
      i

drop_terminal-AllKnowHosts :
    (c t : ℕ) (s : Server)
    → AllKnowHosts s
    → AllKnowHosts (drop_terminal c t (get_web_app_session c s) s)
unfolding get_web_app_session Sessions.delete_terminal
drop_terminal-AllKnowHosts c t s i = elim (Option-cases (lookup c s.web_app_sessions)) [
  | inl e ↦ rw e i
  | inr (x, e) ↦ rw e (put_terminals-AllKnowHosts c x (remove t x.terminal_ids) s e i)
]

mark-AllKnowHosts :
    (t : ℕ) (o : Option FileTransferSession) (s : Server)
    → AllKnowHosts s
    → AllKnowHosts (mark t o s)
mark-AllKnowHosts t none s i = i
mark-AllKnowHosts t (some x) s i = i

request_file-AllKnowHosts :
    (up : ℕ → Bool) (c t : ℕ) (path : Text) (h : ℕ) (s : Server)
    → AllKnowHosts s
    → AllKnowHosts (request_file up c t path h s)
unfolding request_file create_file_transfer_session erase_file_transfer_session knows
request_file-AllKnowHosts up c t path h s i = elim (Bool-cases (up h)) [
  | inl e ↦ rw e (mark-AllKnowHosts t _ _ i)
  | inr e ↦ rw e i
]

pub on_request-AllKnowHosts :
    (up : ℕ → Bool) (c : ℕ) (request : Request) (s : Server)
    → AllKnowHosts s
    → AllKnowHosts (on_request up c request s)
unfolding on_request on_terminal_resize_req on_terminal_del_req on_terminal_key_event
    on_terminal_file_req
on_request-AllKnowHosts up c (Request.add_terminal h) s i = i
on_request-AllKnowHosts up c (Request.resize t width height) s i =
    if_owned-AllKnowHosts c t _ s i (λ h. i)
on_request-AllKnowHosts up c (Request.del t) s i =
    if_owned-AllKnowHosts c t _ s i (λ h. drop_terminal-AllKnowHosts c t s i)
on_request-AllKnowHosts up c (Request.key_event t key) s i =
    if_owned-AllKnowHosts c t _ s i (λ h. i)
on_request-AllKnowHosts up c (Request.file t path) s i =
    if_owned-AllKnowHosts c t _ s i (λ h. request_file-AllKnowHosts up c t path h s i)
on_request-AllKnowHosts up c Request.ignored s i = i
