-- ===== src/Server/Ownership/Isolation.antt =====
-- What a web client can do to the terminals of its own, and to those of another client.
use html_terminal.Prelude.{
  ℕ, ◌^◌, ◌<◌, ◌≡◌, ◌≢◌, refl, sym, ◌∙◌, Bool, true, Option, none, some, [], ◌∷◌, ◌++◌, Text, Dict,
  lookup, All, arith, Option-cases, Bool-cases, inl, inr, if◌then◌else◌, ◌==◌, eq-true,
}
use html_terminal.Server.Tables.{remove, lookup-assign, lookup-remove, All-lookup}
use html_terminal.Server.Sessions
use html_terminal.Server.Sessions.{
  get_remote_host_by_terminal, is_web_app_client_owning_terminal, get_web_app_session,
  find_remote_host, create_file_transfer_session, next_transfer_id,
}
use html_terminal.Server.State.{Server, WebAppSession, to_host, HostMsg, TermCall, post_term}
use html_terminal.Server.Web.{
  Request, if_owned, on_request, on_terminal_resize_req, on_terminal_del_req, on_terminal_key_event,
  on_terminal_file_req, request_file, perpare_file_download_response, mark,
}
use html_terminal.Server.Loops.{Reach}
use html_terminal.Server.Ownership.{Book, SessionFact, TerminalFact}
use html_terminal.Server.Ownership.WebSteps.{session-SessionFact, get_remote_host_by_terminal-Owns}
use html_terminal.Server.Ownership.Steps.{booked, Reach-Booked}

-- The terminal that a request is about.
abbrev pub request_topic : Request → Option ℕ
request_topic (Request.resize t width height) = some t
request_topic (Request.del t) = some t
request_topic (Request.key_event t key) = some t
request_topic (Request.file t path) = some t
request_topic _ = none

if_owned-none :
    (c t : ℕ) (f : ℕ → Server → Server) (s : Server)
    → get_remote_host_by_terminal c t s ≡ none
    → if_owned c t f s ≡ s
unfolding if_owned is_web_app_client_owning_terminal
if_owned-none c t f s e = rw e refl

if_owned-some :
    (c t h : ℕ) (f : ℕ → Server → Server) (s : Server)
    → get_remote_host_by_terminal c t s ≡ some h
    → if_owned c t f s ≡ f h s
unfolding if_owned is_web_app_client_owning_terminal
if_owned-some c t h f s e = rw e refl

-- Who does not have a terminal changes nothing by a request about it.
stranger :
    (up : ℕ → Bool) (c t : ℕ) (request : Request) (s : Server)
    → request_topic request ≡ some t
    → get_remote_host_by_terminal c t s ≡ none
    → on_request up c request s ≡ s
unfolding on_request on_terminal_resize_req on_terminal_del_req on_terminal_key_event
    on_terminal_file_req
stranger up c t (Request.resize x width height) s e g =
    if_owned-none c x _ s (let same : x ≡ t = ground arith in rw same g)
stranger up c t (Request.del x) s e g =
    if_owned-none c x _ s (let same : x ≡ t = ground arith in rw same g)
stranger up c t (Request.key_event x key) s e g =
    if_owned-none c x _ s (let same : x ≡ t = ground arith in rw same g)
stranger up c t (Request.file x path) s e g =
    if_owned-none c x _ s (let same : x ≡ t = ground arith in rw same g)
stranger up c t (Request.add_terminal h) s e g = cc
stranger up c t Request.ignored s e g = cc

-- The book of a state knows the host of a terminal, whichever session it is looked up in.
find_remote_host-host_of :
    (b : Book) (t h : ℕ) (m : Dict WebAppSession)
    → All (SessionFact b) m
    → find_remote_host t m ≡ some h
    → b.host_of t ≡ h
unfolding find_remote_host
find_remote_host-host_of b t h [] f e = cc
find_remote_host-host_of b t h ((c, x) ∷ m) f e = elim (Option-cases (lookup t x.terminal_ids)) [
  | inl q ↦ find_remote_host-host_of b t h m f.1 (ground (arith, q))
  | inr (h', q) ↦
      let same : h' ≡ h = ground (arith, q) in
      (All-lookup (TerminalFact b c) t x.terminal_ids f.0.1 q).2 ∙ same
]

find_remote_host_finds :
    (c t h : ℕ) (x : WebAppSession) (m : Dict WebAppSession)
    → lookup c m ≡ some x
    → lookup t x.terminal_ids ≡ some h
    → (h' : ℕ) × (find_remote_host t m ≡ some h')
unfolding find_remote_host
find_remote_host_finds c t h x [] e f = cc
find_remote_host_finds c t h x ((c', y) ∷ m) e f = elim (Option-cases (lookup t y.terminal_ids)) [
  | inr (h', q) ↦ (h', rw q refl)
  | inl q ↦ elim (Bool-cases (c == c')) [
    | inl here ↦ absurd (let same : y ≡ x = ground arith in ground (arith, same, q, f))
    | inr there ↦ let (h', r) = find_remote_host_finds c t h x m (ground arith) f in (h', rw q r)
  ]
]

module _ {n : ℕ} {s : Server} (r : Reach n s) (small : n < 2 ^ 32) where
  -- Whatever the clients, the hosts and the threads did in fewer than 2 ^ 32 steps: a request of any
  -- client about a terminal in the session of another client changes nothing.
  pub others_change_nothing :
      (up : ℕ → Bool) (c c' t h : ℕ) (request : Request)
      → get_remote_host_by_terminal c t s ≡ some h
      → c' ≢ c
      → request_topic request ≡ some t
      → on_request up c' request s ≡ s
  others_change_nothing up c c' t h request e other f = elim (Reach-Booked r small) [
    | booked b a le ↦ elim (Option-cases (get_remote_host_by_terminal c' t s)) [
      | inl g ↦ stranger up c' t request s f g
      | inr (h', g) ↦ absurd (
          other (
            sym (get_remote_host_by_terminal-Owns b s a c' t h' g).1
            ∙ (get_remote_host_by_terminal-Owns b s a c t h e).1))
    ]
  ]

  -- Whatever the clients, the hosts and the threads did in fewer than 2 ^ 32 steps: a download that
  -- any web client asks for, of a path at a terminal that is in the session of some client, is
  -- requested from the remote host of that terminal, if the host has a connection.
  pub download_by_anyone :
      (up : ℕ → Bool) (c c' t h : ℕ) (x : WebAppSession) (path : Text)
      → lookup c s.web_app_sessions ≡ some x
      → lookup t x.terminal_ids ≡ some h
      → up h ≡ true
      → (perpare_file_download_response up c' t path s).sent
        ≡ to_host h (HostMsg.file_transfer_req (next_transfer_id s) path) ∷ s.sent
  unfolding perpare_file_download_response request_file create_file_transfer_session
  download_by_anyone up c c' t h x path e f g = elim (Reach-Booked r small) [
    | booked b a le ↦
        let (h', q) = find_remote_host_finds c t h x s.web_app_sessions e f in
        let at_h' = find_remote_host-host_of b t h' s.web_app_sessions a.sessions q in
        let at_h =
          (All-lookup (TerminalFact b c) t x.terminal_ids ((session-SessionFact b s a c e).1)
            f).2 in
        let same : h' ≡ h = sym at_h' ∙ at_h in rw (q, same, g) (mark_sent _ _ _)
  ]
    where
      mark_sent : (t : ℕ) (o : Option _) (s : Server) → (mark t o s).sent ≡ s.sent
      mark_sent t none s = refl
      mark_sent t (some y) s = refl

-- A client commands the terminals of its session: a resize and a key are passed on to the thread of
-- the terminals for the host of the terminal; so is its end, and the session has it no more.
pub owner_commands :
    (up : ℕ → Bool) (c t h width height : ℕ) (key : Text) (s : Server)
    → get_remote_host_by_terminal c t s ≡ some h
    → (on_request up c (Request.resize t width height) s
        ≡ post_term (TermCall.resize_terminal h t width height) s)
      × (on_request up c (Request.key_event t key) s
          ≡ post_term (TermCall.send_key_event h t key) s)
      × ((on_request up c (Request.del t) s).term_calls
          ≡ s.term_calls ++ (TermCall.delete_terminal h t ∷ []))
      × ((j : ℕ)
          → get_remote_host_by_terminal c j (on_request up c (Request.del t) s)
            ≡ (if j == t then none else get_remote_host_by_terminal c j s))
unfolding on_request on_terminal_resize_req on_terminal_del_req on_terminal_key_event
    get_remote_host_by_terminal get_web_app_session Sessions.delete_terminal
owner_commands up c t h width height key s e = elim (Option-cases (lookup c s.web_app_sessions)) [
  | inl q ↦ absurd (ground arith)
  | inr (x, q) ↦ (
    if_owned-some c t h _ s e,
    if_owned-some c t h _ s e,
    rw (if_owned-some c t h _ s e, q) refl,
    λ j.
        rw
          (
            if_owned-some c t h _ s e,
            q,
            lookup-assign c c (record x { terminal_ids = remove t x.terminal_ids })
                s.web_app_sessions,
            eq-true c,
          )
          (lookup-remove j t x.terminal_ids),
  )
]
