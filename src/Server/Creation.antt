-- ===== src/Server/Creation.antt =====
-- How a web client gets a terminal: the request, the turns of both threads and the answer of the host.
use html_terminal.Prelude.{
  ℕ, suc, ◌%◌, ◌^◌, ◌<◌, ◌≡◌, refl, sym, ap, subst, ◌∙◌, Bool, true, Option, none, some, [], ◌∷◌,
  Dict, lookup, All, arith, Option-cases, inl, inr, eq-true,
}
use html_terminal.Protocol.{make_new_terminal_req}
use html_terminal.Server.Tables.{emplace, assign, lookup-emplace, lookup-assign, All-lookup}
use html_terminal.Server.Sessions
use html_terminal.Server.Sessions.{get_remote_host_by_terminal, get_web_app_session}
use html_terminal.Server.State.{
  Server, WebAppSession, TerminalInfo, to_web, to_host, WebMsg, HostMsg, WebCall, TermCall,
  post_web, post_term, send,
}
use html_terminal.Server.Terminals
use html_terminal.Server.Terminals.{
  next_id, table_of, create_new_terminal, get_app_clinet_id, handle_terminal_created, run_term,
}
use html_terminal.Server.Web.{
  and_then, on_request, on_ws_client_message, on_terminal_created, run_web, with_session,
}
use html_terminal.Server.Requests.{read_request-make}
use html_terminal.Server.Loops.{web_turn, term_turn, Reach}
use html_terminal.Server.Ownership.{Book, InfoFact, HostFact, TerminalFact, AgreesWith}
use html_terminal.Server.Ownership.WebSteps.{session-SessionFact}
use html_terminal.Server.Ownership.Steps.{booked, Reach-Booked}

-- The host answers that it has made the latest terminal.
abbrev pub answer : ℕ → Server → Server
answer h s = post_term (TermCall.handle_terminal_created h s.id_counter true) s

-- A client asks for a terminal of a host: a turn of either thread, the host's answer, and again a turn
-- of either thread.
unfoldable pub creation : (ℕ → Bool) → ℕ → ℕ → Server → Option Server
unfolding web_turn term_turn
creation up c h s =
    and_then (web_turn up (post_web (WebCall.on_ws_client_message c (make_new_terminal_req h)) s))
      (λ s. and_then (term_turn up s) (λ s. and_then (term_turn up (answer h s)) (web_turn up)))

pub and_then-some :
    {A B : Type 0} {o : Option A} {a : A} (f : A → Option B) {r : Option B}
    → o ≡ some a
    → f a ≡ r
    → and_then o f ≡ r
and_then-some f {r} e g = subst (λ o. and_then o f ≡ r) (sym e) g

with_session-some :
    (o : Option WebAppSession) (x : WebAppSession) (f : WebAppSession → Server → Server)
    (s : Server)
    → o ≡ some x
    → with_session o f s ≡ f x s
with_session-some o x f s e = rw e refl

-- No table has a terminal that is still to come.
lookup-fresh :
    (b : Book) (h t : ℕ) (m : Dict TerminalInfo)
    → All (InfoFact b h) m
    → b.last < t
    → lookup t m ≡ none
lookup-fresh b h t m f lt = elim (Option-cases (lookup t m)) [
  | inl e ↦ e
  | inr (info, e) ↦ absurd (omega (arith, (All-lookup (InfoFact b h) t m f e).0))
]

lookup-fresh_terminal :
    (b : Book) (c t : ℕ) (m : Dict ℕ) → All (TerminalFact b c) m → b.last < t → lookup t m ≡ none
lookup-fresh_terminal b c t m f lt = elim (Option-cases (lookup t m)) [
  | inl e ↦ e
  | inr (h, e) ↦ absurd (omega (arith, (All-lookup (TerminalFact b c) t m f e).0))
]

module _ (up : ℕ → Bool) (c h : ℕ) (x : WebAppSession) (s : Server) where
  unfoldable pub asked : Server
  asked = record s { web_calls = []; term_calls = TermCall.create_new_terminal c h ∷ [] }

  pub request_turn :
      h < 2 ^ 32
      → s.web_calls ≡ []
      → s.term_calls ≡ []
      → web_turn up (post_web (WebCall.on_ws_client_message c (make_new_terminal_req h)) s)
        ≡ some asked
  unfolding web_turn run_web on_ws_client_message on_request asked
  request_turn small web term =
      let id : h % 2 ^ 32 ≡ h = omega arith in
      rw (web, (read_request-make h 0 0 0 [] none).0, term, id) refl

  module _ (t : ℕ) where
    unfoldable pub info : TerminalInfo
    info = record { proxy_client_id = h; app_client_id = c }

    unfoldable pub table : Dict TerminalInfo
    unfolding info
    table = emplace t info (table_of (lookup h s.remote_hosts))

    unfoldable pub made : Server
    unfolding table
    made = record s {
      web_calls = [];
      term_calls = [];
      id_counter = t;
      remote_hosts = assign h table s.remote_hosts;
      sent = to_host h (HostMsg.create_terminal t) ∷ s.sent;
    }

    pub creation_turn : up h ≡ true → next_id s ≡ t → term_turn up asked ≡ some made
    unfolding term_turn run_term create_new_terminal Terminals.add_terminal asked made table info
        next_id
    creation_turn is_up next = rw (is_up, next) refl

    told : Server
    unfolding made
    told = record made { web_calls = WebCall.on_terminal_created c t h true ∷ [] }

    answer_turn :
        lookup t (table_of (lookup h s.remote_hosts)) ≡ none
        → term_turn up (answer h made) ≡ some told
    unfolding term_turn run_term handle_terminal_created get_app_clinet_id made told table info
    answer_turn fresh =
        rw
          (
            lookup-assign h h table s.remote_hosts,
            eq-true h,
            lookup-emplace t t info (table_of (lookup h s.remote_hosts)) fresh,
            eq-true t,
          )
          refl

    done : Server
    unfolding told made
    done = record told {
      web_calls = [];
      web_app_sessions =
          assign c (record x { terminal_ids = emplace t h x.terminal_ids }) s.web_app_sessions;
      sent =
          to_web c (WebMsg.terminal_created h t) ∷ to_host h (HostMsg.create_terminal t) ∷ s.sent;
    }

    session_turn :
        lookup c s.web_app_sessions ≡ some x → x.client ≡ c → web_turn up told ≡ some done
    unfolding web_turn run_web on_terminal_created get_web_app_session Sessions.add_terminal told
        made done
    session_turn has same =
        ap some (
          with_session-some (lookup c s.web_app_sessions) x
            (λ x s.
              send (to_web x.client (WebMsg.terminal_created h t))
                (Sessions.add_terminal c t h x s))
            (record told { web_calls = [] }) has)
        ∙ rw same refl

    done-owner : lookup t x.terminal_ids ≡ none → get_remote_host_by_terminal c t done ≡ some h
    unfolding get_remote_host_by_terminal done
    done-owner new =
        rw
          (
            lookup-assign c c (record x { terminal_ids = emplace t h x.terminal_ids })
                s.web_app_sessions,
            eq-true c,
            lookup-emplace t t h x.terminal_ids new,
            eq-true t,
          )
          refl

module _ (b : Book) (s : Server) (a : AgreesWith b s) where
  next_id-fresh : suc b.last < 2 ^ 32 → b.last < next_id s
  unfolding next_id
  next_id-fresh small = omega (arith, a.counter)

  table-fresh : (h t : ℕ) → b.last < t → lookup t (table_of (lookup h s.remote_hosts)) ≡ none
  table-fresh h t lt = elim (Option-cases (lookup h s.remote_hosts)) [
    | inl e ↦ rw e refl
    | inr (m, e) ↦
        rw e (lookup-fresh b h t m (All-lookup (HostFact b) h s.remote_hosts a.hosts e) lt)
  ]

-- Whatever happened before, in fewer than 2 ^ 32 - 1 steps: when no call waits, and a client that has a
-- session asks for a terminal of a host with a connection and an id of 32 bits, then after the turns of
-- the threads and the answer of the host, the host has been told to create a terminal that the session
-- did not have, the client has been told that it is there, and the session has it at that host.
pub creation_lem :
    {n : ℕ} {s : Server} (up : ℕ → Bool) (c h : ℕ) (x : WebAppSession)
    → Reach n s
    → suc n < 2 ^ 32
    → h < 2 ^ 32
    → s.web_calls ≡ []
    → s.term_calls ≡ []
    → lookup c s.web_app_sessions ≡ some x
    → up h ≡ true
    → let t = next_id s in
      (s' : Server) × (creation up c h s ≡ some s')
      × (s'.sent
          ≡ to_web c (WebMsg.terminal_created h t) ∷ to_host h (HostMsg.create_terminal t) ∷ s.sent)
      × (get_remote_host_by_terminal c t s' ≡ some h)
      × (get_remote_host_by_terminal c t s ≡ none)
unfolding creation done get_remote_host_by_terminal
creation_lem {n} {s} up c h x r small id_small web term has is_up =
    elim (Reach-Booked r (omega arith)) [
      | booked b a le ↦
          let t = next_id s in
          let fresh : b.last < t = next_id-fresh b s a (omega arith) in
          let table_fresh : lookup t (table_of (lookup h s.remote_hosts)) ≡ none =
            table-fresh b s a h t fresh in
          let (same, terminals) = session-SessionFact b s a c has in
          let new = lookup-fresh_terminal b c t x.terminal_ids terminals fresh in
          (
            done up c h x s t,
            and_then-some _ (request_turn up c h x s id_small web term) (
                and_then-some _ (creation_turn up c h x s t is_up refl) (
                  and_then-some (web_turn up) (answer_turn up c h x s t table_fresh)
                    (session_turn up c h x s t has same))),
            refl,
            done-owner up c h x s t new,
            rw has new,
          )
    ]
