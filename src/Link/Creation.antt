-- ===== src/Link/Creation.antt =====
-- How a web client gets a terminal, with the command and the answer of the host as bytes.
use html_terminal.Prelude.{
  ℕ, ◌%◌, ◌^◌, ◌<◌, ◌≡◌, refl, sym, ap, ◌∙◌, Bool, true, suc, Option, none, some, List, [], ◌∷◌,
  ◌==◌, if◌then◌else◌, Text, lookup, arith, eq-true,
}
use html_terminal.Wire.{Memory, IsLawful}
use html_terminal.Server.Tables.{place}
use html_terminal.Protocol.{make_new_terminal_req}
use html_terminal.Server.State.{
  Server, WebAppSession, Sent, to_web, to_host, WebMsg, HostMsg, WebCall, TermCall, post_web,
}
use html_terminal.Server.Sessions.{get_remote_host_by_terminal}
use html_terminal.Server.Terminals.{next_id}
use html_terminal.Server.Web.{and_then}
use html_terminal.Server.Loops.{web_turn, term_turn, Reach}
use html_terminal.Server.Creation
use html_terminal.Server.Creation.{
  creation, creation_lem, answer, and_then-some, asked, request_turn, creation_turn,
}
use html_terminal.Server.Dispatch as Control
use html_terminal.Server.Dispatch.{TerminalServer, host_packet, post_call}
use html_terminal.TermClient.{
  TermClient, TerminalHandler, handle_create_terminal, on_terminal_created, Reply, post,
  handler_or_new, init_called, create_terminal, create, run, turn,
}
use html_terminal.TermClient.Dispatch as Host
use html_terminal.TermClient.Dispatch.{TerminalClient, reply_packet}
use html_terminal.Link.Commands.{on_client_read-host_packet}
use html_terminal.Link.Answers.{on_client_read-reply_packet}

module _ (init : ℕ → Bool) (t : ℕ) (c : TermClient) where
  abbrev handler : TerminalHandler
  handler = handler_or_new c.term_handler

  made : TermClient
  made = record c {
    term_handler = some (record handler { terminals = place t t handler.terminals });
    waiting = [];
    calls = init_called t ∷ c.calls;
    sent = on_terminal_created t (init t) ∷ c.sent;
  }

  turn-made :
      c.waiting ≡ []
      → lookup t handler.terminals ≡ none
      → turn init (post (handle_create_terminal t) c) ≡ some made
  unfolding turn run create create_terminal made
  turn-made idle fresh = rw (idle, fresh) refl

-- The message that was sent last, if it went to the host `h`.
abbrev last_for : ℕ → List Sent → Option HostMsg
last_for h (to_host h' msg ∷ sent) = if h' == h then some msg else none
last_for h _ = none

abbrev last_reply : TermClient → Option Reply
last_reply c = elim c.sent [ [] ↦ none | msg ∷ sent ↦ some msg ]

module _ (mem : Memory) (init up : ℕ → Bool) (h : ℕ) (ip : Text) (c : TerminalClient) where
  answer_of : Option Reply → TerminalServer → Option Server
  answer_of none s = none
  answer_of (some reply) s =
      and_then (Control.on_client_read mem h ip (reply_packet mem reply) s) (λ s'. some s'.server)

  -- The host reads the bytes of the command, its thread has a turn, and the server reads the bytes of
  -- the answer.
  carry_out : HostMsg → TerminalServer → Option Server
  unfolding answer_of
  carry_out msg s =
      and_then (turn init (Host.on_client_read mem (host_packet mem msg) c).terminals)
        (λ c'. answer_of (last_reply c') s)

  unfoldable pub exchange : TerminalServer → Option Server
  unfolding carry_out
  exchange s = and_then (last_for h s.server.sent) (λ msg. carry_out msg s)

  -- The web client `w` asks for a terminal of the host `h`, and each side has its turns.
  unfoldable pub round_trip : ℕ → TerminalServer → Option Server
  unfolding exchange
  round_trip w s =
      and_then
        (web_turn up (post_web (WebCall.on_ws_client_message w (make_new_terminal_req h)) s.server))
        (λ asked. and_then (term_turn up asked) (λ made.
          and_then (exchange (record s { server = made }))
            (λ told. and_then (term_turn up told) (web_turn up))))

module _ (mem : Memory) (law : IsLawful mem) (init up : ℕ → Bool) (h : ℕ) (ip : Text)
    (c : TerminalClient) where
  exchange-answered :
      (t : ℕ) (sent : List Sent) (s : TerminalServer)
      → t < 2 ^ 32
      → c.terminals.waiting ≡ []
      → lookup t (handler_or_new c.terminals.term_handler).terminals ≡ none
      → s.server.sent ≡ to_host h (HostMsg.create_terminal t) ∷ sent
      → exchange mem init up h ip c s
        ≡ some (post_call (TermCall.handle_terminal_created h t (init t)) s).server
  unfolding exchange carry_out answer_of made
  exchange-answered t sent s small idle fresh last =
      let same : t % 2 ^ 32 ≡ t = omega arith in
      let reads : turn init
            (Host.on_client_read mem (host_packet mem (HostMsg.create_terminal t)) c).terminals
          ≡ some (made init t c.terminals) =
        ap (λ c. turn init c.terminals)
          (on_client_read-host_packet mem law (HostMsg.create_terminal t) c)
        ∙ rw same (turn-made init t c.terminals idle fresh) in
      let hears : Control.on_client_read mem h ip
            (reply_packet mem (on_terminal_created t (init t))) s
          ≡ some (post_call (TermCall.handle_terminal_created h t (init t)) s) =
        on_client_read-reply_packet mem law h ip (on_terminal_created t (init t)) s tt
        ∙ rw same refl in
      let found : last_for h s.server.sent ≡ some (HostMsg.create_terminal t) =
        ap (last_for h) last ∙ rw (eq-true h) refl in
      and_then-some (λ msg. carry_out mem init up h ip c msg s) found
        (and_then-some (λ c'. answer_of mem init up h ip c (last_reply c') s) reads
          (and_then-some (λ s'. some s'.server) hears refl))

  round_trip-creation :
      (w : ℕ) (x : WebAppSession) (s : TerminalServer)
      → let t = next_id s.server in
        h < 2 ^ 32
        → s.server.web_calls ≡ []
        → s.server.term_calls ≡ []
        → up h ≡ true
        → init t ≡ true
        → c.terminals.waiting ≡ []
        → lookup t (handler_or_new c.terminals.term_handler).terminals ≡ none
        → round_trip mem init up h ip c w s ≡ creation up w h s.server
  unfolding round_trip creation Creation.made next_id
  round_trip-creation w x s small web term is_up starts idle fresh =
      let t = next_id s.server in
      let ask = request_turn up w h x s.server small web term in
      let make = creation_turn up w h x s.server t is_up refl in
      let told = Creation.made up w h x s.server t in
      let answered : exchange mem init up h ip c (record s { server = told })
          ≡ some (answer h told) =
        exchange-answered t s.server.sent (record s { server = told }) (omega arith) idle fresh refl
        ∙ ap
            (λ b.
              some
                (post_call (TermCall.handle_terminal_created h t b)
                  (record s { server = told })).server)
            starts in
      let rest = and_then (term_turn up (answer h told)) (web_turn up) in
      let by_bytes : round_trip mem init up h ip c w s ≡ rest =
        and_then-some _ ask (and_then-some _ make (and_then-some _ answered refl)) in
      let at_once : creation up w h s.server ≡ rest =
        and_then-some _ ask (and_then-some _ make refl) in
      by_bytes ∙ sym at_once

-- Whatever happened at the server before, in fewer than 2 ^ 32 - 1 steps: no call waits there, nor for
-- the thread of the client on the host `h`, which has no terminal of the id that is next, and can start
-- one; a web client that has a session asks for a terminal of that host, which has a connection and an
-- id of 32 bits. When the command and its answer have gone between the two as bytes, and the threads have
-- had their turns, the host has been sent just that command, the web client has been told of the
-- terminal, which its session did not have, and the session has it at that host.
pub round_trip_lem :
    (mem : Memory) (init up : ℕ → Bool) (h w : ℕ) (ip : Text) (c : TerminalClient)
    (x : WebAppSession) (s : TerminalServer) {n : ℕ}
    → let t = next_id s.server in
      IsLawful mem
      → Reach n s.server
      → suc n < 2 ^ 32
      → h < 2 ^ 32
      → s.server.web_calls ≡ []
      → s.server.term_calls ≡ []
      → lookup w s.server.web_app_sessions ≡ some x
      → up h ≡ true
      → init t ≡ true
      → c.terminals.waiting ≡ []
      → lookup t (handler_or_new c.terminals.term_handler).terminals ≡ none
      → (s' : Server) × (round_trip mem init up h ip c w s ≡ some s')
        × (s'.sent
            ≡ to_web w (WebMsg.terminal_created h t)
              ∷ to_host h (HostMsg.create_terminal t)
              ∷ s.server.sent)
        × (get_remote_host_by_terminal w t s' ≡ some h)
        × (get_remote_host_by_terminal w t s.server ≡ none)
round_trip_lem mem init up h w ip c x s law r few small web term has is_up starts idle fresh =
    let (s', e, sent, has_it, had_not) = creation_lem up w h x r few small web term has is_up in
    (
      s',
      round_trip-creation mem law init up h ip c w x s small web term is_up starts idle fresh ∙ e,
      sent,
      has_it,
      had_not,
    )
