-- ===== src/Scenarios/Servers.antt =====
-- The theorems on the control server, in a run with one remote host (7) and two web clients (1, 2).
use html_terminal.Prelude.{
  false, ℕ, suc, ◌≡◌, ◌^◌, ◌<◌, refl, Bool, true, Option, none, some, [], ◌∷◌, ◌++◌, codes, lookup,
  arith, if◌then◌else◌, ◌==◌, M,
}
use html_terminal.Protocol.{
  FileInfo, make_new_terminal_req, make_resize_req, make_key_event, make_close_terminal_req,
  make_file_req,
}
use html_terminal.Server.State.{
  Server, to_web, to_host, WebMsg, HostMsg, WebCall, TermCall, post_web, post_term, json_of,
}
use html_terminal.Server.Tables
use html_terminal.Server.Loops.{
  from_network, from_host, web_turn, term_turn, Step, web_arrives, host_arrives, web_turn-Step,
  term_turn-Step, start, Reach, here, next,
}
use html_terminal.Server.Sessions.{clients_of, get_remote_host_by_terminal, next_transfer_id}
use html_terminal.Server.Terminals.{next_id}
use html_terminal.Server.Web.{
  Request, on_request, perpare_file_download_response, remove_client, read_request, run_web,
  on_remote_host_info_received,
}
use html_terminal.Server.Requests.{read_request-make}
use html_terminal.Server.Replies.{inbound_of, on_ws_message-json_of}
use html_terminal.Server.Closing.{remove_client_lem}
use html_terminal.Server.Creation.{creation, creation_lem}
use html_terminal.Server.HostView.{AllKnowHosts, knows}
use html_terminal.Server.HostView.Upkeep.{run_web-AllKnowHosts}
use html_terminal.Server.Ownership.Safety.{one_client_per_terminal, one_host_per_terminal}
use html_terminal.Server.Ownership.Isolation.{others_change_nothing, download_by_anyone}
use html_terminal.App.{App}
use html_terminal.TerminalManager.{on_host_connected, on_host_disconnected}
use html_terminal.WebApp.{
  on_ws_message, on_terminal_added, on_terminal_closed, on_terminal_output, on_directory_listen,
  bytes_to_text,
}

-- A run so far.
record Run : Type 0 where
  steps : ℕ
  last : Server
  reach : Reach steps last

abbrev up : ℕ → Bool
up h = h == 7

abbrev from_web : (call : WebCall) → from_network call ≡ true → Run → Run
from_web call e r = record {
  steps = suc r.steps;
  last = post_web call r.last;
  reach = next r.reach (web_arrives call e);
}

abbrev from_remote : (call : TermCall) → from_host call ≡ true → Run → Run
from_remote call e r = record {
  steps = suc r.steps;
  last = post_term call r.last;
  reach = next r.reach (host_arrives call e);
}

abbrev after : (r : Run) (o : Option Server) → ((s : Server) → o ≡ some s → Step r.last s) → Run
after r none f = r
after r (some s) f = record { steps = suc r.steps; last = s; reach = next r.reach (f s refl) }

unfoldable on_web : Run → Run
unfolding web_turn
on_web r = after r (web_turn up r.last) (web_turn-Step up r.last)

unfoldable on_term : Run → Run
unfolding term_turn
on_term r = after r (term_turn up r.last) (term_turn-Step up r.last)

abbrev begin : Run
begin = record { steps = 0; last = start; reach = here }

-- Two clients connect.
unfoldable met : Run
unfolding on_web
met =
    on_web
      (from_web (WebCall.add_client 2) refl (on_web (from_web (WebCall.add_client 1) refl begin)))

-- The first of them asks for a terminal, and gets it.
unfoldable made : Run
unfolding on_web on_term met
made = on_web (
    on_term (
      from_remote (TermCall.handle_terminal_created 7 1 true) refl (
        on_term
          (on_web (from_web (WebCall.on_ws_client_message 1 (make_new_terminal_req 7)) refl met)))))

-- The terminal writes, and the client types into it.
unfoldable used : Run
unfolding on_web on_term made
used = on_term (
    on_web (
      from_web (WebCall.on_ws_client_message 1 (make_key_event 1 (codes "a"))) refl
        (on_web (on_term (from_remote (TermCall.handle_terminal_read 7 1 (104 ∷ [])) refl made)))))

used-sent :
    used.last.sent
    ≡ to_host 7 (HostMsg.on_terminal_write 1 (codes "a"))
      ∷ to_web 1 (WebMsg.terminal_output 1 (104 ∷ []))
      ∷ to_web 1 (WebMsg.terminal_created 7 1)
      ∷ to_host 7 (HostMsg.create_terminal 1)
      ∷ []
unfolding used make_new_terminal_req make_key_event on_request Tables.place
used-sent = refl

used-session :
    lookup 1 used.last.web_app_sessions ≡ some (record { client = 1; terminal_ids = (1, 7) ∷ [] })
unfolding used make_new_terminal_req make_key_event on_request Tables.place Tables.rewrite
used-session = refl

used-steps : used.steps ≡ 16
unfolding used make_new_terminal_req make_key_event on_request Tables.place
used-steps = refl

used-owned : get_remote_host_by_terminal 1 1 used.last ≡ some 7
unfolding get_remote_host_by_terminal
used-owned = rw used-session refl

used-few : suc used.steps < 2 ^ 32
used-few = omega (arith, used-steps)

one_client_per_terminal_example : ◌≡◌ {A = ℕ} 1 1
one_client_per_terminal_example =
    one_client_per_terminal used.reach (omega (arith, used-few)) 1 2 1 1 1
      (WebMsg.terminal_output 1 (104 ∷ [])) (WebMsg.terminal_created 7 1) (rw used-sent refl)
      (rw used-sent refl) refl refl

one_host_per_terminal_example : ◌≡◌ {A = ℕ} 7 7
one_host_per_terminal_example =
    one_host_per_terminal used.reach (omega (arith, used-few)) 0 3 7 7 1
      (HostMsg.on_terminal_write 1 (codes "a")) (HostMsg.create_terminal 1) (rw used-sent refl)
      (rw used-sent refl) refl refl

-- The second client types into the terminal of the first.
others_change_nothing_example :
    on_request up 2 (Request.key_event 1 (codes "b")) used.last ≡ used.last
others_change_nothing_example =
    others_change_nothing used.reach (omega (arith, used-few)) up 1 2 1 7
      (Request.key_event 1 (codes "b")) used-owned (omega arith) refl

-- The second client asks for a file at the terminal of the first.
download_by_anyone_example :
    (perpare_file_download_response up 2 1 (codes "/etc/hosts") used.last).sent
    ≡ to_host 7 (HostMsg.file_transfer_req (next_transfer_id used.last) (codes "/etc/hosts"))
      ∷ used.last.sent
download_by_anyone_example =
    download_by_anyone used.reach (omega (arith, used-few)) up 1 2 1 7 _ (codes "/etc/hosts")
      used-session refl refl

read_request-make_example :
    (read_request (make_new_terminal_req 7) ≡ some (Request.add_terminal 7))
    × (read_request (make_resize_req 1 80 24) ≡ some (Request.resize 1 80 24))
    × (read_request (make_close_terminal_req 1) ≡ some (Request.del 1))
    × (read_request (make_key_event 1 (codes "b")) ≡ some (Request.key_event 1 (codes "b")))
    × (read_request (make_file_req 1 none) ≡ some (Request.file 1 []))
read_request-make_example = read_request-make 7 1 80 24 (codes "b") none

abbrev some_file : FileInfo
some_file = record { name = codes "f"; is_dir = false; size = 5; last_mod = 9 }

on_ws_message-json_of_example :
    let received : WebMsg → M App (Unit {0}) =
      λ msg. on_ws_message (inbound_of (λ text. text) (json_of msg)) in
    (received (WebMsg.host_connected 7 (codes "::1") (codes "me") (codes "pc"))
      ≡ on_host_connected 7 (codes "::1") (codes "me") (codes "pc"))
    × (received (WebMsg.host_disconnected 7) ≡ on_host_disconnected 7)
    × (received (WebMsg.terminal_created 7 1) ≡ on_terminal_added 7 1)
    × (received (WebMsg.terminal_output 1 (104 ∷ []))
        ≡ on_terminal_output 1 (bytes_to_text (104 ∷ [])))
    × (received (WebMsg.terminal_closed 1 7) ≡ on_terminal_closed 7 1)
    × (received (WebMsg.directory_listing 1 (codes "/") (some_file ∷ []))
        ≡ on_directory_listen 1 (codes "/") (some_file ∷ []))
on_ws_message-json_of_example =
    on_ws_message-json_of (λ text. text) 7 1 (codes "::1") (codes "me") (codes "pc") (codes "/")
      (104 ∷ []) (some_file ∷ []) (omega arith) (omega arith) (λ text ascii. refl)
      (omega arith, (omega arith, (omega arith, tt))) (omega arith, (omega arith, tt))
      (omega arith, (omega arith, tt)) (omega arith, tt) ((omega arith, tt), tt)

-- The first client goes.
remove_client_lem_example :
    let s' = remove_client 1 used.last in
    ((j : ℕ)
      → lookup j s'.web_app_sessions
        ≡ (if j == 1 then none else lookup j used.last.web_app_sessions))
    × (s'.term_calls ≡ used.last.term_calls ++ (TermCall.delete_terminal 7 1 ∷ []))
    × (s'.sent ≡ used.last.sent)
remove_client_lem_example =
    remove_client_lem 1 (record { client = 1; terminal_ids = (1, 7) ∷ [] }) used.last used-session

-- The second client asks for a terminal of its own.
creation_lem_example :
    let t = next_id used.last in
    (s' : Server) × (creation up 2 7 used.last ≡ some s')
    × (s'.sent
        ≡ to_web 2 (WebMsg.terminal_created 7 t)
          ∷ to_host 7 (HostMsg.create_terminal t)
          ∷ used.last.sent)
    × (get_remote_host_by_terminal 2 t s' ≡ some 7)
    × (get_remote_host_by_terminal 2 t used.last ≡ none)
unfolding used make_new_terminal_req make_key_event on_request Tables.place Tables.rewrite
creation_lem_example =
    creation_lem up 2 7 (record { client = 2; terminal_ids = [] }) used.reach used-few (omega arith)
      refl refl refl refl

used-AllKnowHosts : AllKnowHosts used.last
unfolding used make_new_terminal_req make_key_event on_request Tables.place Tables.rewrite
    clients_of knows
used-AllKnowHosts = (λ h. refl, (λ h. refl, tt))

-- The remote host tells its name.
run_web-AllKnowHosts_example :
    AllKnowHosts (on_remote_host_info_received 7 (codes "::1") (codes "me") (codes "pc") used.last)
unfolding run_web
run_web-AllKnowHosts_example =
    run_web-AllKnowHosts up
      (WebCall.on_remote_host_info_received 7 (codes "::1") (codes "me") (codes "pc")) used.last _
      refl tt used-AllKnowHosts
