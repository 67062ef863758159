-- ===== src/Server/HostView/Upkeep.antt =====
-- The calls on the thread of WebAppServer.cpp, and what clients know of the hosts.
use html_terminal.Prelude.{
  ℕ, ◌≡◌, refl, sym, subst, Bool, true, false, ◌&&◌, Option, none, some, List, [], ◌∷◌, Dict,
  lookup, is_some, All-mono, arith, Bool-cases, Option-cases, inl, inr, if◌then◌else◌, ◌==◌, Text,
  eq-true,
}
use html_terminal.Protocol.{FileInfo}
use html_terminal.Server.Tables.{emplace, remove, lookup-remove}
use html_terminal.Server.Sessions
use html_terminal.Server.Sessions.{
  clients_of, get_remote_host_by_terminal, is_web_app_client_owning_terminal, get_web_app_session,
  find_remote_host, create_file_transfer_session, erase_file_transfer_session, next_transfer_id,
  create_web_app_session, erase_web_app_session,
}
use html_terminal.Server.State.{
  Server, Part, WebAppSession, FileTransferSession, RemoteHostInfo, to_web, WebMsg, WebCall,
  send_all, send,
}
use html_terminal.Server.Web.{
  read_request, on_ws_client_message, add_client, remove_client, on_remote_host_info_received,
  on_terminal_client_closed, on_terminal_created, on_terminal_output, on_terminal_closed,
  when_all_received, pass_on, list_directory, on_file_transfer_data_received, greet, delete_all,
  run_web,
}
use html_terminal.Server.HostView.{
  knows, KnowsHosts, AllKnowHosts, member, knows-connected, knows-disconnected, knows-greet,
}
use html_terminal.Server.HostView.Clients.{
  All-clients_of-remove, All-clients_of-emplace, is_some-lookup-emplace, member_self, All-zip,
}
use html_terminal.Server.HostView.Commands.{
  with_session-AllKnowHosts, put_terminals-AllKnowHosts, on_request-AllKnowHosts,
}

send_all_lem :
    (cs : List ℕ) (msg : WebMsg) (s : Server)
    → send_all cs msg s ≡ record s { sent = (send_all cs msg s).sent }
send_all_lem [] msg s = refl
send_all_lem (c ∷ cs) msg s = send_all_lem cs msg (send (to_web c msg) s)

greet_lem :
    (c : ℕ) (hosts : Dict RemoteHostInfo) (s : Server)
    → greet c hosts s ≡ record s { sent = (greet c hosts s).sent }
unfolding greet
greet_lem c [] s = refl
greet_lem c ((h, x) ∷ hosts) s =
    greet_lem c hosts
      (send (to_web c (WebMsg.host_connected h x.ip x.client_user_name x.client_name)) s)

info-AllKnowHosts :
    (h : ℕ) (ip user_name name : Text) (s : Server)
    → AllKnowHosts s
    → AllKnowHosts (on_remote_host_info_received h ip user_name name s)
unfolding on_remote_host_info_received
info-AllKnowHosts h ip user_name name s i =
    let cs = clients_of s.web_app_sessions in
    let hosts = s.active_remote_hosts in
    let info : RemoteHostInfo = record {
      ip = ip;
      client_user_name = user_name;
      client_name = name;
    } in
    let msg = WebMsg.host_connected h ip user_name name in
    let s' : Server = record s { active_remote_hosts = emplace h info hosts } in
    subst AllKnowHosts (sym (send_all_lem cs msg s')) (
      All-zip (KnowsHosts s.sent hosts) (λ c. member c cs ≡ true)
        (KnowsHosts (send_all cs msg s').sent (emplace h info hosts)) cs
        (λ c k m j.
          rw
            (
              knows-connected c j h ip user_name name cs s',
              m,
              is_some-lookup-emplace j h info hosts,
              k j,
            )
            refl)
        i (member_self cs))

closed-AllKnowHosts :
    (h : ℕ) (s : Server) → AllKnowHosts s → AllKnowHosts (on_terminal_client_closed h s)
unfolding on_terminal_client_closed
closed-AllKnowHosts h s i =
    let cs = clients_of s.web_app_sessions in
    let hosts = s.active_remote_hosts in
    let msg = WebMsg.host_disconnected h in
    let s' : Server = record s { active_remote_hosts = remove h hosts } in
    subst AllKnowHosts (sym (send_all_lem cs msg s')) (
      All-zip (KnowsHosts s.sent hosts) (λ c. member c cs ≡ true)
        (KnowsHosts (send_all cs msg s').sent (remove h hosts)) cs
        (λ c k m j.
          rw (knows-disconnected c j h cs s', m, lookup-remove j h hosts, k j) (ground arith))
        i (member_self cs))

delete_all-AllKnowHosts :
    (terminals : Dict ℕ) (s : Server) → AllKnowHosts s → AllKnowHosts (delete_all terminals s)
unfolding delete_all
delete_all-AllKnowHosts [] s i = i
delete_all-AllKnowHosts ((t, h) ∷ terminals) s i = delete_all-AllKnowHosts terminals _ i

erase-AllKnowHosts :
    (c : ℕ) (s : Server) → AllKnowHosts s → AllKnowHosts (erase_web_app_session c s)
unfolding erase_web_app_session
erase-AllKnowHosts c s i =
    All-clients_of-remove (KnowsHosts s.sent s.active_remote_hosts) c s.web_app_sessions i

told_now : (q r : Bool) → (r ≡ true → q ≡ true) → (if true && q then true else r) ≡ q
told_now true r f = refl
told_now false true f = sym (f refl)
told_now false false f = refl

told_before : (p q : Bool) → (if p && q then true else q) ≡ q
told_before true true = refl
told_before true false = refl
told_before false q = refl

add-AllKnowHosts :
    (c : ℕ) (s : Server)
    → ((h : ℕ) → knows c h s.sent ≡ true → is_some (lookup h s.active_remote_hosts) ≡ true)
    → AllKnowHosts s
    → AllKnowHosts (add_client c s)
unfolding add_client create_web_app_session
add-AllKnowHosts c s known i =
    let hosts = s.active_remote_hosts in
    let x : WebAppSession = record { client = c; terminal_ids = [] } in
    let s' = create_web_app_session c s in
    let P = KnowsHosts (greet c hosts s').sent hosts in
    subst AllKnowHosts (sym (greet_lem c hosts s')) (
      All-clients_of-emplace P c x s.web_app_sessions
        (λ j.
          rw (knows-greet c j c hosts s', eq-true c)
            (told_now (is_some (lookup j hosts)) (knows c j s.sent) (known j)))
        (All-mono (KnowsHosts s.sent hosts) P (clients_of s.web_app_sessions)
          (λ d k j.
            rw (knows-greet d j c hosts s', k j) (told_before (d == c) (is_some (lookup j hosts))))
          i))

when_all_received-AllKnowHosts :
    (part : Part) (id : ℕ) (s : Server)
    → AllKnowHosts s
    → AllKnowHosts (when_all_received part id s)
unfolding erase_file_transfer_session
when_all_received-AllKnowHosts part id s i =
    elim (Bool-cases (part.expected_file_size == part.received_file_size)) [
      | inl e ↦ rw e i
      | inr e ↦ rw e i
    ]

list_directory-AllKnowHosts :
    (x : FileTransferSession) (part : Part) (id : ℕ) (listing : Option (List FileInfo)) (s : Server)
    → AllKnowHosts s
    → AllKnowHosts (list_directory x part id listing s)
unfolding knows
list_directory-AllKnowHosts x part id none s i = i
list_directory-AllKnowHosts x part id (some files) s i = when_all_received-AllKnowHosts part id _ i

pass_on-AllKnowHosts :
    (x : FileTransferSession) (part : Part) (s : Server)
    → AllKnowHosts s
    → AllKnowHosts (pass_on x part s)
unfolding knows
pass_on-AllKnowHosts x part s i = elim (Bool-cases (part.data_transfer_counter == 1)) [
  | inl e ↦ rw e i
  | inr e ↦ rw e i
]

received-AllKnowHosts :
    (id : ℕ) (part : Part) (s : Server)
    → AllKnowHosts s
    → AllKnowHosts (on_file_transfer_data_received id part s)
unfolding on_file_transfer_data_received
received-AllKnowHosts id part s i = elim (Option-cases (lookup id s.transfer_sessions)) [
  | inl e ↦ rw e i
  | inr (x, e) ↦ elim (Bool-cases (x.terminal_id == 0)) [
    | inl z ↦ rw (e, z) (when_all_received-AllKnowHosts part id _ (pass_on-AllKnowHosts x part s i))
    | inr z ↦ rw (e, z) (list_directory-AllKnowHosts x part id part.listing s i)
  ]
]

abbrev KnowIfAny : Option Server → Type 0
KnowIfAny none = Unit
KnowIfAny (some s) = AllKnowHosts s

-- A new client was told of no host that is gone.
abbrev pub IsUnaware : WebCall → Server → Type 0
IsUnaware (WebCall.add_client c) s =
    (h : ℕ) → knows c h s.sent ≡ true → is_some (lookup h s.active_remote_hosts) ≡ true
IsUnaware _ s = Unit

run_web-KnowIfAny :
    (up : ℕ → Bool) (call : WebCall) (s : Server)
    → IsUnaware call s
    → AllKnowHosts s
    → KnowIfAny (run_web up call s)
unfolding run_web on_ws_client_message remove_client on_terminal_created on_terminal_output
    on_terminal_closed Sessions.add_terminal knows
run_web-KnowIfAny up (WebCall.on_ws_client_message c json) s u i =
    elim (Option-cases (read_request json)) [
      | inl e ↦ rw e tt
      | inr (request, e) ↦ rw e (on_request-AllKnowHosts up c request s i)
    ]
run_web-KnowIfAny up (WebCall.add_client c) s u i = add-AllKnowHosts c s u i
run_web-KnowIfAny up (WebCall.remove_client c) s u i = with_session-AllKnowHosts c _ s i (λ x e.
    erase-AllKnowHosts c (delete_all x.terminal_ids s) (delete_all-AllKnowHosts x.terminal_ids s i))
run_web-KnowIfAny up (WebCall.on_remote_host_info_received h ip user_name name) s u i =
    info-AllKnowHosts h ip user_name name s i
run_web-KnowIfAny up (WebCall.on_terminal_client_closed h) s u i = closed-AllKnowHosts h s i
run_web-KnowIfAny up (WebCall.on_terminal_created c t h success) s u i =
    with_session-AllKnowHosts c _ s i
      (λ x e. put_terminals-AllKnowHosts c x (emplace t h x.terminal_ids) s e i)
run_web-KnowIfAny up (WebCall.on_terminal_output c t output) s u i =
    with_session-AllKnowHosts c _ s i (λ x e. i)
run_web-KnowIfAny up (WebCall.on_terminal_closed c t h) s u i =
    with_session-AllKnowHosts c _ s i (λ x e. i)
run_web-KnowIfAny up (WebCall.on_file_transfer_data_received id part) s u i =
    received-AllKnowHosts id part s i

-- As long as each client with a session knows, by the messages that it was sent, just the hosts that
-- are active, this stays so whichever call runs and does not throw; a client that is added must have
-- been told of no host that is gone.
pub run_web-AllKnowHosts :
    (up : ℕ → Bool) (call : WebCall) (s s' : Server)
    → run_web up call s ≡ some s'
    → IsUnaware call s
    → AllKnowHosts s
    → AllKnowHosts s'
run_web-AllKnowHosts up call s s' e u i = subst KnowIfAny e (run_web-KnowIfAny up call s u i)
