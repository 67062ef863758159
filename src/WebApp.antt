-- ===== src/WebApp.antt =====
-- webapp/web.app.js: `class WebApp`, and webapp/messenger.js: `class Messenger`, whose handlers
-- turn what the server sends into calls of the web app.
pub mod Listeners
pub mod Start
use Prim.Native.String.{String}
use text.Mathlib.Text.{◌==◌ as str_eq}
use html_terminal.Prelude.{
  ℕ, zero, suc, ◌%◌, ◌^◌, Bool, true, false, Option, none, some, List, [], ◌∷◌, ◌++◌, Text, codes,
  map, not, if◌then◌else◌, M, ok, ◌>>=◌, ◌>>◌, pure, raise, gets, modify, skip, when,
}
use html_terminal.Dom.{Dom, append_child, create_element, set_inner, set_class, set_id}
use html_terminal.View.{create_node, set_view_id, show, hide, add_obj}
use html_terminal.Protocol.{FileInfo, Inbound, make_close_terminal_req}
use html_terminal.Ui.{Ui, Socket, connecting, opened, closed, send, body}
use html_terminal.TerminalView
use html_terminal.Reconnect.{ReconnectInfo, new_reconnect_info, enable, disable, fire}
use html_terminal.App.{
  App, Party, web_app, host_list, terminal_manager, remote_host, same_party, on_ui, on_page,
}
use html_terminal.RemoteHost.{on_button_clicked}
use html_terminal.TerminalManager
use html_terminal.TerminalManager.{
  AppEvent, terminal_added, terminal_closed, host_selected, new_terminal_manager,
  show_no_terminals_info, clear_manager, push_event,
}

-- `createWs()`: a new socket takes the place of the old one.
unfoldable pub create_ws : M App (Unit {0})
create_ws = on_ui (modify (λ u. record u { socket = some connecting }))

-- `new ReconnectInfo()`: its node, hidden.
new_reconnect_node : M Dom ℕ
unfolding create_node set_view_id hide create_element set_inner set_class set_id add_obj
new_reconnect_node = do
  node ← create_node
  set_view_id node "reconnect_info"
  text ← create_element
  set_inner text (codes "Server Disconnected<br/>Reconnecting in :")
  button ← create_element
  set_class button ("base_bt" ∷ [])
  set_id button "reconnect_bt"
  add_obj node (some text)
  add_obj node (some button)
  hide node
  pure node

-- `init()`
unfoldable pub init : M App (Unit {0})
unfolding append_child create_ws new_reconnect_node new_reconnect_info
init = do
  new_terminal_manager
  show_no_terminals_info
  manager ← gets (λ s. s.manager_node)
  on_page (append_child body manager)
  info ← on_page new_reconnect_node
  modify (λ s. record s { reconnect = new_reconnect_info info })
  on_page (append_child body info)
  create_ws

-- `this.listeners.splice(this.listeners.indexOf(listener), 1)`. An `indexOf` of -1 makes `splice`
-- take the last listener.
unfoldable pub is_listener : Party → List Party → Bool
is_listener l [] = false
is_listener l (p ∷ ps) = let rest = is_listener l ps in if same_party p l then true else rest

unfoldable pub drop_listener : Party → List Party → List Party
drop_listener l [] = []
drop_listener l (p ∷ ps) = let rest = drop_listener l ps in if same_party p l then ps else p ∷ rest

unfoldable pub drop_last {ℓ} : {A : Type ℓ} → List A → List A
drop_last [] = []
drop_last (x ∷ []) = []
drop_last (x ∷ y ∷ xs) = x ∷ drop_last (y ∷ xs)

-- `removeEventListener(listener)`
unfoldable pub remove_event_listener : Party → M App (Unit {0})
unfolding is_listener drop_listener drop_last
remove_event_listener l = modify (λ s. record s {
  listeners =
      if is_listener l s.listeners then drop_listener l s.listeners else drop_last s.listeners;
})

-- `reconnect()`
unfoldable pub reconnect : M App (Unit {0})
unfolding create_ws
reconnect = create_ws

-- A part of the countdown, and `reconnect()` if it asks for that.
unfoldable pub run_reconnect : (ReconnectInfo → ReconnectInfo × Bool) → M App (Unit {0})
unfolding reconnect
run_reconnect f = do
  r ← gets (λ s. f s.reconnect)
  modify (λ s. record s { reconnect = r.0 })
  when r.1 reconnect

-- `show()` and `hide()` of the reconnect info are `visible` and its node's display.
-- `onConnected()`
unfoldable pub on_connected : M App (Unit {0})
unfolding disable show hide
on_connected = do
  modify (λ s. record s { reconnect = disable s.reconnect })
  info ← gets (λ s. s.reconnect.node)
  on_page (hide info)
  manager ← gets (λ s. s.manager_node)
  on_page (show manager)

-- `clear()`
abbrev pub clear : M App (Unit {0})
clear = clear_manager

-- `onDisconnected()`
unfoldable pub on_disconnected : M App (Unit {0})
unfolding show hide run_reconnect enable
on_disconnected = do
  manager ← gets (λ s. s.manager_node)
  on_page (hide manager)
  info ← gets (λ s. s.reconnect.node)
  on_page (show info)
  run_reconnect enable
  clear

-- The timer `t` of the countdown fires.
unfoldable pub on_reconnect_timer : ℕ → M App (Unit {0})
unfolding run_reconnect fire
on_reconnect_timer t = run_reconnect (fire t)

-- `onClicked()` of the reconnect button, and `reconnect()`.
unfoldable pub on_reconnect_clicked : M App (Unit {0})
unfolding reconnect
on_reconnect_clicked = reconnect

-- `onHostConnected(hostId, hostIp, hostUserName, hostName)`
abbrev pub on_host_connected : ℕ → Text → Text → Text → M App (Unit {0})
on_host_connected = TerminalManager.on_host_connected

-- `onHostDisconnected(hostId)`
abbrev pub on_host_disconnected : ℕ → M App (Unit {0})
on_host_disconnected = TerminalManager.on_host_disconnected

-- `onTerminalAdded(hostId, terminalId)`
unfoldable pub on_terminal_added : ℕ → ℕ → M App (Unit {0})
on_terminal_added host_id terminal_id = push_event web_app (terminal_added host_id terminal_id)

-- `onTerminalClosed(hostId, terminalId)`
unfoldable pub on_terminal_closed : ℕ → ℕ → M App (Unit {0})
on_terminal_closed host_id terminal_id = push_event web_app (terminal_closed host_id terminal_id)

-- `onTerminalOutput(terminalId, msg)`
unfoldable pub on_terminal_output : ℕ → Text → M App (Unit {0})
on_terminal_output = TerminalManager.on_terminal_output

-- `onDirectoryListen(terminalId, req_path, files)`
unfoldable pub on_directory_listen : ℕ → Text → List FileInfo → M App (Unit {0})
on_directory_listen = TerminalManager.on_directory_listen

-- `onClicked()` of a host: `document.webApp.pushEvent(this, new AppEventHostSelected(this))`.
unfoldable pub on_host_clicked : ℕ → M App (Unit {0})
on_host_clicked h = push_event (remote_host h) (host_selected h)

-- `String.fromCharCode.apply(null, new Uint16Array(bytes))`
unfoldable pub bytes_to_text : List ℕ → Text
bytes_to_text bytes = map (λ b. b % 2 ^ 16) bytes

-- `onWsMessage(msg)`, after `JSON.parse`.
unfoldable pub on_ws_message : Inbound → M App (Unit {0})
unfolding bytes_to_text
on_ws_message json =
    if str_eq json.kind "host_connected"
    then on_host_connected json.host_id json.host_ip json.host_user_name json.host_name
    else if str_eq json.kind "host_disconnected"
    then on_host_disconnected json.host_id
    else if str_eq json.kind "terminal_added"
    then on_terminal_added json.host_id json.terminal_id
    else if str_eq json.kind "terminal_output"
    then on_terminal_output json.terminal_id (bytes_to_text json.bytes)
    else if str_eq json.kind "terminal_closed"
    then on_terminal_closed json.host_id json.terminal_id
    else if str_eq json.kind "directory_listing_received"
    then on_directory_listen json.terminal_id json.req_path json.files
    else skip

-- The socket that the messenger holds opens: `onWsCreated()`.
unfoldable pub on_ws_created : M App (Unit {0})
unfolding on_connected
on_ws_created = do on_ui (modify (λ u. record u { socket = some opened })); on_connected

-- That socket closes: `onWsClose()`. It runs with the socket as `this`, so that the messenger keeps
-- its reference to the closed socket.
unfoldable pub on_ws_close : M App (Unit {0})
unfolding on_disconnected
on_ws_close = do on_ui (modify (λ u. record u { socket = some closed })); on_disconnected

-- `onWsError(err)`. It runs with the socket as `this`, which has no `websocket` to close.
unfoldable pub on_ws_error : M App (Unit {0})
on_ws_error = skip
