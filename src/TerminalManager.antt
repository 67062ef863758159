-- ===== src/TerminalManager.antt =====
-- webapp/terminal.manager.js: `class TerminalManager`, which joins the host list and the view of
-- terminals, and the events of webapp/app.event.js that webapp/web.app.js hands to listeners.
pub mod Events
pub mod Arrival
use html_terminal.Prelude.{
  ℕ, Bool, true, false, Option, none, some, List, [], ◌∷◌, Text, codes, not, ◌==◌, M, ok, ◌>>=◌,
  ◌>>◌, pure, raise, require, gets, modify, skip, when, for_each, type_error,
}
use html_terminal.Dom.{Dom, set_id, set_inner}
use html_terminal.View.{create_node, set_view_id, add_obj, show, hide}
use html_terminal.Protocol.{FileInfo, make_close_terminal_req}
use html_terminal.Ui.{Ui, send}
use html_terminal.TerminalView
use html_terminal.App.{
  App, RemoteHost, Party, web_app, host_list, terminal_manager, remote_host, same_party, on_ui,
  on_page,
}
use html_terminal.RemoteHost.{send_new_terminal_request, on_terminal_selected}
use html_terminal.HostList.{
  new_host_list, clear_list, add_host, size, add_terminal_for_host, remove_terminal_for_host,
  remove_host, list_on_host_selected, add_event_listener,
}

-- The classes of webapp/app.event.js; a host and a terminal are their references.
pub data AppEvent : Type 0 where
  empty : AppEvent
  terminal_added : ℕ → ℕ → AppEvent
  terminal_closed : ℕ → ℕ → AppEvent
  host_selected : ℕ → AppEvent
  terminal_selected : Option ℕ → AppEvent

-- `new TerminalView()`
new_terminal_view : M App (Unit {0})
unfolding create_node set_id
new_terminal_view = do
  node ← on_page create_node
  on_page (set_id node "terminal_view")
  on_ui (modify (λ u. record u { known = []; current = none; view_node = node }))

-- `constructor()` and `createNode()`
unfoldable pub new_terminal_manager : M App (Unit {0})
unfolding create_node set_view_id add_obj new_terminal_view set_inner
new_terminal_manager = do
  node ← on_page create_node
  on_page (set_view_id node "terminal_manager")
  modify (λ s. record s { manager_node = node })
  new_host_list
  list_node ← gets (λ s. s.list_node)
  on_page (add_obj node (some list_node))
  new_terminal_view
  view_node ← gets (λ s. s.ui.view_node)
  on_page (add_obj node (some view_node))
  info ← on_page create_node
  on_page (set_view_id info "terminal_manager_info_text")
  on_page (
      set_inner info
        (codes "Currently there are no connected terminal clients.<br>Wait, no need for reload."))
  on_page (add_obj node (some info))
  modify (λ s. record s { no_terminals_info = info })
  add_event_listener terminal_manager

-- `clear()`
unfoldable pub clear_manager : M App (Unit {0})
unfolding TerminalView.clear
clear_manager = do clear_list; on_ui TerminalView.clear

-- `showNoTerminalsInfo()`
unfoldable pub show_no_terminals_info : M App (Unit {0})
unfolding show hide
show_no_terminals_info = do
  s ← gets (λ s. s)
  on_page (show s.no_terminals_info)
  on_page (hide s.ui.view_node)
  on_page (hide s.list_node)

-- `hideNoTerminalsInfo()`
unfoldable pub hide_no_terminals_info : M App (Unit {0})
unfolding show hide
hide_no_terminals_info = do
  s ← gets (λ s. s)
  on_page (hide s.no_terminals_info)
  on_page (show s.ui.view_node)
  on_page (show s.list_node)

-- `onHostConnected(hostId, hostIp, hostUserName, hostName)`
unfoldable pub on_host_connected : ℕ → Text → Text → Text → M App (Unit {0})
on_host_connected host_id ip user_name name = do
  add_host host_id ip user_name name
  n ← gets size
  when (n == 1) do send_new_terminal_request host_id; hide_no_terminals_info

-- `onHostDisconnected(hostId)`
unfoldable pub on_host_disconnected : ℕ → M App (Unit {0})
on_host_disconnected host_id = do
  remove_host host_id
  n ← gets size
  when (n == 0) show_no_terminals_info

show_or_request : ℕ → Option ℕ → M App (Unit {0})
unfolding TerminalView.set_terminal
show_or_request h (some t) = on_ui (TerminalView.set_terminal (some t))
show_or_request h none = do host ← gets (λ s. s.hosts h); send_new_terminal_request host.id

-- `onHostSelected(host)`
unfoldable pub on_host_selected : ℕ → M App (Unit {0})
unfolding show_or_request
on_host_selected h = do host ← gets (λ s. s.hosts h); show_or_request h host.active_terminal

-- `onTerminalClosed(hostId, terminalId)`
unfoldable pub on_terminal_closed : ℕ → ℕ → M App (Unit {0})
unfolding TerminalView.remove_terminal
on_terminal_closed host_id terminal_id = on_ui (TerminalView.remove_terminal terminal_id)

-- The end of `onTerminalAdded`.
unfoldable pub show_if_current : ℕ → M App (Unit {0})
unfolding TerminalView.set_terminal
show_if_current host_id = do
  current ← gets (λ s. s.current_host)
  h ← require current
  host ← gets (λ s. s.hosts h)
  when (host.id == host_id) (on_ui (TerminalView.set_terminal host.active_terminal))

add_created : ℕ → Option ℕ → M App (Unit {0})
add_created host_id none = skip
add_created host_id (some t) = do add_terminal_for_host host_id t; show_if_current host_id

-- `onTerminalAdded(hostId, terminalId)`
unfoldable pub on_terminal_added : ℕ → ℕ → M App (Unit {0})
unfolding TerminalView.create_terminal_node add_created
on_terminal_added host_id terminal_id = do
  created ← on_ui (TerminalView.create_terminal_node terminal_id)
  add_created host_id created

-- `onUITerminalClosed(terminalId)` of webapp/web.app.js
abbrev pub on_ui_terminal_closed : ℕ → M App (Unit {0})
on_ui_terminal_closed id = on_ui (send (make_close_terminal_req id))

-- `onTerminalOutput(id, output)`
abbrev pub on_terminal_output : ℕ → Text → M App (Unit {0})
on_terminal_output id output = on_ui (TerminalView.on_terminal_output id output)

-- `onDirectoryListen(id, req_path, files)`
abbrev pub on_directory_listen : ℕ → Text → List FileInfo → M App (Unit {0})
on_directory_listen id req_path files = on_ui (TerminalView.on_directory_listen id req_path files)

-- `deleteTerminal(id)`
unfoldable pub delete_terminal : ℕ → M App (Unit {0})
unfolding TerminalView.remove_terminal send make_close_terminal_req
delete_terminal id = do on_ui (TerminalView.remove_terminal id); on_ui_terminal_closed id

-- `onEvent(appEvent)` of the host list.
unfoldable pub list_on_event : AppEvent → M App (Unit {0})
list_on_event (terminal_closed host_id terminal_id) = remove_terminal_for_host host_id terminal_id
list_on_event (host_selected h) = list_on_host_selected h
list_on_event _ = skip

-- `onEvent(appEvent)` of the terminal manager.
unfoldable pub manager_on_event : AppEvent → M App (Unit {0})
unfolding TerminalView.set_terminal
manager_on_event (host_selected h) = on_host_selected h
manager_on_event (terminal_added host_id terminal_id) = on_terminal_added host_id terminal_id
manager_on_event (terminal_selected term) = on_ui (TerminalView.set_terminal term)
manager_on_event (terminal_closed host_id terminal_id) = on_terminal_closed host_id terminal_id
manager_on_event empty = skip

-- `listener.onEvent(appEvent)`; the other objects have no `onEvent`.
unfoldable pub on_event : Party → AppEvent → M App (Unit {0})
unfolding list_on_event manager_on_event
on_event host_list e = list_on_event e
on_event terminal_manager e = manager_on_event e
on_event web_app e = raise type_error
on_event (remote_host h) e = raise type_error

-- `pushEvent(sender, appEvent)` of webapp/web.app.js
unfoldable pub push_event : Party → AppEvent → M App (Unit {0})
unfolding on_event
push_event sender e = do
  listeners ← gets (λ s. s.listeners)
  for_each listeners (λ l. when (not (same_party l sender)) (on_event l e))
