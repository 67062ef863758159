-- ===== src/RemoteHost/Calls.antt =====
-- The calls that `class RemoteHost` makes of the web app, of its host list and of the terminal manager.
use html_terminal.Prelude.{
  ℕ, Option, none, some, same_ref, not, M, ◌>>=◌, raise, gets, skip, when, for_each, type_error,
}
use html_terminal.Protocol.{make_new_terminal_req, make_close_terminal_req}
use html_terminal.Ui.{send}
use html_terminal.TerminalView
use html_terminal.App.{
  App, Party, web_app, host_list, terminal_manager, remote_host, same_party, on_ui,
}

-- `onTerminalSelected(terminalNode)` of the terminal manager.
abbrev pub manager_on_terminal_selected : Option ℕ → M App (Unit {0})
manager_on_terminal_selected term = on_ui (TerminalView.set_terminal term)

-- The handlers of "TerminalSelected": `TerminalManager.onTerminalSelected` sets the terminal on
-- display, `RemoteHostList.onEvent` ignores it, and no other object has an `onEvent`.
unfoldable pub on_terminal_selected : Party → Option ℕ → M App (Unit {0})
unfolding TerminalView.set_terminal
on_terminal_selected terminal_manager term = manager_on_terminal_selected term
on_terminal_selected host_list term = skip
on_terminal_selected web_app term = raise type_error
on_terminal_selected (remote_host h) term = raise type_error

-- `document.webApp.pushEvent(sender, new AppEventTerminalSelected(term))`
unfoldable pub push_terminal_selected : Party → Option ℕ → M App (Unit {0})
unfolding on_terminal_selected
push_terminal_selected sender term = do
  listeners ← gets (λ s. s.listeners)
  for_each listeners (λ l. when (not (same_party l sender)) (on_terminal_selected l term))

-- `onHostEmpty(host)` of the terminal manager.
unfoldable pub on_host_empty : ℕ → M App (Unit {0})
unfolding TerminalView.set_terminal
on_host_empty h = do
  current ← gets (λ s. s.current_host)
  when (same_ref (some h) current) (on_ui (TerminalView.set_terminal none))

-- `onHostEmpty(host)` of the host list.
abbrev pub list_on_host_empty : ℕ → M App (Unit {0})
list_on_host_empty = on_host_empty

-- `sendNewTerminalRequest(hostId)` of the terminal manager.
unfoldable pub send_new_terminal_request : ℕ → M App (Unit {0})
unfolding send make_new_terminal_req
send_new_terminal_request host_id = on_ui (send (make_new_terminal_req host_id))

-- `terminalCloseRequested(terminalId)` of the terminal manager.
unfoldable pub terminal_close_requested : ℕ → M App (Unit {0})
unfolding send make_close_terminal_req
terminal_close_requested terminal_id = on_ui (send (make_close_terminal_req terminal_id))
