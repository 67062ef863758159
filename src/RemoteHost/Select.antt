-- ===== src/RemoteHost/Select.antt =====
-- The selection of a button of a host: webapp/remote.host.js.
use html_terminal.Prelude.{
  ℕ, true, false, Option, none, some, same_ref, if◌then◌else◌, M, ◌>>=◌, ◌>>◌, require, gets, skip,
}
use html_terminal.TerminalNode.{switch_view}
use html_terminal.App.{
  App, ButtonState, idle, activating, terminal, file_list, RemoteHost, remote_host, on_ui, put_host,
}
use html_terminal.TermButton.{set_state, on_selected, on_deselected}
use html_terminal.RemoteHost.Calls.{push_terminal_selected, send_new_terminal_request}

-- The branch of `selectTermBt` on the button that is selected: it changes the view of its terminal.
unfoldable pub toggle_view : ℕ → ButtonState → Option ℕ → M App (Unit {0})
toggle_view b ButtonState.terminal term = do
  t ← require term
  on_ui (switch_view t true)
  set_state b file_list
toggle_view b file_list term = do
  t ← require term
  on_ui (switch_view t false)
  set_state b terminal
toggle_view b idle term = skip
toggle_view b activating term = skip

abbrev pub deselect : Option ℕ → M App (Unit {0})
deselect none = skip
deselect (some b) = on_deselected b

-- The new selection, once the old one is deselected.
unfoldable pub choose : ℕ → ℕ → RemoteHost → M App (Unit {0})
choose h b host = do
  button ← gets (λ s. s.buttons b)
  put_host h (record host { selected_bt = some b; active_terminal = button.terminal })
  on_selected b
  push_terminal_selected (remote_host h) button.terminal

-- The branch of `selectTermBt` on any other button.
unfoldable pub select_other : ℕ → ℕ → M App (Unit {0})
select_other h b = do host ← gets (λ s. s.hosts h); deselect host.selected_bt; choose h b host

-- `selectTermBt(termButton)`
unfoldable pub select_term_bt : ℕ → ℕ → M App (Unit {0})
select_term_bt h b = do
  host ← gets (λ s. s.hosts h)
  button ← gets (λ s. s.buttons b)
  if same_ref host.selected_bt (some b)
      then toggle_view b button.state button.terminal
      else select_other h b

-- `onTermBtSelectClicked(termButton)`
abbrev pub on_term_bt_select_clicked : ℕ → ℕ → M App (Unit {0})
on_term_bt_select_clicked = select_term_bt

-- `onTermBtAddClicked(termButton)`
unfoldable pub on_term_bt_add_clicked : ℕ → ℕ → M App (Unit {0})
on_term_bt_add_clicked h b = do
  host ← gets (λ s. s.hosts h)
  put_host h (record host { connecting_bt = some b })
  send_new_terminal_request host.id
  set_state b activating
