-- ===== src/RemoteHost/Remove.antt =====
-- A terminal leaves a host, and the clicks on a button: webapp/remote.host.js.
use html_terminal.Prelude.{
  ℕ, ◌-◌, Bool, true, false, Option, none, some, List, [], ◌∷◌, length, get_elem?, same_ref, ltb,
  ◌==◌, if◌then◌else◌, M, ◌>>=◌, ◌>>◌, require, gets, skip, when,
}
use html_terminal.Dom.{remove_child}
use html_terminal.Ui.{Ui}
use html_terminal.App.{App, ButtonState, idle, activating, file_list, on_page, put_host}
use html_terminal.RemoteHost.Calls.{list_on_host_empty, terminal_close_requested}
use html_terminal.RemoteHost.Select.{
  select_term_bt, on_term_bt_select_clicked, on_term_bt_add_clicked,
}
use html_terminal.RemoteHost.Terminals.{add_waiting_below}

-- `this.buttons.splice(index, 1)` at the index of `b`, if it is in the list.
unfoldable pub remove_first : ℕ → List ℕ → List ℕ
remove_first b [] = []
remove_first b (c ∷ bs) = if c == b then bs else c ∷ remove_first b bs

abbrev pub add_waiting_unless : ℕ → Option ℕ → M App (Unit {0})
add_waiting_unless h (some c) = skip
add_waiting_unless h none = add_waiting_below h true

-- The end of `removeTerminalButton`.
unfoldable pub select_last : ℕ → M App (Unit {0})
select_last h = do
  host ← gets (λ s. s.hosts h)
  if ltb 1 (length host.buttons)
      then (require (get_elem? host.buttons (length host.buttons - 2)) >>= select_term_bt h)
      else list_on_host_empty h

-- The button leaves the panel and the row.
unfoldable pub unlink : ℕ → ℕ → M App (Unit {0})
unfolding remove_child
unlink h b = do
  button ← gets (λ s. s.buttons b)
  host ← gets (λ s. s.hosts h)
  on_page (remove_child host.buttons_panel button.node)
  put_host h (record host { buttons = remove_first b host.buttons })

-- `if(this.connectingBt == null) { this.connectingBt = this.addTermBt(null); }`
unfoldable pub ensure_waiting : ℕ → M App (Unit {0})
ensure_waiting h = do host ← gets (λ s. s.hosts h); add_waiting_unless h host.connecting_bt

-- `removeTerminalButton(termButton)`
unfoldable pub remove_terminal_button : ℕ → ℕ → M App (Unit {0})
remove_terminal_button h b = unlink h b >> (ensure_waiting h >> select_last h)

-- `onTermBtCloseClicked(termButton)`
unfoldable pub on_term_bt_close_clicked : ℕ → ℕ → M App (Unit {0})
on_term_bt_close_clicked h b = do
  remove_terminal_button h b
  button ← gets (λ s. s.buttons b)
  t ← require button.terminal
  terminal_id ← gets (λ s. (s.ui.terminals t).id)
  terminal_close_requested terminal_id

-- `button.terminal != null && button.terminal.id == terminalId`
unfoldable pub shows_terminal : ℕ → Option ℕ → Ui → Bool
shows_terminal terminal_id none u = false
shows_terminal terminal_id (some t) u = (u.terminals t).id == terminal_id

-- The `forEach` of `removeTerminalById`: the last button that fits.
unfoldable pub find_button : ℕ → List ℕ → Option ℕ → App → Option ℕ
unfolding shows_terminal
find_button terminal_id [] found s = found
find_button terminal_id (b ∷ bs) found s =
    find_button terminal_id bs
      (if shows_terminal terminal_id (s.buttons b).terminal s.ui then some b else found) s

unfoldable pub remove_found : ℕ → Option ℕ → M App (Unit {0})
remove_found h none = skip
remove_found h (some b) = do
  host ← gets (λ s. s.hosts h)
  button ← gets (λ s. s.buttons b)
  when (same_ref button.terminal host.active_terminal)
      (put_host h (record host { active_terminal = none }))
  remove_terminal_button h b

-- `removeTerminalById(terminalId)`
unfoldable pub remove_terminal_by_id : ℕ → ℕ → M App (Unit {0})
unfolding find_button remove_found
remove_terminal_by_id h terminal_id = do
  host ← gets (λ s. s.hosts h)
  found ← gets (find_button terminal_id host.buttons none)
  remove_found h found

-- The branches of `onClicked()` of a button.
on_button_clicked_in : ButtonState → ℕ → ℕ → M App (Unit {0})
on_button_clicked_in ButtonState.terminal h b = on_term_bt_select_clicked h b
on_button_clicked_in file_list h b = on_term_bt_select_clicked h b
on_button_clicked_in idle h b = on_term_bt_add_clicked h b
on_button_clicked_in activating h b = skip

-- `onClicked()` of `RemoteHostTermButton`
unfoldable pub on_button_clicked : ℕ → M App (Unit {0})
unfolding on_button_clicked_in
on_button_clicked b = do
  button ← gets (λ s. s.buttons b)
  on_button_clicked_in button.state button.remote_host b
