-- ===== src/TerminalManager/Arrival.antt =====
-- The first host: `onHostConnected` of webapp/terminal.manager.js.
use html_terminal.Prelude.{ℕ, ◌≡◌, refl, none, some, [], ◌∷◌, Text, ok, arith}
use html_terminal.Dom.{flex, append_child}
use html_terminal.Protocol.{make_new_terminal_req}
use html_terminal.Ui.{opened, sent, send}
use html_terminal.App.{App}
use html_terminal.RemoteHost.{create_host_node, new_host, on_host_shown, send_new_terminal_request}
use html_terminal.HostList.{add_host, size}
use html_terminal.TerminalManager.{on_host_connected, hide_no_terminals_info}

-- When a host connects, none is in the list and the socket is open, the handler returns: the host
-- is the only one and the current one, it has no button and no terminal, one terminal is asked for
-- it, and the view and the list are on display.
pub on_host_connected_first :
    (host_id : ℕ) (ip user_name name : Text) (s : App)
    → s.host_map ≡ []
    → s.ui.socket ≡ some opened
    → let (r, s') = on_host_connected host_id ip user_name name s in
      (r ≡ ok tt)
      × (s'.host_map ≡ (host_id, s.next_host) ∷ [])
      × (s'.current_host ≡ some s.next_host)
      × ((s'.hosts s.next_host).buttons ≡ [])
      × ((s'.hosts s.next_host).connecting_bt ≡ none)
      × (s'.ui.calls ≡ sent (make_new_terminal_req host_id) ∷ s.ui.calls)
      × (s'.ui.dom.display s.ui.view_node ≡ flex)
      × (s'.ui.dom.display s.list_node ≡ flex)
unfolding on_host_connected add_host new_host create_host_node on_host_shown
    send_new_terminal_request hide_no_terminals_info append_child send size make_new_terminal_req
on_host_connected_first host_id ip user_name name s e so =
    rw (e, so)
      (refl, refl, refl, ground arith, ground arith, ground (arith, so), ground arith, ground arith)
