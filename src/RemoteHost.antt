-- ===== src/RemoteHost.antt =====
-- webapp/remote.host.js: `class RemoteHost`, a host and its row of buttons. A host and a button are
-- their references.
pub mod Calls
pub mod Create
pub mod Select
pub mod Terminals
pub mod Remove
pub mod Making
pub mod Panel
pub mod Steps
pub mod Row
pub mod Waiting
pub mod Addition
pub mod Selection
pub mod Unlink
pub mod Clearing
pub mod Ending
pub mod Keeping
pub mod Removal
pub mod First
pub mod Last
unfoldable pub use Calls.{
  on_terminal_selected, push_terminal_selected, on_host_empty, send_new_terminal_request,
  terminal_close_requested,
}
unfoldable pub use Create.{
  create_host_node, new_host, place_bt, add_term_bt, on_host_shown, on_host_hidden,
  set_active_terminal,
}
unfoldable pub use Select.{
  toggle_view, choose, select_other, select_term_bt, on_term_bt_add_clicked,
}
unfoldable pub use Terminals.{
  connect, add_first, add_waiting_below, open_waiting, add_waiting, add_next, add_terminal,
}
unfoldable pub use Remove.{
  remove_first, select_last, unlink, ensure_waiting, remove_terminal_button,
  on_term_bt_close_clicked, shows_terminal, find_button, remove_terminal_by_id, on_button_clicked,
}
