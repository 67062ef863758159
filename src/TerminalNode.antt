-- ===== src/TerminalNode.antt =====
-- webapp/terminal.node.js: `class TerminalContainer` and `class TerminalNode`, a terminal with its
-- directory browser. xterm's `Terminal` and `FitAddon` are seen by the calls made of them.
pub mod Resizing
use html_terminal.Prelude.{
  ℕ, ◌+◌, Bool, true, false, some, [], ◌∷◌, Text, update, M, ok, ◌>>=◌, ◌>>◌, pure, gets,
}
use html_terminal.Dom.{Dom, set_class}
use html_terminal.View.{create_node, add_obj, show, hide}
use html_terminal.Protocol.{make_key_event, make_resize_req}
use html_terminal.Ui.{
  Ui, on_dom, call, put_terminal, send, term_opened, term_fitted, term_focused, term_wrote,
}
use html_terminal.FileMode.{new_file_mode_node}

-- `class TerminalContainer`
unfoldable pub new_terminal_container : M Dom ℕ
unfolding create_node set_class
new_terminal_container = do
  node ← create_node
  set_class node ("terminal_container" ∷ [])
  pure node

-- The displays that `switchView(toFileModeView)` sets.
unfoldable pub show_mode : Bool → ℕ → ℕ → M Dom (Unit {0})
unfolding show hide
show_mode true container file_node = do hide container; show file_node
show_mode false container file_node = do show container; hide file_node

-- `switchView(toFileModeView)`
unfoldable pub switch_view : ℕ → Bool → M Ui (Unit {0})
unfolding show_mode
switch_view t to_file_mode_view = do
  terminal ← gets (λ u. u.terminals t)
  on_dom (show_mode to_file_mode_view terminal.terminal_container terminal.file_mode_node.node)
  put_terminal t (record terminal { file_mode_activated = to_file_mode_view })

-- `new TerminalNode(terminalId)`: `createNode` and, of `createTerm`, the opening of the terminal.
unfoldable pub new_terminal_node : ℕ → M Ui ℕ
unfolding create_node set_class new_terminal_container new_file_mode_node add_obj show_mode
new_terminal_node terminal_id = do
  node ← on_dom create_node
  on_dom (set_class node ("terminal_node" ∷ []))
  container ← on_dom new_terminal_container
  file_mode ← new_file_mode_node terminal_id
  on_dom (add_obj node (some container))
  on_dom (add_obj node (some file_mode.node))
  on_dom (show_mode false container file_mode.node)
  t ← gets (λ u. u.next_terminal)
  call (term_opened t)
  (λ u. (
    ok t,
    record u {
      terminals = update u.terminals t (record {
        id = terminal_id;
        node = some node;
        terminal_container = container;
        file_mode_node = file_mode;
        file_mode_activated = false;
      });
      next_terminal = t + 1;
    },
  ))

-- `fit()`
unfoldable pub fit : ℕ → M Ui (Unit {0})
fit t = call (term_fitted t)

-- `focus()`
unfoldable pub focus : ℕ → M Ui (Unit {0})
focus t = call (term_focused t)

-- `write(msg)`
unfoldable pub write : ℕ → Text → M Ui (Unit {0})
write t msg = call (term_wrote t msg)

-- `onTermData(e)`
unfoldable pub on_term_data : ℕ → Text → M Ui (Unit {0})
unfolding send make_key_event
on_term_data t e = do terminal ← gets (λ u. u.terminals t); send (make_key_event terminal.id e)

-- `onTermResize(e)`, with `e.cols` and `e.rows`.
unfoldable pub on_term_resize : ℕ → ℕ → ℕ → M Ui (Unit {0})
unfolding send make_resize_req
on_term_resize t cols rows = do
  terminal ← gets (λ u. u.terminals t)
  send (make_resize_req terminal.id cols rows)
