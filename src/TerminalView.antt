-- ===== src/TerminalView.antt =====
-- webapp/terminal.view.js: `class TerminalView`, the terminals by their id and the one on display.
pub mod Display
pub mod Creation
pub mod Removal
use html_terminal.Prelude.{
  ℕ, Bool, true, false, Option, none, some, List, [], ◌∷◌, Text, lookup, insert, erase, M, Outcome,
  ok, ◌>>=◌, ◌>>◌, pure, gets, modify, skip,
}
use html_terminal.Dom.{Dom}
use html_terminal.View.{clear_node, delete_node, add_obj, remove_obj}
use html_terminal.Protocol.{FileInfo}
use html_terminal.Ui.{Ui, TerminalNode, on_dom, put_terminal}
use html_terminal.TerminalNode.{new_terminal_node, focus, write}
use html_terminal.FileMode.{set_directory_content}

-- `clear()`
unfoldable pub clear : M Ui (Unit {0})
unfolding clear_node
clear = do
  modify (λ u. record u { known = []; current = none })
  view_node ← gets (λ u. u.view_node)
  on_dom (clear_node view_node)

-- `getTerminalById(id)`
unfoldable pub get_terminal_by_id : ℕ → Ui → Option ℕ
get_terminal_by_id id u = lookup id u.known

-- The rest of `createTerminalNode`, after the search.
create_unless : Option ℕ → ℕ → M Ui (Option ℕ)
unfolding new_terminal_node
create_unless (some t) id = pure none
create_unless none id = do
  t ← new_terminal_node id
  modify (λ u. record u { known = insert id t u.known })
  pure (some t)

-- `createTerminalNode(terminalId)`: null where the id is known.
unfoldable pub create_terminal_node : ℕ → M Ui (Option ℕ)
unfolding create_unless get_terminal_by_id
create_terminal_node id = do found ← gets (get_terminal_by_id id); create_unless found id

-- `this.removeObj(this.currentTerminal.node)`, if there is a current terminal.
unfoldable pub remove_current : Option ℕ → M Ui (Unit {0})
unfolding remove_obj
remove_current none = skip
remove_current (some t) = do u ← gets (λ u. u); on_dom (remove_obj u.view_node (u.terminals t).node)

-- The end of `setTerminal`.
unfoldable pub show_terminal : Option ℕ → M Ui (Unit {0})
unfolding add_obj focus
show_terminal none = skip
show_terminal (some t) = do
  u ← gets (λ u. u)
  on_dom (add_obj u.view_node (u.terminals t).node)
  focus t

-- `setTerminal(terminal)`
unfoldable pub set_terminal : Option ℕ → M Ui (Unit {0})
unfolding remove_current show_terminal
set_terminal terminal = do
  current ← gets (λ u. u.current)
  remove_current current
  modify (λ u. record u { current = terminal })
  show_terminal terminal

set_found : Option ℕ → M Ui (Unit {0})
unfolding set_terminal
set_found none = skip
set_found (some t) = set_terminal (some t)

-- `setTerminalById(terminalId)`
unfoldable pub set_terminal_by_id : ℕ → M Ui (Unit {0})
unfolding remove_current set_found get_terminal_by_id
set_terminal_by_id id = do
  current ← gets (λ u. u.current)
  remove_current current
  modify (λ u. record u { current = none })
  found ← gets (get_terminal_by_id id)
  set_found found

write_found : Option ℕ → Text → M Ui (Unit {0})
unfolding write
write_found none output = skip
write_found (some t) output = write t output

-- `onTerminalOutput(id, output)`
unfoldable pub on_terminal_output : ℕ → Text → M Ui (Unit {0})
unfolding write_found get_terminal_by_id
on_terminal_output id output = do found ← gets (get_terminal_by_id id); write_found found output

list_found : Option ℕ → Text → List FileInfo → M Ui (Unit {0})
unfolding set_directory_content
list_found none req_path files = skip
list_found (some t) req_path files = set_directory_content t req_path files

-- `onDirectoryListen(id, req_path, files)`
unfoldable pub on_directory_listen : ℕ → Text → List FileInfo → M Ui (Unit {0})
unfolding list_found get_terminal_by_id
on_directory_listen id req_path files = do
  found ← gets (get_terminal_by_id id)
  list_found found req_path files

-- `terminal.deleteNode()`
unfoldable pub delete_terminal : ℕ → M Ui (Unit {0})
unfolding delete_node
delete_terminal t = do
  terminal ← gets (λ u. u.terminals t)
  on_dom (delete_node terminal.node)
  put_terminal t (record terminal { node = none })

-- The rest of `removeTerminal`, after the search. The test of `if(this.currentTerminal = terminal)`
-- is an assignment, of an object and so true: `currentTerminal` becomes null whichever it was.
unfoldable pub remove_found : Option ℕ → ℕ → M Ui (Unit {0})
unfolding delete_terminal
remove_found none id = skip
remove_found (some t) id = do
  modify (λ u. record u { current = some t })
  modify (λ u. record u { current = none })
  delete_terminal t
  modify (λ u. record u { known = erase id u.known })

-- `removeTerminal(id)`
unfoldable pub remove_terminal : ℕ → M Ui (Unit {0})
unfolding remove_found get_terminal_by_id
remove_terminal id = do found ← gets (get_terminal_by_id id); remove_found found id
