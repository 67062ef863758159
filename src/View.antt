-- ===== src/View.antt =====
-- webapp/view.js: `class View`. A view's `node` is a reference, or none where it may be null.
use html_terminal.Prelude.{ℕ, String, Option, none, some, M, ok, ◌>>=◌, ◌>>◌, require, skip, []}
use html_terminal.Dom.{
  Dom, flex, hidden, create_element, append_child, remove_child, set_inner, set_id, set_display,
  parent_of,
}

-- `createNode()`
unfoldable pub create_node : M Dom ℕ
unfolding create_element
create_node = create_element

-- `setId(viewId)`
unfoldable pub set_view_id : ℕ → String → M Dom (Unit {0})
unfolding set_id
set_view_id node v = set_id node v

-- `clearNode()`
unfoldable pub clear_node : ℕ → M Dom (Unit {0})
unfolding set_inner
clear_node node = set_inner node []

-- The branch of `deleteNode()`.
unfoldable pub leave_parent : Option ℕ → ℕ → M Dom (Unit {0})
unfolding remove_child
leave_parent none node = skip
leave_parent (some p) node = remove_child p node

-- `deleteNode()`; that `node` becomes null is left to the caller.
unfoldable pub delete_node : Option ℕ → M Dom (Unit {0})
unfolding clear_node leave_parent
delete_node view = do
  node ← require view
  clear_node node
  parent ← (λ d. (ok (parent_of node d.edges), d))
  leave_parent parent node

-- `show()`
unfoldable pub show : ℕ → M Dom (Unit {0})
unfolding set_display
show node = set_display node flex

-- `hide()`
unfoldable pub hide : ℕ → M Dom (Unit {0})
unfolding set_display
hide node = set_display node hidden

-- `addObj(obj)`: `appendChild(null)` throws.
unfoldable pub add_obj : ℕ → Option ℕ → M Dom (Unit {0})
unfolding append_child
add_obj node obj = require obj >>= append_child node

-- `removeObj(obj)`: so does `removeChild(null)`.
unfoldable pub remove_obj : ℕ → Option ℕ → M Dom (Unit {0})
unfolding remove_child
remove_obj node obj = require obj >>= remove_child node
