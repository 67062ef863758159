-- ===== src/TermButton.antt =====
-- webapp/remote.host.term.bt.js: `class RemoteHostTermButton`, a host's button for one terminal,
-- and the three views in it.
use html_terminal.Prelude.{
  ℕ, ◌+◌, Bool, true, false, Option, some, [], ◌∷◌, M, ◌>>=◌, ◌>>◌, pure, gets, modify, when,
}
use html_terminal.Dom.{
  Dom, flex, contents, hidden, create_element, append_child, set_class, set_display, set_background,
}
use html_terminal.View.{create_node, add_obj, hide}
use html_terminal.App.{
  App, TermButton, ButtonState, idle, activating, terminal, file_list, on_page, put_button,
}

-- `class AddButtonView`
unfoldable pub new_add_button_view : M Dom ℕ
unfolding create_node create_element set_class append_child hide
new_add_button_view = do
  node ← create_node
  plus_line_verti ← create_element
  set_class plus_line_verti ("term-box-plus-line-vert" ∷ [])
  plus_line_hori ← create_element
  set_class plus_line_hori ("term-box-plus-line-hori" ∷ [])
  append_child node plus_line_verti
  append_child node plus_line_hori
  hide node
  pure node

-- `class PromptButtonView`: its node and its line.
unfoldable pub new_prompt_button_view : M Dom (ℕ × ℕ)
unfolding create_node create_element set_class append_child hide
new_prompt_button_view = do
  node ← create_node
  promt_line ← create_element
  set_class promt_line ("term-box-prompt-line" ∷ [])
  append_child node promt_line
  hide node
  pure (node, promt_line)

-- `class FilesButtonView`
unfoldable pub new_files_button_view : M Dom ℕ
unfolding create_node create_element set_class append_child set_background hide
new_files_button_view = do
  node ← create_node
  line_one ← create_element
  set_class line_one ("term-box-prompt-line" ∷ "one" ∷ [])
  append_child node line_one
  line_two ← create_element
  set_class line_two ("term-box-prompt-line" ∷ "two" ∷ [])
  append_child node line_two
  line_three ← create_element
  set_class line_three ("term-box-prompt-line" ∷ "three" ∷ [])
  append_child node line_three
  set_background node "white"
  hide node
  pure node

-- `show()` of the three views.
unfoldable pub show_contents : ℕ → M Dom (Unit {0})
unfolding set_display
show_contents node = set_display node contents

-- `setSelected(isSelected)` of the prompt view.
unfoldable pub set_selected : ℕ → Bool → M Dom (Unit {0})
unfolding set_class
set_selected promt_line true = set_class promt_line ("term-box-prompt-line" ∷ "selected" ∷ [])
set_selected promt_line false = set_class promt_line ("term-box-prompt-line" ∷ [])

-- `constructor(remoteHost, terminal)` and `createNode()`
unfoldable pub create_button : ℕ → Option ℕ → M Dom TermButton
unfolding new_add_button_view new_prompt_button_view new_files_button_view show_contents add_obj
create_button host term = do
  add_button_view ← new_add_button_view
  promt_button_view ← new_prompt_button_view
  files_button_view ← new_files_button_view
  node ← create_node
  set_class node ("term-box" ∷ [])
  circle_box ← create_element
  set_class circle_box ("term-box-circle" ∷ [])
  circle_box_line_up ← create_element
  set_class circle_box_line_up ("term-box-circle-line" ∷ "diagonal-up" ∷ [])
  append_child circle_box circle_box_line_up
  circle_box_line_down ← create_element
  set_class circle_box_line_down ("term-box-circle-line" ∷ "diagonal-down" ∷ [])
  append_child circle_box circle_box_line_down
  add_obj node (some circle_box)
  add_obj node (some add_button_view)
  add_obj node (some promt_button_view.0)
  add_obj node (some files_button_view)
  show_contents add_button_view
  pure (record {
    state = idle;
    selected = false;
    activated = false;
    terminal = term;
    remote_host = host;
    node = node;
    circle_box = circle_box;
    add_button_view = add_button_view;
    promt_button_view = promt_button_view.0;
    promt_line = promt_button_view.1;
    files_button_view = files_button_view;
  })

-- `new RemoteHostTermButton(remoteHost, terminal)`
unfoldable pub new_button : ℕ → Option ℕ → M App ℕ
new_button host term = do
  button ← on_page (create_button host term)
  b ← gets (λ s. s.next_button)
  put_button b button
  modify (λ s. record s { next_button = b + 1 })
  pure b

-- The document's part of `onTerminalState()`.
unfoldable pub show_terminal_state : TermButton → M Dom (Unit {0})
unfolding hide show_contents set_background
show_terminal_state button = do
  hide button.add_button_view
  hide button.files_button_view
  show_contents button.promt_button_view
  set_background button.node "black"

-- The document's part of `onFileListState()`.
unfoldable pub show_file_list_state : TermButton → M Dom (Unit {0})
unfolding hide show_contents set_background
show_file_list_state button = do
  hide button.promt_button_view
  show_contents button.files_button_view
  set_background button.node "#eadc91"

-- `setState(state)`, with `onActivating`, `onTerminalState` and `onFileListState`.
unfoldable pub set_state : ℕ → ButtonState → M App (Unit {0})
unfolding show_terminal_state show_file_list_state
set_state b idle = do
  button ← gets (λ s. s.buttons b)
  put_button b (record button { state = idle })
set_state b activating = do
  button ← gets (λ s. s.buttons b)
  put_button b (record button { state = activating })
set_state b ButtonState.terminal = do
  button ← gets (λ s. s.buttons b)
  put_button b (record button { state = terminal; activated = true })
  on_page (show_terminal_state button)
set_state b file_list = do
  button ← gets (λ s. s.buttons b)
  put_button b (record button { state = file_list; activated = true })
  on_page (show_file_list_state button)

-- `setTerminal(terminal)`
unfoldable pub set_terminal : ℕ → Option ℕ → M App (Unit {0})
set_terminal b term = do
  button ← gets (λ s. s.buttons b)
  put_button b (record button { terminal = term })

-- `onSelected()`
unfoldable pub on_selected : ℕ → M App (Unit {0})
unfolding set_selected set_display
on_selected b = do
  button ← gets (λ s. s.buttons b)
  put_button b (record button { selected = true })
  on_page (set_selected button.promt_line true)
  on_page (set_display button.circle_box flex)

-- `onDeselected()`
unfoldable pub on_deselected : ℕ → M App (Unit {0})
unfolding set_selected set_display
on_deselected b = do
  button ← gets (λ s. s.buttons b)
  put_button b (record button { selected = false })
  on_page (set_selected button.promt_line false)
  on_page (set_display button.circle_box hidden)

-- `node.onmouseover`
unfoldable pub on_mouse_over : ℕ → M App (Unit {0})
unfolding set_display
on_mouse_over b = do
  button ← gets (λ s. s.buttons b)
  when button.selected (on_page (set_display button.circle_box flex))

-- `node.onmouseout`
unfoldable pub on_mouse_out : ℕ → M App (Unit {0})
unfolding set_display
on_mouse_out b = do button ← gets (λ s. s.buttons b); on_page (set_display button.circle_box hidden)
