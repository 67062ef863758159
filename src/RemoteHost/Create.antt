-- ===== src/RemoteHost/Create.antt =====
-- The construction of a host and of its buttons, and the display of a host: webapp/remote.host.js.
use html_terminal.Prelude.{
  ℕ, ◌+◌, Option, none, some, [], ◌∷◌, ◌++◌, Text, codes, M, ◌>>=◌, ◌>>◌, pure, gets, modify,
}
use html_terminal.Dom.{
  Dom, flex, hidden, create_element, append_child, set_class, set_display, set_inner,
}
use html_terminal.View.{create_node, add_obj}
use html_terminal.App.{App, on_page, put_host}
use html_terminal.TermButton.{new_button}

-- `constructor(...)` and `createNode()`: the two nodes that later calls name.
unfoldable pub create_host_node : Text → Text → Text → M Dom (ℕ × ℕ)
unfolding create_node create_element set_class set_inner append_child add_obj
create_host_node ip user_name name = do
  node ← create_node
  set_class node ("remote_host" ∷ [])
  info_panel ← create_element
  set_class info_panel ("remote_host_info" ∷ [])
  host_name_el ← create_element
  set_inner host_name_el name
  set_class host_name_el ("remote_host_name" ∷ [])
  append_child info_panel host_name_el
  host_user_name_el ← create_element
  set_inner host_user_name_el (user_name ++ (codes "@" ++ ip))
  set_class host_user_name_el ("remote_host_user" ∷ [])
  append_child info_panel host_user_name_el
  add_obj node (some info_panel)
  buttons_panel ← create_element
  set_class buttons_panel ("remote_host_buttons" ∷ [])
  add_obj node (some buttons_panel)
  pure (node, buttons_panel)

-- `new RemoteHost(hostId, hostIp, hostUserName, hostName, hostList)`
unfoldable pub new_host : ℕ → Text → Text → Text → M App ℕ
new_host id ip user_name name = do
  (node, buttons_panel) ← on_page (create_host_node ip user_name name)
  h ← gets (λ s. s.next_host)
  put_host h (record {
    id = id;
    ip = ip;
    user_name = user_name;
    name = name;
    node = node;
    buttons_panel = buttons_panel;
    active_terminal = none;
    buttons = [];
    selected_bt = none;
    connecting_bt = none;
  })
  modify (λ s. record s { next_host = h + 1 })
  pure h

-- The rest of `addTermBt`, for the button made.
unfoldable pub place_bt : ℕ → ℕ → M App ℕ
unfolding append_child
place_bt h b = do
  host ← gets (λ s. s.hosts h)
  put_host h (record host { buttons = host.buttons ++ (b ∷ []) })
  button ← gets (λ s. s.buttons b)
  on_page (append_child host.buttons_panel button.node)
  pure b

-- `addTermBt(terminal)`
unfoldable pub add_term_bt : ℕ → Option ℕ → M App ℕ
add_term_bt h term = new_button h term >>= place_bt h

-- `onSelected()`: "selected" joins the classes.
unfoldable pub on_host_shown : ℕ → M App (Unit {0})
unfolding set_class set_display
on_host_shown h = do
  host ← gets (λ s. s.hosts h)
  on_page (set_class host.node ("remote_host" ∷ "selected" ∷ []))
  on_page (set_display host.buttons_panel flex)

-- `onDeselected()`
unfoldable pub on_host_hidden : ℕ → M App (Unit {0})
unfolding set_class set_display
on_host_hidden h = do
  host ← gets (λ s. s.hosts h)
  on_page (set_class host.node ("remote_host" ∷ []))
  on_page (set_display host.buttons_panel hidden)

-- `setActiveTerminal(terminal)`
unfoldable pub set_active_terminal : ℕ → Option ℕ → M App (Unit {0})
set_active_terminal h term = do
  host ← gets (λ s. s.hosts h)
  put_host h (record host { active_terminal = term })
