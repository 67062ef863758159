-- ===== src/FileMode.antt =====
-- webapp/filemode.node.js: `class FileModeNode`, the directory browser of a terminal. The node of a
-- terminal is `(terminals t).file_mode_node`; operations take the terminal's reference `t`.
pub mod Path
pub mod Format
use html_terminal.Prelude.{
  ℕ, ◌+◌, Bool, true, false, Option, none, some, List, [], ◌∷◌, ◌++◌, Text, codes, same_text,
  update, M, ok, ◌>>=◌, ◌>>◌, pure, gets, require, when, for_each, skip, is_some, ◌&&◌, not,
  if◌then◌else◌,
}
use html_terminal.Dom.{
  Dom, hidden, create_element, append_child, remove_child, set_inner, set_id, set_class,
  set_display,
}
use html_terminal.View.{create_node, add_obj}
use html_terminal.Protocol.{FileInfo, make_file_req}
use html_terminal.Ui.{
  Ui, Entry, FileModeNode, TerminalNode, on_dom, call, put_terminal, send, downloaded, body,
}
use Path.{click_target, download_name, href_of}
use Format.{size_text, timestamp_to_string}

-- `makeListLabels()`
unfoldable pub make_list_labels : ℕ → M Dom (Unit {0})
unfolding create_element append_child set_inner
make_list_labels contnet = do
  first ← create_element
  append_child contnet first
  file_size ← create_element
  set_inner file_size (codes "File Size")
  append_child contnet file_size
  mod_date ← create_element
  set_inner mod_date (codes "Last Modified")
  append_child contnet mod_date

-- `createNode()`, for the terminal `id`.
unfoldable pub create_file_node : ℕ → M Dom FileModeNode
unfolding create_node create_element set_class set_id set_inner add_obj make_list_labels
create_file_node id = do
  node ← create_node
  set_class node ("filemode_node" ∷ [])
  header ← create_element
  set_id header "file_node_header"
  set_inner header (codes "Index of ")
  add_obj node (some header)
  contnet ← create_element
  set_id contnet "file_node_content"
  make_list_labels contnet
  add_obj node (some contnet)
  pure (record {
    id = id;
    node = node;
    header = header;
    contnet = contnet;
    current_elem = none;
    current_path = none;
  })

-- `constructor(terminalId)`
unfoldable pub new_file_mode_node : ℕ → M Ui FileModeNode
unfolding create_file_node send make_file_req
new_file_mode_node terminal_id = do
  file_mode ← on_dom (create_file_node terminal_id)
  send (make_file_req terminal_id (some (codes "/")))
  pure file_mode

-- The three nodes of a row, appended to `contnet`; the first one is clicked.
unfoldable pub create_row : ℕ → Entry → Text → M Dom ℕ
unfolding create_element set_class set_inner append_child size_text
create_row contnet elem date_text = do
  name ← create_element
  set_class name (
      if elem.is_dir
      then "file_entry_name" ∷ "file_entry_dir_name" ∷ []
      else "file_entry_name" ∷ [])
  set_inner name elem.display_name
  append_child contnet name
  size ← create_element
  set_class size ("file_entry_size" ∷ [])
  when (not elem.is_dir) (set_inner size (size_text elem.size))
  append_child contnet size
  date ← create_element
  set_class date ("file_entry_date" ∷ [])
  set_inner date date_text
  append_child contnet date
  pure name

-- `createDirElement(elem)`
unfoldable pub create_dir_element : ℕ → ℕ → M Ui (Unit {0})
unfolding create_row timestamp_to_string
create_dir_element contnet e = do
  elem ← gets (λ u. u.entries e)
  local_time ← gets (λ u. u.local_time)
  name ← on_dom (create_row contnet elem (timestamp_to_string local_time elem.last_mod))
  λ u. (ok tt, record u { clicks = update u.clicks name (some e) })

-- The object that `JSON.parse` made of a file, with `display_name` set.
new_entry : FileInfo → M Ui ℕ
new_entry f u =
    let e : Entry = record {
      name = f.name;
      display_name = f.name;
      is_dir = f.is_dir;
      size = f.size;
      last_mod = f.last_mod;
    } in
    (
      ok u.next_entry,
      record u { entries = update u.entries u.next_entry e; next_entry = u.next_entry + 1 },
    )

-- The body of `files.forEach` in `setDirectoryContent`.
list_file : ℕ → FileInfo → M Ui (Unit {0})
unfolding new_entry create_dir_element
list_file contnet f = do e ← new_entry f; create_dir_element contnet e

-- `this.current_elem.display_name = ".."`
rename_entry : ℕ → Text → M Ui (Unit {0})
rename_entry e v u =
    (ok tt, record u { entries = update u.entries e (record (u.entries e) { display_name = v }) })

-- The row that leads back up.
list_parent : ℕ → Option ℕ → Text → M Ui (Unit {0})
unfolding rename_entry create_dir_element
list_parent contnet none path = skip
list_parent contnet (some e) path =
    when (not (same_text path (codes "/")))
      do rename_entry e (codes ".."); create_dir_element contnet e

-- `setDirectoryContent(req_path, files)`
unfoldable pub set_directory_content : ℕ → Text → List FileInfo → M Ui (Unit {0})
unfolding set_inner make_list_labels list_parent list_file
set_directory_content t req_path files = do
  terminal ← gets (λ u. u.terminals t)
  let file_mode = terminal.file_mode_node
  put_terminal t
      (record terminal { file_mode_node = record file_mode { current_path = some req_path } })
  on_dom (set_inner file_mode.header (codes "Index of " ++ req_path))
  on_dom (set_inner file_mode.contnet [])
  on_dom (make_list_labels file_mode.contnet)
  list_parent file_mode.contnet file_mode.current_elem req_path
  for_each files (list_file file_mode.contnet)

-- The link that `onClicked` makes, clicks and drops.
unfoldable pub download : ℕ → Text → M Ui (Unit {0})
unfolding create_element set_display append_child remove_child
download id target = do
  element ← on_dom create_element
  on_dom (set_display element hidden)
  on_dom (append_child body element)
  call (downloaded (href_of id target) (download_name target))
  on_dom (remove_child body element)

-- `onClicked(elem)`
unfoldable pub on_entry_clicked : ℕ → ℕ → M Ui (Unit {0})
unfolding send make_file_req download click_target
on_entry_clicked t e = do
  terminal ← gets (λ u. u.terminals t)
  elem ← gets (λ u. u.entries e)
  let file_mode = terminal.file_mode_node
  put_terminal t (record terminal { file_mode_node = record file_mode { current_elem = some e } })
  target ← click_target file_mode.current_path elem.name elem.display_name
  if elem.is_dir
      then send (make_file_req file_mode.id (some target))
      else download file_mode.id target
