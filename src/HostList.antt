-- ===== src/HostList.antt =====
-- webapp/remote.host.list.js: `class RemoteHostList`, the hosts by their id and the current one.
pub mod Membership
use html_terminal.Prelude.{
  ℕ, Bool, true, false, Option, none, some, List, [], ◌∷◌, ◌++◌, Text, lookup, insert, erase,
  length, same_ref, ◌==◌, M, ok, ◌>>=◌, ◌>>◌, pure, raise, gets, modify, skip, when, type_error,
}
use html_terminal.Dom.{Dom, set_id}
use html_terminal.View.{create_node, clear_node, add_obj, remove_obj}
use html_terminal.App.{App, RemoteHost, Party, host_list, on_page}
use html_terminal.RemoteHost.{
  new_host, add_terminal, remove_terminal_by_id, on_host_shown, on_host_hidden,
}

-- `addEventListener(listener)` of webapp/web.app.js
unfoldable pub add_event_listener : Party → M App (Unit {0})
add_event_listener listener = modify (λ s. record s { listeners = s.listeners ++ (listener ∷ []) })

-- `constructor(terminalManager)` and `createNode()`
unfoldable pub new_host_list : M App (Unit {0})
unfolding create_node set_id add_event_listener
new_host_list = do
  modify (λ s. record s { host_map = []; current_host = none })
  node ← on_page create_node
  on_page (set_id node "remoteHostList")
  modify (λ s. record s { list_node = node })
  add_event_listener host_list

-- `clear()`
unfoldable pub clear_list : M App (Unit {0})
unfolding clear_node
clear_list = do
  modify (λ s. record s { host_map = []; current_host = none })
  node ← gets (λ s. s.list_node)
  on_page (clear_node node)

-- `getHostById(hostId)`
unfoldable pub get_host_by_id : ℕ → App → Option ℕ
get_host_by_id host_id s = lookup host_id s.host_map

-- `size()`
unfoldable pub size : App → ℕ
size s = length s.host_map

-- `addHost(hostId, hostIp, hostUserName, hostName)`
unfoldable pub add_host : ℕ → Text → Text → Text → M App (Unit {0})
unfolding add_obj size
add_host host_id ip user_name name = do
  h ← new_host host_id ip user_name name
  modify (λ s. record s { host_map = insert host_id h s.host_map })
  host ← gets (λ s. s.hosts h)
  node ← gets (λ s. s.list_node)
  on_page (add_obj node (some host.node))
  n ← gets size
  when (n == 1) do modify (λ s. record s { current_host = some h }); on_host_shown h

add_found : Option ℕ → ℕ → M App (Unit {0})
add_found none t = skip
add_found (some h) t = add_terminal h t

-- `addTerminalForHost(hostId, terminalNode)`
unfoldable pub add_terminal_for_host : ℕ → ℕ → M App (Unit {0})
unfolding get_host_by_id add_found
add_terminal_for_host host_id t = do found ← gets (get_host_by_id host_id); add_found found t

remove_terminal_of : Option ℕ → ℕ → M App (Unit {0})
remove_terminal_of none terminal_id = skip
remove_terminal_of (some h) terminal_id = remove_terminal_by_id h terminal_id

-- `removeTerminalForHost(hostId, terminalId)`
unfoldable pub remove_terminal_for_host : ℕ → ℕ → M App (Unit {0})
unfolding get_host_by_id remove_terminal_of
remove_terminal_for_host host_id terminal_id = do
  found ← gets (get_host_by_id host_id)
  remove_terminal_of found terminal_id

-- The rest of `removeHost`. A `RemoteHost` has no field `terminals`, so `host.terminals.forEach`
-- reads a property of `undefined`.
unfoldable pub remove_found : Option ℕ → ℕ → M App (Unit {0})
unfolding remove_obj
remove_found none host_id = skip
remove_found (some h) host_id = do
  current ← gets (λ s. s.current_host)
  when (same_ref current (some h)) (modify (λ s. record s { current_host = none }))
  host ← gets (λ s. s.hosts h)
  node ← gets (λ s. s.list_node)
  on_page (remove_obj node (some host.node))
  modify (λ s. record s { host_map = erase host_id s.host_map })
  raise type_error

-- `removeHost(hostId)`
unfoldable pub remove_host : ℕ → M App (Unit {0})
unfolding get_host_by_id remove_found
remove_host host_id = do found ← gets (get_host_by_id host_id); remove_found found host_id

abbrev hide_host : Option ℕ → M App (Unit {0})
hide_host none = skip
hide_host (some h) = on_host_hidden h

-- `onHostSelected(host)`
unfoldable pub list_on_host_selected : ℕ → M App (Unit {0})
list_on_host_selected h = do
  current ← gets (λ s. s.current_host)
  hide_host current
  modify (λ s. record s { current_host = some h })
  on_host_shown h
