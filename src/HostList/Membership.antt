-- ===== src/HostList/Membership.antt =====
-- How hosts join and leave the list of webapp/remote.host.list.js.
use html_terminal.Prelude.{
  ℕ, ◌≡◌, true, none, some, lookup, erase, same_ref, if◌then◌else◌, arith, ok, throws, type_error,
}
use html_terminal.Dom.{has_child, detach, remove_child}
use html_terminal.App.{App}
use html_terminal.HostList.{remove_host}

-- The state after a host leaves.
abbrev pub after_leave : ℕ → ℕ → App → App
after_leave host_id h s = record s {
  current_host = if same_ref s.current_host (some h) then none else s.current_host;
  ui = record s.ui { dom = record s.ui.dom { edges = detach (s.hosts h).node s.ui.dom.edges } };
  host_map = erase host_id s.host_map;
}

-- `removeHost` of a host that is in the list throws once the host has left.
pub remove_host_lem :
    (host_id h : ℕ) (s : App)
    → lookup host_id s.host_map ≡ some h
    → has_child s.list_node (s.hosts h).node s.ui.dom.edges ≡ true
    → remove_host host_id s ≡ (throws type_error, after_leave host_id h s)
unfolding remove_host remove_child
remove_host_lem host_id h s e c = ground (arith, e, c)

pub remove_host_unknown :
    (host_id : ℕ) (s : App) → lookup host_id s.host_map ≡ none → remove_host host_id s ≡ (ok tt, s)
unfolding remove_host
remove_host_unknown host_id s e = ground (arith, e)
