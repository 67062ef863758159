-- ===== src/TerminalManager/Events.antt =====
-- What the events of webapp/app.event.js come to, with the listeners that webapp/web.app.js has.
use mathlib.Core.Path.{fun_ext}
use html_terminal.Prelude.{
  ℕ, ◌≡◌, refl, true, Option, none, some, lookup, length, ◌==◌, if◌then◌else◌, arith, ok, throws,
  type_error, M, >>=-throws, ap, for_each, when, not, HasUniqueKeys, lookup-erase_self,
}
use html_terminal.Dom.{detach, has_child}
use html_terminal.App.{App, Party, web_app, host_list, terminal_manager, remote_host, same_party}
use html_terminal.RemoteHost.{push_terminal_selected, on_terminal_selected}
use html_terminal.HostList.{remove_host, size}
use html_terminal.HostList.Membership.{remove_host_lem, remove_host_unknown}
use html_terminal.TerminalManager.{
  terminal_selected, push_event, on_event, on_host_disconnected, show_no_terminals_info,
}

on_event_selected :
    (l : Party) (term : Option ℕ)
    → on_event l (terminal_selected term) ≡ on_terminal_selected l term
unfolding on_event on_terminal_selected
on_event_selected host_list term = refl
on_event_selected terminal_manager term = refl
on_event_selected web_app term = refl
on_event_selected (remote_host h) term = refl

-- The handler of each listener, told of a selection by `sender`.
handlers_eq :
    (sender : Party) (term : Option ℕ)
    → ◌≡◌ {A = Party → M App (Unit {0})}
        (λ l. when (not (same_party l sender)) (on_event l (terminal_selected term)))
        (λ l. when (not (same_party l sender)) (on_terminal_selected l term))
handlers_eq sender term =
    fun_ext λ l. ap (when (not (same_party l sender))) (on_event_selected l term)

-- The host whose terminal is selected pushes its event as every event is pushed.
pub push_event-terminal_selected :
    (sender : Party) (term : Option ℕ) (s : App)
    → push_event sender (terminal_selected term) s ≡ push_terminal_selected sender term s
unfolding push_event push_terminal_selected
push_event-terminal_selected sender term s =
    ap (λ f. for_each s.listeners f s) (handlers_eq sender term)

-- When a host disconnects that is in the list (ids are unique) and whose node is in the list's, it
-- leaves the list and its node the page, and then the handler throws: no node is shown or hidden,
-- so that the notice does not appear, even for the last host, and the terminals of the host stay
-- known and on display.
pub on_host_disconnected_throws :
    (host_id h : ℕ) (s : App)
    → HasUniqueKeys s.host_map
    → lookup host_id s.host_map ≡ some h
    → has_child s.list_node (s.hosts h).node s.ui.dom.edges ≡ true
    → let (r, s') = on_host_disconnected host_id s in
      (r ≡ throws type_error)
      × (lookup host_id s'.host_map ≡ none)
      × (s'.ui.dom.edges ≡ detach (s.hosts h).node s.ui.dom.edges)
      × (s'.ui.dom.display ≡ s.ui.dom.display)
      × (s'.ui.known ≡ s.ui.known)
      × (s'.ui.current ≡ s.ui.current)
unfolding on_host_disconnected
on_host_disconnected_throws host_id h s uniq e c =
    rw (>>=-throws (remove_host host_id) _ (remove_host_lem host_id h s e c))
      (refl, lookup-erase_self host_id s.host_map uniq, refl, refl, refl, refl)

-- A host that is not in the list disconnects: nothing happens but that the notice is shown, and the
-- view and the list hidden, if the list is empty.
pub on_host_disconnected_unknown :
    (host_id : ℕ) (s : App)
    → lookup host_id s.host_map ≡ none
    → on_host_disconnected host_id s
      ≡ (if length s.host_map == 0 then show_no_terminals_info s else (ok tt, s))
unfolding on_host_disconnected size
on_host_disconnected_unknown host_id s e = ground (arith, remove_host_unknown host_id s e)
