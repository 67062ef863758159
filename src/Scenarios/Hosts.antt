-- ===== src/Scenarios/Hosts.antt =====
-- The theorems on hosts, on the view and on the terminal manager, at the page of Scenarios.antt.
use html_terminal.Prelude.{
  ℕ, ◌≤◌, codes, ◌≡◌, ◌≢◌, refl, true, none, some, [], ◌∷◌, ok, throws, type_error, lookup, arith,
  is_some,
}
use html_terminal.Dom.{children_of, has_child, detach}
use html_terminal.Dom.Tree.{mem}
use html_terminal.Ui.{term_focused, opened, sent, Ui, term_opened}
use html_terminal.App.{App, file_list}
use html_terminal.TerminalView.{set_terminal, remove_terminal, create_terminal_node}
use html_terminal.TerminalView.Display.{displayed, IsOneShown, InPage, set_terminal-IsOneShown}
use html_terminal.TerminalView.Removal.{remove_terminal_of_current, remove_terminal_of_other}
use html_terminal.RemoteHost.{add_terminal, remove_terminal_button, remove_first, select_term_bt}
use html_terminal.RemoteHost.Row.{Represents}
use html_terminal.RemoteHost.Clearing.{IsTidy}
use html_terminal.RemoteHost.Panel.{IsPlaced}
use html_terminal.RemoteHost.Unlink.{drop_shown}
use html_terminal.RemoteHost.Selection.{
  AreApart, ShowsMode, shows_files, Selects, select_other-Represents,
}
use html_terminal.RemoteHost.Addition.{add_terminal-Represents}
use html_terminal.RemoteHost.Removal.{
  remove_terminal_button-Represents, remove_terminal_button_toggles,
}
use html_terminal.TerminalManager.{on_host_disconnected}
use html_terminal.TerminalManager.Events.{on_host_disconnected_throws}
use html_terminal.RemoteHost.First.{add_terminal_first}
use html_terminal.RemoteHost.Last.{remove_terminal_button_last}
use html_terminal.Protocol.{make_file_req}
use html_terminal.TerminalView.Creation.{create_terminal_node_lem}
use html_terminal.Scenarios.{
  page, host_with, blank, demo, demo_of, demo_ui, demo-Represents, demo-IsOneShown, demo-InPage,
}

add_terminal-Represents_example :
    let (r, s') = add_terminal 0 2 demo in
    (r ≡ ok tt)
    × Represents s' 0 (0 ∷ 1 ∷ 2 ∷ []) (0 ∷ 1 ∷ 2 ∷ [])
    × ((s'.hosts 0).selected_bt ≡ some 2)
    × ((s'.hosts 0).active_terminal ≡ some 2)
    × (s'.ui.current ≡ some 2)
    × InPage (s'.hosts 0).buttons_panel s'.ui
    × IsOneShown s'.ui
add_terminal-Represents_example =
    add_terminal-Represents 0 2 2 12 demo (0 ∷ 1 ∷ []) (0 ∷ 1 ∷ [])
      (demo-Represents 0 refl (omega arith)) refl refl (omega arith) demo-IsOneShown demo-InPage
      refl

demo-IsTidy : IsTidy 0 0 demo
unfolding children_of mem remove_first
demo-IsTidy = record {
  placed = refl;
  made = (omega arith, (omega arith, (omega arith, (omega arith, tt))));
  shown = (refl, tt);
  alone = refl;
}

-- The terminal on display goes.
remove_terminal_button-Represents_example :
    let (r, s') = remove_terminal_button 0 0 demo in
    (r ≡ ok tt)
    × Represents s' 0 (1 ∷ []) (1 ∷ [])
    × (is_some (s'.hosts 0).connecting_bt ≡ true)
    × ((s'.hosts 0).selected_bt ≡ some 1)
    × IsPlaced s' 0
unfolding mem remove_first has_child children_of drop_shown
remove_terminal_button-Represents_example =
    remove_terminal_button-Represents 0 0 1 demo (0 ∷ 1 ∷ []) (0 ∷ 1 ∷ []) []
      (demo-Represents 0 refl (omega arith)) refl refl refl refl
      ((10, refl, omega arith, refl), ((11, refl, omega arith, refl), tt)) demo-IsTidy demo-InPage
      demo-IsOneShown refl

demo-AreApart : AreApart (demo_ui.terminals 1) ((demo_of 1).buttons 1)
demo-AreApart =
    let out : (n : ℕ) → 1 ≤ n → n ≢ 0 = λ n le e. omega (arith, le, e) in
    let part : (n : ℕ) → 1 ≤ n → (n ≢ 0) × (n ≢ 0) × (n ≢ 0) =
      λ n le. (out n le, out n le, out n le) in
    ((λ e. omega (arith, e)), part 31 (omega arith), part 41 (omega arith))

remove_terminal_button_toggles_example :
    let s = demo_of 1 in
    let (r, s') = remove_terminal_button 0 0 s in
    (r ≡ ok tt)
    × ((s'.buttons 1).state ≡ file_list)
    × ((s.buttons 1).state ≢ (s'.buttons 1).state)
    × ShowsMode (shows_files (s'.buttons 1).state) 1 s'.ui
    × (s'.ui.current ≡ s.ui.current)
unfolding mem remove_first has_child
remove_terminal_button_toggles_example =
    remove_terminal_button_toggles 0 0 1 2 1 (demo_of 1) (0 ∷ 1 ∷ []) (0 ∷ 1 ∷ []) []
      (demo-Represents 1 refl (omega arith)) refl refl refl refl refl refl demo-AreApart

select_other-Represents_example :
    Selects 0 1 (0 ∷ 1 ∷ []) (0 ∷ 1 ∷ []) demo (select_term_bt 0 1 demo)
    × ((select_term_bt 0 1 demo).1.ui.current ≡ some 1)
    × IsOneShown (select_term_bt 0 1 demo).1.ui
select_other-Represents_example =
    select_other-Represents 0 1 1 11 demo (0 ∷ 1 ∷ []) (0 ∷ 1 ∷ [])
      (demo-Represents 0 refl (omega arith)) (refl, refl) (omega arith) refl demo-IsOneShown refl
      refl

set_terminal-IsOneShown_example :
    let (r, u) = set_terminal (some 1) demo_ui in
    (r ≡ ok tt)
    × IsOneShown u
    × (displayed u ≡ 11 ∷ [])
    × (u.current ≡ some 1)
    × (u.known ≡ demo_ui.known)
    × (u.calls ≡ term_focused 1 ∷ [])
set_terminal-IsOneShown_example = set_terminal-IsOneShown 1 11 demo_ui demo-IsOneShown refl

remove_terminal_of_current_example :
    let (r, u) = remove_terminal 100 demo_ui in
    (r ≡ ok tt)
    × IsOneShown u
    × (displayed u ≡ [])
    × (lookup 100 u.known ≡ none)
    × (lookup 101 u.known ≡ some 1)
remove_terminal_of_current_example =
    remove_terminal_of_current 100 0 10 101 demo_ui demo-IsOneShown (refl, (refl, (refl, tt))) refl
      refl refl (omega arith) (omega arith)

remove_terminal_of_other_example :
    let (r, u) = remove_terminal 101 demo_ui in
    (r ≡ ok tt) × (u.current ≡ none) × (displayed u ≡ 10 ∷ []) × ¬ (IsOneShown u)
remove_terminal_of_other_example =
    remove_terminal_of_other 101 1 11 0 10 demo_ui demo-IsOneShown refl refl refl refl (omega arith)
      (omega arith)

on_host_disconnected_throws_example :
    let (r, s) = on_host_disconnected 7 demo in
    (r ≡ throws type_error)
    × (lookup 7 s.host_map ≡ none)
    × (s.ui.dom.edges ≡ detach 4 demo.ui.dom.edges)
    × (s.ui.dom.display ≡ demo.ui.dom.display)
    × (s.ui.known ≡ demo.ui.known)
    × (s.ui.current ≡ some 0)
unfolding has_child
on_host_disconnected_throws_example = on_host_disconnected_throws 7 0 demo (refl, tt) refl refl

-- A host that has no terminal yet, and its panel (5).
abbrev bare : App
bare = record demo { hosts = λ h. record (blank.hosts 0) { buttons_panel = 5 } }

bare-InPage : InPage 5 bare.ui
unfolding children_of
bare-InPage = (omega arith, (λ e. omega (arith, e)), (omega arith, tt))

add_terminal_first_example :
    let (r, s') = add_terminal 0 1 bare in
    (r ≡ ok tt)
    × Represents s' 0 (3 ∷ []) (1 ∷ [])
    × (is_some (s'.hosts 0).connecting_bt ≡ true)
    × ((s'.hosts 0).selected_bt ≡ some 3)
    × ((s'.hosts 0).active_terminal ≡ some 1)
    × (s'.ui.current ≡ some 0)
    × InPage (s'.hosts 0).buttons_panel s'.ui
    × IsOneShown s'.ui
    × IsPlaced s' 0
unfolding children_of
add_terminal_first_example =
    add_terminal_first 0 1 bare refl refl (omega arith) refl bare-InPage demo-IsOneShown

-- A host with one terminal.
abbrev single : App
single = record demo {
  ui = record demo_ui { dom = record page { edges = (3, 4) ∷ (2, 20) ∷ (2, 22) ∷ (1, 10) ∷ [] } };
  hosts = λ h. record (host_with 0) { buttons = 0 ∷ 2 ∷ [] };
  current_host = some 0;
}

single-IsTidy : IsTidy 0 0 single
unfolding children_of mem remove_first
single-IsTidy = record {
  placed = refl;
  made = (omega arith, (omega arith, (omega arith, tt)));
  shown = (refl, tt);
  alone = refl;
}

single-IsOneShown : IsOneShown single.ui
unfolding children_of
single-IsOneShown = (10, refl, refl)

single-InPage : InPage 2 single.ui
unfolding children_of
single-InPage = (omega arith, (λ e. omega (arith, e)), (omega arith, tt))

single-Represents : Represents single 0 (0 ∷ []) (0 ∷ [])
single-Represents = record {
  shows = ((refl, refl), omega arith, tt);
  row = (refl, omega arith, (refl, refl), omega arith);
  opened = (refl, omega arith);
}

remove_terminal_button_last_example :
    let (r, s') = remove_terminal_button 0 0 single in
    (r ≡ ok tt)
    × Represents s' 0 [] []
    × (is_some (s'.hosts 0).connecting_bt ≡ true)
    × (s'.ui.current ≡ none)
    × IsOneShown s'.ui
    × IsPlaced s' 0
unfolding mem remove_first has_child children_of
remove_terminal_button_last_example =
    remove_terminal_button_last 0 0 single (0 ∷ []) (0 ∷ []) single-Represents refl refl refl refl
      single-IsTidy single-InPage single-IsOneShown

abbrev open_ui : Ui
open_ui = record demo_ui { socket = some opened }

create_terminal_node_lem_example :
    let (r, u) = create_terminal_node 103 open_ui in
    (r ≡ ok (some 3))
    × ((u.terminals 3).id ≡ 103)
    × ((u.terminals 3).node ≡ some 100)
    × (u.calls ≡ term_opened 3 ∷ sent (make_file_req 103 (some (codes "/"))) ∷ [])
    × (lookup 103 u.known ≡ some 3)
    × (lookup 101 u.known ≡ some 1)
    × (u.current ≡ some 0)
    × (displayed u ≡ 10 ∷ [])
    × (create_terminal_node 103 u ≡ (ok none, u))
    × (create_terminal_node 101 u ≡ (ok none, u))
unfolding children_of
create_terminal_node_lem_example =
    create_terminal_node_lem 103 101 1 open_ui refl refl refl (omega arith) (omega arith, tt)
