-- ===== src/RemoteHost/Last.antt =====
-- `removeTerminalButton` of webapp/remote.host.js for the last terminal of a host, with
-- `onHostEmpty`.
use html_terminal.Prelude.{
  ℕ, ◌≡◌, refl, true, false, Option, none, some, List, [], ◌∷◌, is_some, same_ref, ok, Outcome,
  ◌>>◌, >>=-ok, arith, ◌∙◌, ap, subst, sym, if◌then◌else◌, Bool-cases, inl, inr,
}
use html_terminal.Dom.{has_child, children_of}
use html_terminal.Dom.Tree.{mem}
use html_terminal.Ui.{Ui}
use html_terminal.App.{App, TermButton}
use html_terminal.TerminalView.Display.{
  IsOneShown, InPage, displayed, with_edges, leave_edges, set_terminal_none_lem,
  children_of-leave_edges, IsApart, shown-IsApart, children_of-leave_edges-apart,
}
use html_terminal.RemoteHost.Calls.{on_host_empty}
use html_terminal.RemoteHost.Remove.{
  remove_first, unlink, ensure_waiting, select_last, remove_terminal_button,
}
use html_terminal.RemoteHost.Row.{Shows, Represents}
use html_terminal.RemoteHost.Unlink.{drop_shown, after_unlink, unlink_lem, waiting_of_short}
use html_terminal.RemoteHost.Removal.{unlink_ensure}
use html_terminal.RemoteHost.Panel.{panel_children, IsPlaced}
use html_terminal.RemoteHost.Clearing.{IsTidy, unlink_ensure-Places}
use html_terminal.RemoteHost.Ending.{row_of_short, select_in}

-- The terminal on display once a host is empty.
abbrev left_current : ℕ → App → Option ℕ
left_current h s = if same_ref (some h) s.current_host then none else s.ui.current

on_host_empty_lem :
    (h : ℕ) (s : App)
    → IsOneShown s.ui
    → (u : Ui) × (on_host_empty h s ≡ (ok tt, record s { ui = u }))
      × IsOneShown u
      × (u.current ≡ left_current h s)
      × ((p : ℕ)
          → IsApart (children_of p s.ui.dom.edges) s.ui.terminals s.ui.current
          → children_of p u.dom.edges ≡ children_of p s.ui.dom.edges)
unfolding on_host_empty
on_host_empty_lem h s one = elim (Bool-cases (same_ref (some h) s.current_host)) [
  | inl mine ↦ (
    record (with_edges s.ui (leave_edges s.ui.current s.ui)) { current = none },
    rw (mine, set_terminal_none_lem s.ui one) refl,
    children_of-leave_edges s.ui.current s.ui one,
    rw mine refl,
    λ p. children_of-leave_edges-apart p s.ui.current s.ui,
  )
  | inr other ↦ (s.ui, rw other refl, one, rw other refl, λ p apart. refl)
]

Shows-none : (f : ℕ → TermButton) (k : ℕ) (ts : List ℕ) → Shows f k [] ts → ts ≡ []
Shows-none f k [] h = refl
Shows-none f k (t ∷ ts) h = absurd h

-- With just the waiting button, no button is selected.
select_last_empty :
    (h : ℕ) (s : App) (ts : List ℕ) → Represents s h [] ts → select_last h s ≡ on_host_empty h s
unfolding select_last
select_last_empty h s ts rep =
    let (c, row) =
      row_of_short (s.hosts h).connecting_bt s.buttons s.next_button (s.hosts h).buttons []
        (omega arith) rep.row in
    ap (λ r. select_in h r s) row

abbrev Emptied : ℕ → App → Outcome (Unit {0}) × App → Type 0
Emptied h s (r, s') =
    (r ≡ ok tt)
    × Represents s' h [] []
    × (is_some (s'.hosts h).connecting_bt ≡ true)
    × (s'.ui.current ≡ left_current h s)
    × IsOneShown s'.ui
    × IsPlaced s' h

-- `removeTerminalButton` of the only button `b` that shows a terminal: if the button is in the panel
-- and not in the view, the panel holds the nodes of the row, in which `b` shares its node with no other
-- button, and none of the view's, and the view shows its current terminal, the call returns. Then the
-- host shows no terminal, a button waits, the panel holds just the nodes of the row that is left, and the
-- view is empty if the host is the current one, and shows what it did before otherwise.
pub remove_terminal_button_last :
    (h b : ℕ) (s : App) (bs ts : List ℕ)
    → Represents s h bs ts
    → mem b bs ≡ true
    → remove_first b bs ≡ []
    → has_child (s.hosts h).buttons_panel (s.buttons b).node s.ui.dom.edges ≡ true
    → mem (s.buttons b).node (displayed s.ui) ≡ false
    → IsTidy h b s
    → InPage (s.hosts h).buttons_panel s.ui
    → IsOneShown s.ui
    → let (r, s') = remove_terminal_button h b s in
      (r ≡ ok tt)
      × Represents s' h [] []
      × (is_some (s'.hosts h).connecting_bt ≡ true)
      × (s'.ui.current ≡ (if same_ref (some h) s.current_host then none else s.ui.current))
      × IsOneShown s'.ui
      × IsPlaced s' h
unfolding remove_terminal_button
remove_terminal_button_last h b s bs ts rep m empty child out tidy page one =
    let s1 = after_unlink h b s in
    let s2 = (ensure_waiting h s1).1 in
    let (done, rep', _, terms, _, host, cur, one') = unlink_ensure h b s bs ts rep m out page one in
    let rep1 : Represents s2 h [] (drop_shown b bs ts) =
      subst (λ xs. Represents s2 h xs (drop_shown b bs ts)) empty rep' in
    let rep2 : Represents s2 h [] [] =
      subst (Represents s2 h [])
        (Shows-none s2.buttons s2.next_button (drop_shown b bs ts) rep1.shows) rep1 in
    let (u, emptied, one'', cur', keeps) = on_host_empty_lem h s2 one' in
    let ran =
      >>=-ok (unlink h b) (λ _. ensure_waiting h >> select_last h) (unlink_lem h b s child)
      ∙ >>=-ok (ensure_waiting h) (λ _. select_last h) (ap (λ r. (r, s2)) done)
      ∙ select_last_empty h s2 [] rep2
      ∙ emptied in
    let waits =
      waiting_of_short (s2.hosts h).connecting_bt s2.buttons s2.next_button (s2.hosts h).buttons []
        (omega arith) rep2.row in
    let q = unlink_ensure-Places h b s bs ts rep m tidy in
    let apart : IsApart (panel_children s2 h) s2.ui.terminals s2.ui.current =
      subst (λ f. IsApart (panel_children s2 h) f s2.ui.current) (sym terms)
        (subst (IsApart (panel_children s2 h) s.ui.terminals) (sym cur) (
          shown-IsApart s.ui.current s.ui (panel_children s h) (panel_children s2 h) s.ui.dom.fresh
            one page.2 tidy.shown q.apart)) in
    let kept : left_current h s2 ≡ left_current h s = rw (host, cur) refl in
    subst (Emptied h s) (sym ran) (
      refl,
      record { shows = rep2.shows; row = rep2.row; opened = rep2.opened },
      waits,
      cur' ∙ kept,
      one'',
      keeps (s2.hosts h).buttons_panel apart ∙ q.placed,
    )
