-- ===== src/RemoteHost/Keeping.antt =====
-- A selection leaves the panel of the host as it was: webapp/remote.host.js.
use html_terminal.Prelude.{
  ℕ, ◌≤◌, ◌≡◌, ◌≢◌, true, false, Option, none, some, List, [], ◌∷◌, ◌++◌, All, length, update,
  update_self, same_ref, arith, ◌∙◌, sym, ap, Bool-cases, inl, inr,
}
use html_terminal.Dom.{children_of}
use html_terminal.Dom.Tree.{mem}
use html_terminal.App.{App, TermButton, host_list, terminal_manager}
use html_terminal.TerminalView.Display.{IsOneShown, IsApart}
use html_terminal.RemoteHost.Select.{select_term_bt, toggle_view}
use html_terminal.RemoteHost.Remove.{select_last}
use html_terminal.RemoteHost.Row.{IsLive, Represents}
use html_terminal.RemoteHost.Steps.{
  after_select, select_other_lem, marked, unselected, with_selected,
}
use html_terminal.RemoteHost.Panel.{panel_children, nodes_of, IsPlaced, nodes_of-like}
use html_terminal.RemoteHost.Selection.{toggled, in_state, toggle_view_lem, select_term_bt_same}
use html_terminal.RemoteHost.Waiting.{select_term_bt_other}
use html_terminal.RemoteHost.Unlink.{last-IsLive}
use html_terminal.RemoteHost.Ending.{select_last_lem}

select_same-IsPlaced :
    (h l t : ℕ) (s : App)
    → IsLive (s.buttons l) t
    → same_ref (s.hosts h).selected_bt (some l) ≡ true
    → IsPlaced s h
    → IsPlaced (select_term_bt h l s).1 h
select_same-IsPlaced h l t s live same placed =
    let state = (s.buttons l).state in
    let (u, ran, _, edges) = toggle_view_lem l t state s live.1 in
    let g = update s.buttons l (in_state (toggled state) (s.buttons l)) in
    let run = select_term_bt_same h l s same ∙ ap (λ o. toggle_view l state o s) live.0 ∙ ran in
    let like : (b : ℕ) → (g b).node ≡ (s.buttons b).node = λ b. ground arith in
    rw run (
      ap (children_of (s.hosts h).buttons_panel) edges
      ∙ placed
      ∙ sym (nodes_of-like s.buttons g (s.hosts h).buttons like))

marked-node :
    (o : Option ℕ) (l : ℕ) (f : ℕ → TermButton) (b : ℕ)
    → (marked l (unselected o f) b).node ≡ (f b).node
marked-node none l f b = ground arith
marked-node (some o) l f b = ground arith

-- A terminal whose node is not in the panel.
abbrev pub HasFreeNode : App → ℕ → ℕ → Type 0
HasFreeNode s h t =
    (n : ℕ) × ((s.ui.terminals t).node ≡ some n) × (mem n (panel_children s h) ≡ false)

module _ (h l t : ℕ) (s : App) (live : IsLive (s.buttons l) t) (free : HasFreeNode s h t)
    (view : (s.hosts h).buttons_panel ≢ s.ui.view_node)
    (apart : IsApart (panel_children s h) s.ui.terminals s.ui.current) (one : IsOneShown s.ui)
    (ls : s.listeners ≡ host_list ∷ terminal_manager ∷ []) where
  select_other-IsPlaced :
      same_ref (s.hosts h).selected_bt (some l) ≡ false
      → IsPlaced s h
      → IsPlaced (select_term_bt h l s).1 h
  select_other-IsPlaced other placed =
      let (n, node, out) = free in
      let (u, ran, _, _, _, _, _, _, keeps) = select_other_lem h l t n s live.0 node one ls in
      let o = (s.hosts h).selected_bt in
      let s' = after_select h l t u s in
      let known : s'.hosts h ≡ with_selected l (some t) (s.hosts h) = update_self s.hosts h _ in
      rw (select_term_bt_other h l s other ∙ ran) (
        ap (λ r. children_of r.buttons_panel u.dom.edges) known
        ∙ keeps (s.hosts h).buttons_panel view apart out
        ∙ placed
        ∙ sym (nodes_of-like s.buttons s'.buttons (s.hosts h).buttons (marked-node o l s.buttons))
        ∙ sym (ap (λ r. nodes_of s'.buttons r.buttons) known))

  select_term_bt-IsPlaced : IsPlaced s h → IsPlaced (select_term_bt h l s).1 h
  select_term_bt-IsPlaced placed = elim (Bool-cases (same_ref (s.hosts h).selected_bt (some l))) [
    | inl same ↦ select_same-IsPlaced h l t s live same placed
    | inr other ↦ select_other-IsPlaced other placed
  ]

pub select_last-IsPlaced :
    (h l : ℕ) (s : App) (xs ts : List ℕ)
    → Represents s h (xs ++ (l ∷ [])) ts
    → length (xs ++ (l ∷ [])) ≤ 3
    → All (HasFreeNode s h) ts
    → (s.hosts h).buttons_panel ≢ s.ui.view_node
    → IsApart (panel_children s h) s.ui.terminals s.ui.current
    → IsOneShown s.ui
    → s.listeners ≡ host_list ∷ terminal_manager ∷ []
    → IsPlaced s h
    → IsPlaced (select_last h s).1 h
select_last-IsPlaced h l s xs ts rep short nodes view apart one ls placed =
    let (t, live, _, free) =
      last-IsLive (HasFreeNode s h) s.buttons s.next_button l xs ts rep.shows nodes in
    rw (select_last_lem h l s xs ts rep short)
      (select_term_bt-IsPlaced h l t s live free view apart one ls placed)
