-- ===== src/RemoteHost/First.antt =====
-- `addTerminal` of webapp/remote.host.js for the first terminal of a host.
use html_terminal.Prelude.{
  ℕ, ◌+◌, ◌≡◌, ◌≤◌, ◌<◌, All, false, refl, true, none, some, [], ◌∷◌, ◌++◌, update, update_self,
  length, is_some, ok, M, Outcome, ◌>>=◌, ◌>>◌, >>=-ok, gets, arith, ◌∙◌, ap, subst, sym,
}
use html_terminal.Dom.{Dom, children_of}
use html_terminal.App.{App, TermButton, RemoteHost, terminal, put_host}
use html_terminal.TermButton.{set_state, on_selected}
use html_terminal.TerminalView.Display.{IsOneShown, InPage, keep_display}
use html_terminal.RemoteHost.Create.{add_term_bt}
use html_terminal.RemoteHost.Terminals.{add_terminal, add_first, add_to, add_waiting_below}
use html_terminal.Dom.Tree.{mem}
use html_terminal.RemoteHost.Panel.{
  IsPlaced, Places, panel_children, nodes_of, add_term_bt-Places, add_waiting_below-Places,
}
use html_terminal.RemoteHost.Making.{IsMade, KeepsChildren, after_add, add_term_bt_lem}
use html_terminal.RemoteHost.Waiting.{made_host, add_waiting_below_lem}
use html_terminal.RemoteHost.Unlink.{waiting_of_short}
use html_terminal.RemoteHost.Row.{is_open, IsLive, WasOpened, Represents}

-- The host with its first terminal, before it has a button.
abbrev activated_by : ℕ → ℕ → App → App
activated_by h t s = record s {
  hosts = update s.hosts h (record (s.hosts h) { active_terminal = some t });
}

-- The end of `addTerminal`, for the button made.
abbrev open_first : ℕ → ℕ → M App (Unit {0})
open_first h b = do
  host ← gets (λ s. s.hosts h)
  put_host h (record host { selected_bt = some b })
  set_state b terminal
  on_selected b
  add_waiting_below h true

abbrev with_first : ℕ → RemoteHost → RemoteHost
with_first b host = record host { selected_bt = some b }

abbrev after_first : ℕ → ℕ → (ℕ → TermButton) → Dom → App → App
after_first h b f d s = record s {
  ui = record s.ui { dom = d };
  hosts = update s.hosts h (record (s.hosts h) { selected_bt = some b });
  buttons = f;
}

open_first_lem :
    (h b : ℕ) (s : App)
    → (f : ℕ → TermButton) × (d : Dom) × (open_first h b s
        ≡ add_waiting_below h true (after_first h b f d s))
      × (d.edges ≡ s.ui.dom.edges)
      × (d.fresh ≡ s.ui.dom.fresh)
      × ((f b).terminal ≡ (s.buttons b).terminal)
      × ((f b).state ≡ terminal)
      × ((f b).node ≡ (s.buttons b).node)
unfolding set_state on_selected
open_first_lem h b s = (_, _, refl, refl, refl, ground arith, ground arith, ground arith)

no_member : (k : ℕ) → mem k [] ≡ false
unfolding mem
no_member k = refl

not_next : (k : ℕ) → mem (k + 1) (k ∷ []) ≡ false
unfolding mem
not_next k = ground arith

-- A host with one terminal and a button that waits.
abbrev BeginsWith : ℕ → ℕ → ℕ → App → Outcome (Unit {0}) × App → Type 0
BeginsWith h b t s (r, s') =
    (r ≡ ok tt)
    × Represents s' h (b ∷ []) (t ∷ [])
    × (is_some (s'.hosts h).connecting_bt ≡ true)
    × ((s'.hosts h).selected_bt ≡ some b)
    × ((s'.hosts h).active_terminal ≡ some t)
    × (s'.ui.current ≡ s.ui.current)
    × InPage (s'.hosts h).buttons_panel s'.ui
    × IsOneShown s'.ui
    × IsPlaced s' h

-- `addTerminal`, for a host without a button and with an empty panel: if the view shows its current
-- terminal, the call returns; then the host shows the terminal by a new button, which is selected,
-- another button waits, the panel holds the nodes of both, and the view shows what it did before.
pub add_terminal_first :
    (h t : ℕ) (s : App)
    → (s.hosts h).connecting_bt ≡ none
    → (s.hosts h).buttons ≡ []
    → (s.hosts h).buttons_panel < s.ui.dom.fresh
    → panel_children s h ≡ []
    → InPage (s.hosts h).buttons_panel s.ui
    → IsOneShown s.ui
    → let (r, s') = add_terminal h t s in
      (r ≡ ok tt)
      × Represents s' h (s.next_button ∷ []) (t ∷ [])
      × (is_some (s'.hosts h).connecting_bt ≡ true)
      × ((s'.hosts h).selected_bt ≡ some s.next_button)
      × ((s'.hosts h).active_terminal ≡ some t)
      × (s'.ui.current ≡ s.ui.current)
      × InPage (s'.hosts h).buttons_panel s'.ui
      × IsOneShown s'.ui
      × IsPlaced s' h
unfolding add_terminal add_first
add_terminal_first h t s conn empty inside bare page one =
    let k = s.next_button in
    let s0 = activated_by h t s in
    let host : RemoteHost = record (s.hosts h) { active_terminal = some t } in
    let known0 : s0.hosts h ≡ host = update_self s.hosts h host in
    let (b, d, e, st, te, grows, keeps, _, _, _) = add_term_bt_lem h (some t) s0 in
    let s1 = after_add h b d s0 in
    let (f, d', ran, same, same_fresh, fte, fst, fnode) = open_first_lem h k s1 in
    let s2 = after_first h k f d' s1 in
    let known2 : s2.hosts h ≡ with_first k (made_host k host) =
      update_self s1.hosts h _
      ∙ ap (with_first k) (update_self s0.hosts h _ ∙ ap (made_host k) known0) in
    let live : IsLive (f k) t =
      (fte ∙ ap (λ x. x.terminal) (update_self s.buttons k b) ∙ te, ap is_open fst) in
    let panel : (s2.hosts h).buttons_panel ≡ (s.hosts h).buttons_panel =
      ap (λ r. r.buttons_panel) known2 in
    let keeps' =
      subst (λ r. KeepsChildren r.buttons_panel s.ui.view_node s.ui.dom d) known0
        (keeps s.ui.view_node) in
    let (page', one') =
      keep_display (s.hosts h).buttons_panel s.ui d' (omega arith)
        (ap (children_of s.ui.view_node) same ∙ keeps' page.0 page.1 page.2) page one in
    let empty0 : (s0.hosts h).buttons ≡ [] = ap (λ r. r.buttons) known0 ∙ empty in
    let made0 : IsMade (s0.hosts h).buttons_panel s0.ui.dom =
      subst (λ r. IsMade r.buttons_panel s.ui.dom) (sym known0)
        (inside, subst (All (λ n. n < s.ui.dom.fresh)) (sym bare) tt) in
    let placed0 : IsPlaced s0 h =
      ap (λ r. children_of r.buttons_panel s.ui.dom.edges) known0
      ∙ bare
      ∙ sym (ap (nodes_of s.buttons) empty0) in
    let q : Places h s0 s1 =
      subst (λ o. Places h s0 o.1) e
        (add_term_bt-Places h (some t) s0 made0 (ap (mem k) empty0 ∙ no_member k) placed0) in
    let row1 : (s1.hosts h).buttons ≡ k ∷ [] =
      ap (λ r. r.buttons) (update_self s0.hosts h _) ∙ ap (λ bs. bs ++ (k ∷ [])) empty0 in
    let row2 : (s2.hosts h).buttons ≡ k ∷ [] =
      ap (λ r. r.buttons) known2 ∙ ap (λ bs. bs ++ (k ∷ [])) empty in
    let panel21 : (s2.hosts h).buttons_panel ≡ (s1.hosts h).buttons_panel =
      ap (λ r. r.buttons_panel) (update_self s1.hosts h _) in
    let children21 : panel_children s2 h ≡ panel_children s1 h =
      ap (λ p. children_of p d'.edges) panel21 ∙ ap (children_of (s1.hosts h).buttons_panel) same in
    let placed2 : IsPlaced s2 h =
      children21
      ∙ q.placed
      ∙ ap (nodes_of s1.buttons) row1
      ∙ ap (λ n. n ∷ []) (sym fnode)
      ∙ sym (ap (nodes_of f) row2) in
    let made2 : IsMade (s2.hosts h).buttons_panel d' = (
      subst (λ p. p < d'.fresh) (sym panel21) (omega (arith, q.made.0, same_fresh)),
      subst (λ m. All (λ n. n < m) (panel_children s2 h)) (sym same_fresh)
          (subst (All (λ n. n < d.fresh)) (sym children21) q.made.1),
    ) in
    let q' = add_waiting_below-Places h s2 made2 (ap (mem (k + 1)) row2 ∙ not_next k) placed2 in
    let short : length (k ∷ []) ≤ 3 = omega arith in
    let (done, rep, sel, act, cur, panel', _, _, _, stays) =
      add_waiting_below_lem h s2 (k ∷ []) (t ∷ [])
        (ap (λ r. r.buttons) known2 ∙ ap (λ bs. bs ++ (k ∷ [])) empty) short (live, omega arith, tt)
        (subst (λ r. WasOpened r.selected_bt f (k + 1)) (sym known2)
          (ap is_some live.0, omega arith)) in
    let (page'', one'') = stays (subst (λ p. InPage p s2.ui) (sym panel) page') one' in
    let s' : App = (add_waiting_below h true s2).1 in
    let waits =
      waiting_of_short (s'.hosts h).connecting_bt s'.buttons s'.next_button (s'.hosts h).buttons
        (k ∷ []) short rep.row in
    let whole : add_first h t s ≡ add_waiting_below h true s2 =
      >>=-ok (add_term_bt h (some t)) (open_first h) e ∙ ran in
    subst (λ o. BeginsWith h k t s (add_to h o t s)) (sym conn)
      (subst (BeginsWith h k t s) (sym whole) (
        done,
        rep,
        waits,
        sel ∙ ap (λ r. r.selected_bt) known2,
        act ∙ ap (λ r. r.active_terminal) known2,
        cur,
        subst (λ p. InPage p s'.ui) (sym panel') page'',
        one'',
        q'.placed,
      ))
