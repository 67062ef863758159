-- ===== src/RemoteHost/Addition.antt =====
-- `addTerminal` of webapp/remote.host.js, where a button waits, and the row of the host.
use html_terminal.Prelude.{
  ℕ, ◌≤◌, ◌<◌, ◌≡◌, refl, true, false, Option, none, some, List, [], ◌∷◌, ◌++◌, update_self, length,
  length-append, is_some, same_ref, arith, ok, Outcome, ◌>>◌, >>=-ok, ◌∙◌, sym, ap, subst,
}
use html_terminal.Ui.{Ui}
use html_terminal.App.{App, TermButton, RemoteHost, host_list, terminal_manager}
use html_terminal.TerminalView.Display.{IsOneShown, IsShowing-page, InPage, select_InPage}
use html_terminal.RemoteHost.Select.{select_term_bt}
use html_terminal.RemoteHost.Terminals.{open_waiting, add_waiting, add_next, add_terminal, add_to}
use html_terminal.RemoteHost.Steps.{after_select, select_other_lem, with_selected}
use html_terminal.RemoteHost.Row.{Shows, IsRow, WasOpened, Represents}
use html_terminal.RemoteHost.Waiting.{
  with_connecting, after_open, open_waiting_lem, select_term_bt_other, opened_by_self, filled,
  Shows-filled, filled_self, add_waiting_lem,
}

opened-ne-waiting :
    (o : Option ℕ) (f : ℕ → TermButton) (k c : ℕ)
    → WasOpened o f k
    → (f c).terminal ≡ none
    → same_ref o (some c) ≡ false
opened-ne-waiting none f k c h w = refl
opened-ne-waiting (some o) f k c h w = ground arith

-- A host that shows `ts` by `bs`, after its button `c` has got the terminal `t`.
abbrev pub Adds : ℕ → ℕ → ℕ → List ℕ → List ℕ → Outcome (Unit {0}) × App → Type 0
Adds h c t bs ts (r, s') =
    (r ≡ ok tt)
    × Represents s' h (bs ++ (c ∷ [])) (ts ++ (t ∷ []))
    × ((s'.hosts h).selected_bt ≡ some c)
    × ((s'.hosts h).active_terminal ≡ some t)
    × (s'.ui.current ≡ some t)
    × InPage (s'.hosts h).buttons_panel s'.ui
    × IsOneShown s'.ui

-- The end of `addTerminal`, after the selection of the button that waited.
add_after_select :
    (h c t : ℕ) (u : Ui) (s : App) (host : RemoteHost) (f : ℕ → TermButton) (o : Option ℕ)
    (bs ts : List ℕ)
    → s.hosts h ≡ with_selected c (some t) host
    → s.buttons ≡ filled o c t f
    → s.ui.current ≡ some t
    → host.connecting_bt ≡ none
    → IsRow (some c) f s.next_button host.buttons bs
    → Shows f s.next_button bs ts
    → InPage host.buttons_panel s.ui
    → IsOneShown s.ui
    → Adds h c t bs ts (add_waiting h s)
add_after_select h c t u s host f o bs ts known same cur conn (row, short, (w, _), lt) shows page
      one =
    let k = s.next_button in
    let bs' = bs ++ (c ∷ []) in
    let short' : length bs' ≤ 4 = omega (arith, length-append bs (c ∷ []), short) in
    let shows' : Shows s.buttons k bs' (ts ++ (t ∷ [])) =
      subst (λ g. Shows g k bs' (ts ++ (t ∷ []))) (sym same)
        (Shows-filled o c t f k bs ts w lt shows) in
    let mine : WasOpened (some c) s.buttons k =
      (subst (λ g. is_some (g c).terminal ≡ true) (sym same) (filled_self o c t f), lt) in
    let opened : WasOpened (s.hosts h).selected_bt s.buttons k =
      subst (λ r. WasOpened r.selected_bt s.buttons k) (sym known) mine in
    let (done, rep, sel, act, cur', panel, _, _, _, stays) =
      add_waiting_lem h s bs' (ts ++ (t ∷ [])) (ap (λ r. r.buttons) known ∙ row)
        (ap (λ r. r.connecting_bt) known ∙ conn) short' shows' opened in
    let here : (s.hosts h).buttons_panel ≡ host.buttons_panel = ap (λ r. r.buttons_panel) known in
    let (page', one') = stays (subst (λ p. InPage p s.ui) (sym here) page) one in
    (
      done,
      rep,
      sel ∙ ap (λ r. r.selected_bt) known,
      act ∙ ap (λ r. r.active_terminal) known,
      cur' ∙ cur,
      subst (λ p. InPage p (add_waiting h s).1.ui) (sym panel) page',
      one',
    )

-- `addTerminal`, for a host that shows the terminals `ts` and whose button `c` waits: if the view
-- shows its current terminal and the new one has a node of the page, the call returns; then the
-- host shows `ts` and the new terminal, by the button that waited, which is selected, and the view
-- shows the new terminal alone. A button waits again unless the host now shows four terminals.
pub add_terminal-Represents :
    (h c t n : ℕ) (s : App) (bs ts : List ℕ)
    → Represents s h bs ts
    → (s.hosts h).connecting_bt ≡ some c
    → (s.ui.terminals t).node ≡ some n
    → n < s.ui.dom.fresh
    → IsOneShown s.ui
    → InPage (s.hosts h).buttons_panel s.ui
    → s.listeners ≡ host_list ∷ terminal_manager ∷ []
    → let (r, s') = add_terminal h t s in
      (r ≡ ok tt)
      × Represents s' h (bs ++ (c ∷ [])) (ts ++ (t ∷ []))
      × ((s'.hosts h).selected_bt ≡ some c)
      × ((s'.hosts h).active_terminal ≡ some t)
      × (s'.ui.current ≡ some t)
      × InPage (s'.hosts h).buttons_panel s'.ui
      × IsOneShown s'.ui
unfolding add_terminal add_next
add_terminal-Represents h c t n s bs ts rep conn node made shown page ls =
    let (d, opened, same, same_fresh) = open_waiting_lem h c t s in
    let s1 = after_open h c t d s in
    let host = with_connecting none (s.hosts h) in
    let known : s1.hosts h ≡ host = update_self s.hosts h host in
    let row = subst (λ o. IsRow o s.buttons s.next_button (s.hosts h).buttons bs) conn rep.row in
    let other : same_ref (s1.hosts h).selected_bt (some c) ≡ false =
      subst (λ r. same_ref r.selected_bt (some c) ≡ false) (sym known)
        (opened-ne-waiting (s.hosts h).selected_bt s.buttons s.next_button c rep.opened row.2.0) in
    let (u, chosen, one, cur, _, view, fresh, disp, _) =
      select_other_lem h c t n s1 (opened_by_self c t s.buttons).0 node
        (IsShowing-page s.ui.current s.ui d same shown) ls in
    let s2 = after_select h c t u s1 in
    let known' : s2.hosts h ≡ with_selected c (some t) host =
      update_self s1.hosts h _ ∙ ap (with_selected c (some t)) known in
    let page' : InPage (s.hosts h).buttons_panel u =
      select_InPage (s.hosts h).buttons_panel n s.ui u page made view (fresh ∙ same_fresh) disp in
    let ended =
      add_after_select h c t u s2 host s.buttons (s1.hosts h).selected_bt bs ts known' refl cur refl
        row rep.shows page' one in
    let selected = select_term_bt_other h c s1 other ∙ chosen in
    let ran =
      >>=-ok (open_waiting h c t) (λ _. select_term_bt h c >> add_waiting h) opened
      ∙ >>=-ok (select_term_bt h c) (λ _. add_waiting h) selected in
    subst (λ o. Adds h c t bs ts (add_to h o t s)) (sym conn)
      (subst (Adds h c t bs ts) (sym ran) ended)
