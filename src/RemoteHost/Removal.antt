-- ===== src/RemoteHost/Removal.antt =====
-- `removeTerminalButton` of webapp/remote.host.js, and the row of the host.
use html_terminal.Prelude.{
  All, All-mono, ◌<◌, false, ℕ, ◌≤◌, ◌≡◌, ◌≢◌, true, false, some, List, [], ◌∷◌, ◌++◌, update_self,
  length, is_some, same_ref, ◌==◌, arith, ok, Outcome, ◌>>◌, >>=-ok, ◌∙◌, sym, ap, subst,
  Bool-cases, inl, inr,
}
use html_terminal.Dom.{has_child, children_of}
use html_terminal.Dom.Tree.{mem, without-not_mem, children_of-detach}
use html_terminal.App.{App, ButtonState, file_list, idle, activating, host_list, terminal_manager}
use html_terminal.TerminalView.Display.{
  IsApart, shown-IsApart, IsOneShown, InPage, displayed, keep_display,
}
use html_terminal.RemoteHost.Remove.{
  remove_first, unlink, ensure_waiting, select_last, remove_terminal_button, add_waiting_unless,
}
use html_terminal.RemoteHost.Row.{IsLive, represents, is_open, IsRow, WasOpened, Represents}
use html_terminal.RemoteHost.Select.{select_term_bt}
use html_terminal.RemoteHost.Selection.{
  ShowsMode, AreApart, shows_files, Selects, select_same-Represents, toggled,
}
use html_terminal.RemoteHost.Unlink.{
  drop_shown, Shows-drop, IsRow-drop, unlinked_host, after_unlink, unlink_lem, last-IsLive,
  waiting_of_short, Readies, ensure_waiting_lem,
}
use html_terminal.RemoteHost.Panel.{panel_children, IsPlaced}
use html_terminal.RemoteHost.Clearing.{IsTidy, unlink_ensure-Places}
use html_terminal.RemoteHost.Keeping.{HasFreeNode, select_last-IsPlaced}
use html_terminal.RemoteHost.Ending.{select_last_lem, HasNode, select_last-Represents}

-- The part of `removeTerminalButton` before the selection.
pub unlink_ensure :
    (h b : ℕ) (s : App) (bs ts : List ℕ)
    → Represents s h bs ts
    → mem b bs ≡ true
    → mem (s.buttons b).node (displayed s.ui) ≡ false
    → InPage (s.hosts h).buttons_panel s.ui
    → IsOneShown s.ui
    → Readies h
        (remove_first b bs)
        (drop_shown b bs ts)
        (after_unlink h b s)
        (ensure_waiting h (after_unlink h b s))
unlink_ensure h b s bs ts rep m out page one =
    let s' = after_unlink h b s in
    let host = s.hosts h in
    let bs' = remove_first b bs in
    let known : s'.hosts h ≡ unlinked_host b host = update_self s.hosts h (unlinked_host b host) in
    let (short, waits, whole) =
      IsRow-drop host.connecting_bt s.buttons s.next_button b host.buttons bs m rep.row in
    let same : children_of s.ui.view_node s'.ui.dom.edges ≡ displayed s.ui =
      children_of-detach s.ui.view_node (s.buttons b).node s.ui.dom.edges
      ∙ without-not_mem (s.buttons b).node (displayed s.ui) out in
    let (page', one') =
      keep_display host.buttons_panel s.ui s'.ui.dom (omega arith) same page one in
    ensure_waiting_lem h s' bs' (drop_shown b bs ts) short
      (subst
        (λ r.
          is_some r.connecting_bt ≡ true
          → IsRow r.connecting_bt s.buttons s.next_button r.buttons bs')
        (sym known) waits)
      (subst (λ r. is_some r.connecting_bt ≡ false → r.buttons ≡ bs') (sym known) whole)
      (Shows-drop s.buttons s.next_button b bs ts rep.shows)
      (subst (λ r. WasOpened r.selected_bt s.buttons s.next_button) (sym known) rep.opened)
      (subst (λ r. InPage r.buttons_panel s'.ui) (sym known) page') one'

All-drop {ℓ} : (P : ℕ → Type ℓ) (b : ℕ) (bs ts : List ℕ) → All P ts → All P (drop_shown b bs ts)
unfolding drop_shown
All-drop P b [] ts h = h
All-drop P b (c ∷ bs) [] h = tt
All-drop P b (c ∷ bs) (t ∷ ts) h = elim (Bool-cases (c == b)) [
  | inl gone ↦ rw gone h.1
  | inr kept ↦ rw kept (h.0, All-drop P b bs ts h.1)
]

abbrev Removed : ℕ → ℕ → List ℕ → List ℕ → Outcome (Unit {0}) × App → Type 0
Removed h l bs ts (r, s') =
    (r ≡ ok tt)
    × Represents s' h bs ts
    × (is_some (s'.hosts h).connecting_bt ≡ true)
    × ((s'.hosts h).selected_bt ≡ some l)
    × IsPlaced s' h

-- The terminal has a node of the page that is not in the panel of the host.
abbrev pub HasOwnNode : App → ℕ → ℕ → Type 0
HasOwnNode s h t =
    (n : ℕ) × ((s.ui.terminals t).node ≡ some n)
    × (n < s.ui.dom.fresh)
    × (mem n (panel_children s h) ≡ false)

-- `removeTerminalButton` of a button `b` that shows a terminal, where others are left and `l` is the
-- last of them: if the button is in the panel and not in the view, the panel holds the nodes of the row,
-- in which `b` shares its node with no other button, and none of the view's, the view shows its current
-- terminal, and the terminals have nodes of the page outside of the panel, the call returns. Then the
-- host shows the other terminals in their order, a button waits, `l` is selected, and the panel holds
-- just the nodes of the row that is left and of the waiting button.
pub remove_terminal_button-Represents :
    (h b l : ℕ) (s : App) (bs ts xs : List ℕ)
    → Represents s h bs ts
    → mem b bs ≡ true
    → remove_first b bs ≡ xs ++ (l ∷ [])
    → has_child (s.hosts h).buttons_panel (s.buttons b).node s.ui.dom.edges ≡ true
    → mem (s.buttons b).node (displayed s.ui) ≡ false
    → All (HasOwnNode s h) ts
    → IsTidy h b s
    → InPage (s.hosts h).buttons_panel s.ui
    → IsOneShown s.ui
    → s.listeners ≡ host_list ∷ terminal_manager ∷ []
    → let (r, s') = remove_terminal_button h b s in
      (r ≡ ok tt)
      × Represents s' h (remove_first b bs) (drop_shown b bs ts)
      × (is_some (s'.hosts h).connecting_bt ≡ true)
      × ((s'.hosts h).selected_bt ≡ some l)
      × IsPlaced s' h
unfolding remove_terminal_button
remove_terminal_button-Represents h b l s bs ts xs rep m last child out nodes tidy page one ls =
    let s1 = after_unlink h b s in
    let ts' = drop_shown b bs ts in
    let readied = unlink_ensure h b s bs ts rep m out page one in
    let s2 = (ensure_waiting h s1).1 in
    let (done, rep', _, terms, ls', _, cur, one') = readied in
    let (short, _, _) =
      IsRow-drop (s.hosts h).connecting_bt s.buttons s.next_button b (s.hosts h).buttons bs m
        rep.row in
    let nodes' : All (HasNode s2.ui) ts' =
      subst (λ f. All (λ t. (n : ℕ) × ((f t).node ≡ some n)) ts') (sym terms)
        (All-drop (HasNode s.ui) b bs ts
          (All-mono (HasOwnNode s h) (HasNode s.ui) ts (λ t (n, e, _, _). (n, e)) nodes)) in
    let q = unlink_ensure-Places h b s bs ts rep m tidy in
    let free : All (HasFreeNode s2 h) ts' = All-drop (HasFreeNode s2 h) b bs ts (
      All-mono (HasOwnNode s h) (HasFreeNode s2 h) ts
        (λ t (n, e, lt, away). (n, ap (λ f. (f t).node) terms ∙ e, q.apart n lt away)) nodes) in
    let apart : IsApart (panel_children s2 h) s2.ui.terminals s2.ui.current =
      subst (λ f. IsApart (panel_children s2 h) f s2.ui.current) (sym terms)
        (subst (IsApart (panel_children s2 h) s.ui.terminals) (sym cur) (
          shown-IsApart s.ui.current s.ui (panel_children s h) (panel_children s2 h) s.ui.dom.fresh
            one page.2 tidy.shown q.apart)) in
    let placed : IsPlaced (select_last h s2).1 h =
      select_last-IsPlaced h l s2 xs ts' (subst (λ bs'. Represents s2 h bs' ts') last rep')
        (subst (λ bs'. length bs' ≤ 3) last short) free (λ e. page.1 (sym q.view ∙ sym e ∙ q.panel))
        apart one' (ls' ∙ ls) q.placed in
    let selected : Selects h l (remove_first b bs) ts' s2 (select_last h s2) =
      subst (λ bs'. Selects h l bs' ts' s2 (select_last h s2)) (sym last)
        (select_last-Represents h l s2 xs ts' (subst (λ bs'. Represents s2 h bs' ts') last rep')
          (subst (λ bs'. length bs' ≤ 3) last short) nodes' one' (ls' ∙ ls)) in
    let (done', rep'', sel, conn) = selected in
    let waiting =
      waiting_of_short ((select_last h s2).1.hosts h).connecting_bt (select_last h s2).1.buttons
        (select_last h s2).1.next_button ((select_last h s2).1.hosts h).buttons (remove_first b bs)
        short rep''.row in
    let ensured : ensure_waiting h s1 ≡ (ok tt, s2) = ap (λ r. (r, s2)) done in
    let ran =
      >>=-ok (unlink h b) (λ _. ensure_waiting h >> select_last h) (unlink_lem h b s child)
      ∙ >>=-ok (ensure_waiting h) (λ _. select_last h) ensured in
    subst (Removed h l (remove_first b bs) ts') (sym ran) (done', rep'', waiting, sel, placed)

All-unit : (ts : List ℕ) → All (λ t. Unit {0}) ts
All-unit [] = tt
All-unit (t ∷ ts) = (tt, All-unit ts)

toggled_ne : (state : ButtonState) → is_open state ≡ true → state ≢ toggled state
toggled_ne ButtonState.terminal h e = cc
toggled_ne file_list h e = cc
toggled_ne idle h e = cc
toggled_ne activating h e = cc

-- Where a button of the host waits, the selected button `l` is the last that shows a terminal once
-- `b` is gone, and the node of `b` is in the panel, `removeTerminalButton` of `b` returns and also
-- changes the view of the terminal of `l`: from the terminal to its files, or back, by the state of the
-- button and, where their parts are different nodes of the page, on the page. The terminal on display is
-- the same.
pub remove_terminal_button_toggles :
    (h b l c t : ℕ) (s : App) (bs ts xs : List ℕ)
    → Represents s h bs ts
    → (s.hosts h).connecting_bt ≡ some c
    → (s.hosts h).selected_bt ≡ some l
    → mem b bs ≡ true
    → remove_first b bs ≡ xs ++ (l ∷ [])
    → has_child (s.hosts h).buttons_panel (s.buttons b).node s.ui.dom.edges ≡ true
    → (s.buttons l).terminal ≡ some t
    → AreApart (s.ui.terminals t) (s.buttons l)
    → let (r, s') = remove_terminal_button h b s in
      (r ≡ ok tt)
      × ((s'.buttons l).state ≡ toggled (s.buttons l).state)
      × ((s.buttons l).state ≢ (s'.buttons l).state)
      × ShowsMode (shows_files (s'.buttons l).state) t s'.ui
      × (s'.ui.current ≡ s.ui.current)
unfolding remove_terminal_button ensure_waiting
remove_terminal_button_toggles h b l c t s bs ts xs rep conn sel m last child mine apart =
    let s1 = after_unlink h b s in
    let ts' = drop_shown b bs ts in
    let host = s.hosts h in
    let known : s1.hosts h ≡ unlinked_host b host = update_self s.hosts h (unlinked_host b host) in
    let (short, waits, _) =
      IsRow-drop host.connecting_bt s.buttons s.next_button b host.buttons bs m rep.row in
    let rep' : Represents s1 h (xs ++ (l ∷ [])) ts' =
      subst (λ bs'. Represents s1 h bs' ts') last
        (represents s1 h (unlinked_host b host) (remove_first b bs) ts' known
          (Shows-drop s.buttons s.next_button b bs ts rep.shows) (waits (ap is_some conn))
          rep.opened) in
    let short' = subst (λ bs'. length bs' ≤ 3) last short in
    let (_, shown, _, _) =
      last-IsLive (λ t. Unit {0}) s.buttons s.next_button l xs ts' rep'.shows (All-unit ts') in
    let marked : same_ref (s1.hosts h).selected_bt (some l) ≡ true =
      ap (λ o. same_ref o (some l)) (ap (λ r. r.selected_bt) known ∙ sel) ∙ ground arith in
    let live : IsLive (s.buttons l) t = (mine, shown.1) in
    let (kept, flips, cur, mode) =
      select_same-Represents h l t s1 (xs ++ (l ∷ [])) ts' rep' live marked in
    let view =
      subst (λ state. ShowsMode (shows_files state) t (select_term_bt h l s1).1.ui) (sym flips)
        (mode apart) in
    let ensured : ensure_waiting h s1 ≡ (ok tt, s1) =
      ap (λ o. add_waiting_unless h o s1) (ap (λ r. r.connecting_bt) known ∙ conn) in
    let ran =
      >>=-ok (unlink h b) (λ _. ensure_waiting h >> select_last h) (unlink_lem h b s child)
      ∙ >>=-ok (ensure_waiting h) (λ _. select_last h) {s = s1} ensured
      ∙ select_last_lem h l s1 xs ts' rep' short' in
    rw ran
      (kept.0, flips, (λ same. toggled_ne (s.buttons l).state live.1 (same ∙ flips)), view, cur)
