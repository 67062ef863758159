-- ===== src/RemoteHost/Selection.antt =====
-- `selectTermBt` of webapp/remote.host.js on a button that shows a terminal, selected or not, and the
-- row of the host.
use html_terminal.Prelude.{
  ℕ, ◌<◌, ◌≡◌, refl, true, false, Option, none, some, List, [], ◌∷◌, update, update_self, is_some,
  same_ref, arith, ok, Outcome, ◌∙◌, sym, ap, subst, Bool, ◌≢◌, if◌then◌else◌,
}
use html_terminal.Dom.{flex, hidden}
use html_terminal.Ui.{Ui, TerminalNode}
use html_terminal.App.{
  App, TermButton, ButtonState, terminal, file_list, idle, activating, host_list, terminal_manager,
}
use html_terminal.TermButton.{set_state}
use html_terminal.TerminalNode.{switch_view}
use html_terminal.TerminalView.Display.{IsOneShown}
use html_terminal.RemoteHost.Select.{select_term_bt, select_other, toggle_view}
use html_terminal.RemoteHost.Steps.{
  after_select, select_other_lem, marked, unselected, with_selected,
}
use html_terminal.RemoteHost.Row.{represents, is_open, IsLive, Shows, IsRow, WasOpened, Represents}

-- The state that `selectTermBt` gives to the button that is selected.
abbrev pub toggled : ButtonState → ButtonState
toggled ButtonState.terminal = file_list
toggled file_list = terminal
toggled state = state

-- A button in another state.
abbrev pub in_state : ButtonState → TermButton → TermButton
in_state state b = record b { state = state; activated = true }

pub toggle_view_lem :
    (b t : ℕ) (state : ButtonState) (s : App)
    → is_open state ≡ true
    → (u : Ui) × (toggle_view b state (some t) s ≡ (
      ok tt,
      record s { ui = u; buttons = update s.buttons b (in_state (toggled state) (s.buttons b)) },
    ))
      × (u.current ≡ s.ui.current)
      × (u.dom.edges ≡ s.ui.dom.edges)
unfolding toggle_view switch_view set_state
toggle_view_lem b t ButtonState.terminal s h = (_, refl, refl, refl)
toggle_view_lem b t file_list s h = (_, refl, refl, refl)
toggle_view_lem b t idle s h = cc
toggle_view_lem b t activating s h = cc

-- Whether a button in that state shows the files.
abbrev pub shows_files : ButtonState → Bool
shows_files file_list = true
shows_files _ = false

-- The terminal shows its files, and not what it wrote, or the other way round.
abbrev pub ShowsMode : Bool → ℕ → Ui → Type 0
ShowsMode files t u =
    let terminal = u.terminals t in
    (terminal.file_mode_activated ≡ files)
    × (u.dom.display terminal.terminal_container ≡ (if files then hidden else flex))
    × (u.dom.display terminal.file_mode_node.node ≡ (if files then flex else hidden))

abbrev IsOutside : ℕ → TermButton → Type 0
IsOutside n b = (n ≢ b.add_button_view) × (n ≢ b.promt_button_view) × (n ≢ b.files_button_view)

-- The two parts of a terminal are two nodes, and none of the button's.
abbrev pub AreApart : TerminalNode → TermButton → Type 0
AreApart t b =
    (t.terminal_container ≢ t.file_mode_node.node)
    × IsOutside t.terminal_container b
    × IsOutside t.file_mode_node.node b

toggle_view-ShowsMode :
    (b t : ℕ) (state : ButtonState) (s : App)
    → is_open state ≡ true
    → AreApart (s.ui.terminals t) (s.buttons b)
    → ShowsMode (shows_files (toggled state)) t (toggle_view b state (some t) s).1.ui
unfolding toggle_view switch_view set_state
toggle_view-ShowsMode b t ButtonState.terminal s h apart = ground (arith, apart)
toggle_view-ShowsMode b t file_list s h apart = ground (arith, apart)
toggle_view-ShowsMode b t idle s h apart = cc
toggle_view-ShowsMode b t activating s h apart = cc

toggled-is_open : (state : ButtonState) → is_open state ≡ true → is_open (toggled state) ≡ true
toggled-is_open ButtonState.terminal h = refl
toggled-is_open file_list h = refl
toggled-is_open idle h = cc
toggled-is_open activating h = cc

-- Buttons with the terminals of others, and open where those are.
abbrev IsLike : (ℕ → TermButton) → (ℕ → TermButton) → Type 0
IsLike g f =
    (x : ℕ) → ((g x).terminal ≡ (f x).terminal) × (is_open (g x).state ≡ is_open (f x).state)

marked-IsLike : (o : Option ℕ) (l : ℕ) (f : ℕ → TermButton) → IsLike (marked l (unselected o f)) f
marked-IsLike none l f x = ground arith
marked-IsLike (some o) l f x = ground arith

in_state-IsLike :
    (l : ℕ) (state : ButtonState) (f : ℕ → TermButton)
    → is_open state ≡ is_open (f l).state
    → IsLike (update f l (in_state state (f l))) f
in_state-IsLike l state f h x = ground arith

module _ (f g : ℕ → TermButton) (k : ℕ) (like : IsLike g f) where
  Shows-like : (bs ts : List ℕ) → Shows f k bs ts → Shows g k bs ts
  Shows-like [] [] h = tt
  Shows-like [] (t ∷ ts) h = absurd h
  Shows-like (b ∷ bs) [] h = absurd h
  Shows-like (b ∷ bs) (t ∷ ts) (live, lt, h) =
      (((like b).0 ∙ live.0, (like b).1 ∙ live.1), lt, Shows-like bs ts h)

  IsRow-like : (o : Option ℕ) (row bs : List ℕ) → IsRow o f k row bs → IsRow o g k row bs
  IsRow-like none row bs h = h
  IsRow-like (some c) row bs (e, short, (w, shut), lt) =
      (e, short, ((like c).0 ∙ w, (like c).1 ∙ shut), lt)

  WasOpened-like : (o : Option ℕ) → WasOpened o f k → WasOpened o g k
  WasOpened-like none h = tt
  WasOpened-like (some o) (h, lt) = (ap is_some (like o).0 ∙ h, lt)

-- What a call keeps: the terminals that the host shows, its waiting button, and which button is
-- selected, or else the selection of `l`.
abbrev pub Selects : ℕ → ℕ → List ℕ → List ℕ → App → Outcome (Unit {0}) × App → Type 0
Selects h l bs ts s (r, s') =
    (r ≡ ok tt)
    × Represents s' h bs ts
    × ((s'.hosts h).selected_bt ≡ some l)
    × ((s'.hosts h).connecting_bt ≡ (s.hosts h).connecting_bt)

pub select_term_bt_same :
    (h l : ℕ) (s : App)
    → same_ref (s.hosts h).selected_bt (some l) ≡ true
    → select_term_bt h l s ≡ toggle_view l (s.buttons l).state (s.buttons l).terminal s
unfolding select_term_bt
select_term_bt_same h l s e = ground (arith, e)

same_ref-eq : (o : Option ℕ) (l : ℕ) → same_ref o (some l) ≡ true → o ≡ some l
same_ref-eq none l h = cc
same_ref-eq (some o) l h = ground arith

-- A click on the selected button, which shows a terminal, returns: the button changes from the
-- terminal to its files or back, stays selected, and the host shows the same terminals by the same
-- buttons; the terminal on display is the same.
pub select_same-Represents :
    (h l t : ℕ) (s : App) (bs ts : List ℕ)
    → Represents s h bs ts
    → IsLive (s.buttons l) t
    → same_ref (s.hosts h).selected_bt (some l) ≡ true
    → Selects h l bs ts s (select_term_bt h l s)
      × (((select_term_bt h l s).1.buttons l).state ≡ toggled (s.buttons l).state)
      × ((select_term_bt h l s).1.ui.current ≡ s.ui.current)
      × (AreApart (s.ui.terminals t) (s.buttons l)
          → ShowsMode (shows_files (toggled (s.buttons l).state)) t (select_term_bt h l s).1.ui)
select_same-Represents h l t s bs ts rep live same =
    let state = (s.buttons l).state in
    let (u, ran, cur, _) = toggle_view_lem l t state s live.1 in
    let g = update s.buttons l (in_state (toggled state) (s.buttons l)) in
    let k = s.next_button in
    let like =
      in_state-IsLike l (toggled state) s.buttons (toggled-is_open state live.1 ∙ sym live.1) in
    let s' : App = record s { ui = u; buttons = g } in
    let rep' : Represents s' h bs ts = record {
      shows = Shows-like s.buttons g k like bs ts rep.shows;
      row = IsRow-like s.buttons g k like (s.hosts h).connecting_bt (s.hosts h).buttons bs rep.row;
      opened = WasOpened-like s.buttons g k like (s.hosts h).selected_bt rep.opened;
    } in
    let run : select_term_bt h l s ≡ (ok tt, s') =
      select_term_bt_same h l s same ∙ ap (λ o. toggle_view l state o s) live.0 ∙ ran in
    let mode : AreApart (s.ui.terminals t) (s.buttons l)
        → ShowsMode (shows_files (toggled state)) t u =
      λ apart.
        subst (λ o. ShowsMode (shows_files (toggled state)) t o.1.ui) ran
          (toggle_view-ShowsMode l t state s live.1 apart) in
    rw run (
      (refl, rep', same_ref-eq (s.hosts h).selected_bt l same, refl),
      ap (λ b. b.state) (update_self s.buttons l _),
      cur,
      mode,
    )

select_term_bt_other :
    (h b : ℕ) (s : App)
    → same_ref (s.hosts h).selected_bt (some b) ≡ false
    → select_term_bt h b s ≡ select_other h b s
unfolding select_term_bt
select_term_bt_other h b s e = ground (arith, e)

-- A click on a button that shows a terminal with a node and is not selected, where the view shows
-- its current terminal, returns: the button is selected, the host shows the same terminals by the
-- same buttons, and the view shows the button's terminal alone.
pub select_other-Represents :
    (h l t n : ℕ) (s : App) (bs ts : List ℕ)
    → Represents s h bs ts
    → IsLive (s.buttons l) t
    → l < s.next_button
    → (s.ui.terminals t).node ≡ some n
    → IsOneShown s.ui
    → s.listeners ≡ host_list ∷ terminal_manager ∷ []
    → same_ref (s.hosts h).selected_bt (some l) ≡ false
    → Selects h l bs ts s (select_term_bt h l s)
      × ((select_term_bt h l s).1.ui.current ≡ some t)
      × IsOneShown (select_term_bt h l s).1.ui
select_other-Represents h l t n s bs ts rep live lt node shown ls other =
    let o = (s.hosts h).selected_bt in
    let g = marked l (unselected o s.buttons) in
    let k = s.next_button in
    let like = marked-IsLike o l s.buttons in
    let (u, ran, one, cur, _, _, _, _, _) = select_other_lem h l t n s live.0 node shown ls in
    let s' = after_select h l t u s in
    let host = with_selected l (some t) (s.hosts h) in
    let known : s'.hosts h ≡ host = update_self s.hosts h host in
    let mine : WasOpened (some l) g k = (ap is_some ((like l).0 ∙ live.0), lt) in
    let rep' =
      represents s' h host bs ts known (Shows-like s.buttons g k like bs ts rep.shows)
        (IsRow-like s.buttons g k like (s.hosts h).connecting_bt (s.hosts h).buttons bs rep.row)
        mine in
    let run : select_term_bt h l s ≡ (ok tt, s') = select_term_bt_other h l s other ∙ ran in
    rw run ((refl, rep', ap (λ r. r.selected_bt) known, ap (λ r. r.connecting_bt) known), cur, one)
