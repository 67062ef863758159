-- ===== src/RemoteHost/Steps.antt =====
-- The states that a selection of `class RemoteHost` leaves.
use html_terminal.Prelude.{
  ℕ, ◌≡◌, refl, true, false, Option, none, some, [], ◌∷◌, update, ok, arith, >>=-ok, ◌∙◌, ◌≢◌, ap,
  subst, sym,
}
use html_terminal.Dom.{Dom, flex, children_of}
use html_terminal.Dom.Tree.{mem}
use html_terminal.Ui.{Ui}
use html_terminal.App.{App, TermButton, RemoteHost, host_list, terminal_manager, remote_host}
use html_terminal.TermButton.{on_selected, on_deselected}
use html_terminal.TerminalView.Display.{
  IsApart, children_of-after_set, IsOneShown, after_set, set_terminal_lem, after_set-IsOneShown,
  IsShowing-page, displayed,
}
use html_terminal.RemoteHost.Calls.{push_terminal_selected}
use html_terminal.RemoteHost.Select.{select_other, choose, deselect}

abbrev pub unselected : Option ℕ → (ℕ → TermButton) → ℕ → TermButton
unselected none f = f
unselected (some o) f = update f o (record (f o) { selected = false })

abbrev pub marked : ℕ → (ℕ → TermButton) → ℕ → TermButton
marked b f = update f b (record (f b) { selected = true })

deselect_lem :
    (o : Option ℕ) (s : App)
    → (d : Dom) × (deselect o s
        ≡ (ok tt, record s { ui = record s.ui { dom = d }; buttons = unselected o s.buttons }))
      × (d.edges ≡ s.ui.dom.edges)
      × (d.fresh ≡ s.ui.dom.fresh)
unfolding on_deselected
deselect_lem none s = (s.ui.dom, refl, refl, refl)
deselect_lem (some o) s = (_, refl, refl, refl)

unselected-terminal :
    (o : Option ℕ) (f : ℕ → TermButton) (b : ℕ) → (unselected o f b).terminal ≡ (f b).terminal
unselected-terminal none f b = refl
unselected-terminal (some o) f b = ground arith

-- The push of a selection returns, and sets the terminal on display.
push_terminal_selected_lem :
    (h t n : ℕ) (s : App)
    → (s.ui.terminals t).node ≡ some n
    → IsOneShown s.ui
    → s.listeners ≡ host_list ∷ terminal_manager ∷ []
    → push_terminal_selected (remote_host h) (some t) s
      ≡ (ok tt, record s { ui = after_set t n s.ui })
unfolding push_terminal_selected
push_terminal_selected_lem h t n s en shown ls = ground (arith, set_terminal_lem t n s.ui shown en)

-- The host after the selection of `b`.
abbrev pub with_selected : ℕ → Option ℕ → RemoteHost → RemoteHost
with_selected b term host = record host { selected_bt = some b; active_terminal = term }

-- The state after the selection of `b`, but for the page and the view.
abbrev pub after_select : ℕ → ℕ → ℕ → Ui → App → App
after_select h b t u s = record s {
  ui = u;
  hosts = update s.hosts h (with_selected b (some t) (s.hosts h));
  buttons = marked b (unselected (s.hosts h).selected_bt s.buttons);
}

-- The page once `button` is marked as selected.
abbrev selected_page : TermButton → Ui → Ui
selected_page button u = record u {
  dom = record u.dom {
    display = update u.dom.display button.circle_box flex;
    classes = update u.dom.classes button.promt_line ("term-box-prompt-line" ∷ "selected" ∷ []);
  };
}

choose_lem :
    (h b t n : ℕ) (host : RemoteHost) (s : App)
    → (s.buttons b).terminal ≡ some t
    → (s.ui.terminals t).node ≡ some n
    → IsOneShown s.ui
    → s.listeners ≡ host_list ∷ terminal_manager ∷ []
    → (u : Ui) × (choose h b host s ≡ (
      ok tt,
      record s {
        ui = u;
        hosts = update s.hosts h (with_selected b (some t) host);
        buttons = marked b s.buttons;
      },
    ))
      × IsOneShown u
      × (u.current ≡ some t)
      × (u.terminals ≡ s.ui.terminals)
      × (u.view_node ≡ s.ui.view_node)
      × (u.dom.fresh ≡ s.ui.dom.fresh)
      × (displayed u ≡ n ∷ [])
      × ((p : ℕ)
          → p ≢ s.ui.view_node
          → IsApart (children_of p s.ui.dom.edges) s.ui.terminals s.ui.current
          → mem n (children_of p s.ui.dom.edges) ≡ false
          → children_of p u.dom.edges ≡ children_of p s.ui.dom.edges)
unfolding choose on_selected
choose_lem h b t n host s e en shown ls =
    let u = selected_page (s.buttons b) s.ui in
    let shown' : IsOneShown u = IsShowing-page s.ui.current s.ui u.dom refl shown in
    let d = after_set-IsOneShown t n u shown' en in
    rw e (
      after_set t n u,
      push_terminal_selected_lem h t n _ en shown' ls,
      (n, en, d),
      refl,
      refl,
      refl,
      refl,
      d,
      λ p. children_of-after_set p t n u,
    )

-- A selection of a button that is not selected, whose terminal has a node, returns.
pub select_other_lem :
    (h b t n : ℕ) (s : App)
    → (s.buttons b).terminal ≡ some t
    → (s.ui.terminals t).node ≡ some n
    → IsOneShown s.ui
    → s.listeners ≡ host_list ∷ terminal_manager ∷ []
    → (u : Ui) × (select_other h b s ≡ (ok tt, after_select h b t u s))
      × IsOneShown u
      × (u.current ≡ some t)
      × (u.terminals ≡ s.ui.terminals)
      × (u.view_node ≡ s.ui.view_node)
      × (u.dom.fresh ≡ s.ui.dom.fresh)
      × (displayed u ≡ n ∷ [])
      × ((p : ℕ)
          → p ≢ s.ui.view_node
          → IsApart (children_of p s.ui.dom.edges) s.ui.terminals s.ui.current
          → mem n (children_of p s.ui.dom.edges) ≡ false
          → children_of p u.dom.edges ≡ children_of p s.ui.dom.edges)
unfolding select_other
select_other_lem h b t n s e en shown ls =
    let o = (s.hosts h).selected_bt in
    let (d, gone, same, same_fresh) = deselect_lem o s in
    let s' : App = record s { ui = record s.ui { dom = d }; buttons = unselected o s.buttons } in
    let (u, chosen, shown', cur, terms, view, fresh, disp, keeps) =
      choose_lem h b t n (s.hosts h) s' (unselected-terminal o s.buttons b ∙ e) en
        (IsShowing-page s.ui.current s.ui d same shown) ls in
    (
      u,
      >>=-ok (deselect o) (λ _. choose h b (s.hosts h)) gone ∙ chosen,
      shown',
      cur,
      terms,
      view,
      fresh ∙ same_fresh,
      disp,
      λ p ne apart out.
          let there : children_of p d.edges ≡ children_of p s.ui.dom.edges =
            ap (children_of p) same in
          keeps p ne (subst (λ xs. IsApart xs s.ui.terminals s.ui.current) (sym there) apart)
            (ap (mem n) there ∙ out)
          ∙ there,
    )
