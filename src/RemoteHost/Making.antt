-- ===== src/RemoteHost/Making.antt =====
-- The button and the page that `addTermBt` of webapp/remote.host.js makes.
use html_terminal.Dom.Tree.{
  attach_all, children_of-attach_all, children_of-append, children_of-detach, without,
  without-not_mem, mem-below,
}
use html_terminal.Prelude.{
  All, ap, ◌≢◌, ◌≤◌, ◌<◌, update_self, ℕ, ◌+◌, ◌≡◌, refl, Option, List, [], ◌∷◌, ◌++◌, update, ok,
  arith, ◌==◌, if◌then◌else◌, >>=-ok, ◌∙◌,
}
use html_terminal.Dom.{Dom, children_of, detach, append_child}
use html_terminal.App.{App, TermButton, idle}
use html_terminal.TermButton.{create_button, new_button}
use html_terminal.RemoteHost.Create.{add_term_bt, place_bt}

-- The calls of `appendChild` in the making of a button whose first node is `n`.
abbrev button_tree : ℕ → List (ℕ × ℕ)
button_tree n =
    let prompt = n + 1 + 1 + 1 in
    let files = prompt + 1 + 1 in
    let node = files + 1 + 1 + 1 + 1 in
    let circle = node + 1 in
    (n, n + 1)
    ∷ (n, n + 1 + 1)
    ∷ (prompt, prompt + 1)
    ∷ (files, files + 1)
    ∷ (files, files + 1 + 1)
    ∷ (files, files + 1 + 1 + 1)
    ∷ (circle, circle + 1)
    ∷ (circle, circle + 1 + 1)
    ∷ (node, circle)
    ∷ (node, n)
    ∷ (node, prompt)
    ∷ (node, files)
    ∷ []

-- A new button is made, idle, for the terminal given, of new nodes.
create_button_lem :
    (h : ℕ) (term : Option ℕ) (d : Dom)
    → (b : TermButton) × (d' : Dom) × (create_button h term d ≡ (ok b, d'))
      × (b.state ≡ idle)
      × (b.terminal ≡ term)
      × (d'.edges ≡ attach_all (button_tree d.fresh) d.edges)
      × (d.fresh ≤ d'.fresh)
      × (d.fresh ≤ b.node)
      × (b.node < d'.fresh)
unfolding create_button
create_button_lem h term d = (_, _, refl, refl, refl, refl, omega arith, omega arith, omega arith)

-- The state after `addTermBt`, for the button and the page that it makes.
abbrev pub after_add : ℕ → TermButton → Dom → App → App
after_add h b d s = record s {
  ui = record s.ui { dom = d };
  buttons = update s.buttons s.next_button b;
  next_button = s.next_button + 1;
  hosts =
      update s.hosts h
        (record (s.hosts h) { buttons = (s.hosts h).buttons ++ (s.next_button ∷ []) });
}

abbrev after_new : TermButton → Dom → App → App
after_new b d s = record s {
  ui = record s.ui { dom = d };
  buttons = update s.buttons s.next_button b;
  next_button = s.next_button + 1;
}

new_button_lem :
    (h : ℕ) (term : Option ℕ) (s : App) {b : TermButton} {d : Dom}
    → create_button h term s.ui.dom ≡ (ok b, d)
    → new_button h term s ≡ (ok s.next_button, after_new b d s)
unfolding new_button
new_button_lem h term s e = ground (arith, e)

-- The place of a new button in the page.
abbrev placed : ℕ → ℕ → Dom → Dom
placed panel node d = record d { edges = detach node d.edges ++ ((panel, node) ∷ []) }

-- Of the page, what a view `p` that is no part of the new button sees.
abbrev pub KeepsChildren : ℕ → ℕ → Dom → Dom → Type 0
KeepsChildren panel p d d' =
    p < d.fresh
    → p ≢ panel
    → All (λ n. n < d.fresh) (children_of p d.edges)
    → children_of p d'.edges ≡ children_of p d.edges

placed-KeepsChildren :
    (panel p node : ℕ) (d d' : Dom)
    → d'.edges ≡ attach_all (button_tree d.fresh) d.edges
    → d.fresh ≤ node
    → KeepsChildren panel p d (placed panel node d')
placed-KeepsChildren panel p node d d' made new lt ne below =
    let n = d.fresh in
    let tree = children_of-attach_all p n (button_tree n) d.edges (omega arith) below in
    let same = ap (children_of p) made ∙ tree in
    children_of-attach_all p n ((panel, node) ∷ []) d'.edges (ne, new, tt) (rw same below) ∙ same

-- A node whose children are all nodes of the page.
abbrev pub IsMade : ℕ → Dom → Type 0
IsMade p d = (p < d.fresh) × All (λ n. n < d.fresh) (children_of p d.edges)

placed-children :
    (panel node : ℕ) (d d' : Dom)
    → d'.edges ≡ attach_all (button_tree d.fresh) d.edges
    → d.fresh ≤ node
    → IsMade panel d
    → children_of panel (placed panel node d').edges ≡ children_of panel d.edges ++ (node ∷ [])
placed-children panel node d d' made new (lt, below) =
    let n = d.fresh in
    let tree = children_of-attach_all panel n (button_tree n) d.edges (omega arith) below in
    let same = ap (children_of panel) made ∙ tree in
    let out = without-not_mem node (children_of panel d.edges) (mem-below n node _ below new) in
    children_of-append panel panel node (detach node d'.edges)
    ∙ ap (λ xs. xs ++ (if panel == panel then node ∷ [] else []))
        (children_of-detach panel node d'.edges ∙ ap (without node) same ∙ out)
    ∙ ap (λ xs. children_of panel d.edges ++ xs) (ground arith)

pub add_term_bt_lem :
    (h : ℕ) (term : Option ℕ) (s : App)
    → (b : TermButton) × (d : Dom) × (add_term_bt h term s ≡ (ok s.next_button, after_add h b d s))
      × (b.state ≡ idle)
      × (b.terminal ≡ term)
      × (s.ui.dom.fresh ≤ d.fresh)
      × ((p : ℕ) → KeepsChildren (s.hosts h).buttons_panel p s.ui.dom d)
      × (IsMade (s.hosts h).buttons_panel s.ui.dom
          → children_of (s.hosts h).buttons_panel d.edges
            ≡ children_of (s.hosts h).buttons_panel s.ui.dom.edges ++ (b.node ∷ []))
      × (s.ui.dom.fresh ≤ b.node)
      × (b.node < d.fresh)
unfolding add_term_bt place_bt append_child
add_term_bt_lem h term s =
    let (b, d, e, st, te, made, grows, new, within) = create_button_lem h term s.ui.dom in
    let panel = (s.hosts h).buttons_panel in
    let node = (update s.buttons s.next_button b s.next_button).node in
    let mine : node ≡ b.node = ap (λ x. x.node) (update_self s.buttons s.next_button b) in
    let new' : s.ui.dom.fresh ≤ node = rw (update_self s.buttons s.next_button b) new in
    (
      b,
      placed panel node d,
      >>=-ok (new_button h term) (place_bt h) (new_button_lem h term s e),
      st,
      te,
      grows,
      (λ p. placed-KeepsChildren panel p node s.ui.dom d made new'),
      (λ below.
          placed-children panel node s.ui.dom d made new' below
          ∙ ap (λ m. children_of panel s.ui.dom.edges ++ (m ∷ [])) mine),
      new,
      within,
    )
