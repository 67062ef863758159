-- ===== src/TerminalView/Removal.antt =====
-- What `removeTerminal` does to the display, by whether it removes the terminal that is shown.
use html_terminal.Prelude.{
  ℕ, ◌≡◌, ◌≢◌, refl, true, [], ◌∷◌, none, some, ok, arith, lookup, erase, update, ◌>>◌, >>=-ok,
  lookup-erase_ne, lookup-erase_self, HasUniqueKeys, subst, ◌∙◌, Option-cases, inl, inr,
}
use html_terminal.Dom.{
  Dom, Edges, has_child, detach, empty_node, parent_of, remove_child, append_child, set_inner,
}
use html_terminal.Dom.Tree.{without, children_of-detach, children_of-empty_node, children_of-append}
use html_terminal.View.{delete_node}
use html_terminal.Ui.{Ui}
use html_terminal.TerminalView.{remove_terminal, set_terminal}
use html_terminal.TerminalView.Display.{displayed, IsOneShown, IsShowing}

has_child-parent_of : (p n : ℕ) (es : Edges) → parent_of n es ≡ some p → has_child p n es ≡ true
unfolding has_child parent_of
has_child-parent_of p n [] h = cc
has_child-parent_of p n ((q, d) ∷ es) h = ground (arith, has_child-parent_of p n es)

detach-no_parent : (n : ℕ) (es : Edges) → parent_of n es ≡ none → detach n es ≡ es
unfolding detach parent_of
detach-no_parent n [] h = refl
detach-no_parent n ((q, d) ∷ es) h = ground (arith, detach-no_parent n es)

-- `deleteNode` always returns for a view with a node: that node loses its children and its place.
pub delete_node_lem :
    (n : ℕ) (d : Dom)
    → delete_node (some n) d
      ≡ (ok tt, record d { edges = detach n (empty_node n d.edges); inner = update d.inner n [] })
unfolding delete_node set_inner remove_child
delete_node_lem n d = elim (Option-cases (parent_of n (empty_node n d.edges))) [
  | inl alone ↦ ground (arith, detach-no_parent n (empty_node n d.edges))
  | inr (p, e) ↦ ground (arith, has_child-parent_of p n (empty_node n d.edges) e)
]

-- The state after `removeTerminal(id)`, where `id` is that of the terminal `t` with the node `n`.
abbrev pub after_removal : ℕ → ℕ → ℕ → Ui → Ui
after_removal id t n u = record u {
  dom = record u.dom {
    edges = detach n (empty_node n u.dom.edges);
    inner = update u.dom.inner n [];
  };
  terminals = update u.terminals t (record (u.terminals t) { node = none });
  known = erase id u.known;
  current = none;
}

pub remove_terminal_lem :
    (id t n : ℕ) (u : Ui)
    → lookup id u.known ≡ some t
    → (u.terminals t).node ≡ some n
    → remove_terminal id u ≡ (ok tt, after_removal id t n u)
unfolding remove_terminal
remove_terminal_lem id t n u k e = ground (arith, delete_node_lem n u.dom)

displayed-after_removal :
    (id t n : ℕ) (u : Ui)
    → u.view_node ≢ n
    → displayed (after_removal id t n u) ≡ without n (displayed u)
displayed-after_removal id t n u ne = rw (children_of-detach, children_of-empty_node) (ground arith)

without-ne : (n m : ℕ) → m ≢ n → without n (m ∷ []) ≡ m ∷ []
unfolding without
without-ne n m h = ground arith

without_self : (n : ℕ) → without n (n ∷ []) ≡ []
unfolding without
without_self n = ground arith

-- Where the view shows its current terminal, ids are unique and the terminal's node is not the
-- view's, removing the terminal that is shown returns and keeps the display in step: the view is
-- empty; the id is unknown afterwards, and every other id leads to what it did before.
pub remove_terminal_of_current :
    (id t n j : ℕ) (u : Ui)
    → IsOneShown u
    → HasUniqueKeys u.known
    → u.current ≡ some t
    → lookup id u.known ≡ some t
    → (u.terminals t).node ≡ some n
    → u.view_node ≢ n
    → j ≢ id
    → let (r, u') = remove_terminal id u in
      (r ≡ ok tt)
      × IsOneShown u'
      × (displayed u' ≡ [])
      × (lookup id u'.known ≡ none)
      × (lookup j u'.known ≡ lookup j u.known)
remove_terminal_of_current id t n j u h uniq c k e ne other =
    let (m, node, d) = (subst (λ x. IsShowing x u) c h) in
    let same : m ≡ n = cc in
    let empty : displayed (after_removal id t n u) ≡ [] =
      displayed-after_removal id t n u ne ∙ rw (d, same) (without_self n) in
    rw (remove_terminal_lem id t n u k e)
      (refl, empty, empty, lookup-erase_self id u.known uniq, lookup-erase_ne j id u.known other)

-- Where the view shows its current terminal, removing another one, whose node is neither the
-- view's nor the one shown, returns and loses track of the one that is shown: its node stays in the
-- view, which has no current terminal, so the display is out of step.
pub remove_terminal_of_other :
    (id t n c m : ℕ) (u : Ui)
    → IsOneShown u
    → u.current ≡ some c
    → (u.terminals c).node ≡ some m
    → lookup id u.known ≡ some t
    → (u.terminals t).node ≡ some n
    → m ≢ n
    → u.view_node ≢ n
    → let (r, u') = remove_terminal id u in
      (r ≡ ok tt) × (u'.current ≡ none) × (displayed u' ≡ m ∷ []) × ¬ (IsOneShown u')
remove_terminal_of_other id t n c m u h cur em k e diff ne =
    let (m', node, d) = (subst (λ x. IsShowing x u) cur h) in
    let same : m' ≡ m = cc in
    let still : displayed (after_removal id t n u) ≡ m ∷ [] =
      displayed-after_removal id t n u ne ∙ rw (d, same) (without-ne n m diff) in
    rw (remove_terminal_lem id t n u k e) (refl, refl, still, λ shown. cc (shown, still))

set_terminal_beside :
    (t n m : ℕ) (u : Ui)
    → u.current ≡ none
    → displayed u ≡ m ∷ []
    → (u.terminals t).node ≡ some n
    → m ≢ n
    → let (r, u') = set_terminal (some t) u in (r ≡ ok tt) × (displayed u' ≡ m ∷ n ∷ [])
unfolding set_terminal append_child
set_terminal_beside t n m u c d e diff = ground (
  arith,
  children_of-append u.view_node u.view_node n (detach n u.dom.edges),
  children_of-detach u.view_node n u.dom.edges,
  without-ne n m diff,
)

-- Where the view shows its current terminal `c`, another one is removed and then `setTerminal` is
-- given a terminal that is neither of them (the nodes are distinct), both calls return, and the
-- view holds two nodes: that of `c` and that of the terminal set.
pub two_terminals_shown :
    (id t n c m t' n' : ℕ) (u : Ui)
    → IsOneShown u
    → u.current ≡ some c
    → (u.terminals c).node ≡ some m
    → lookup id u.known ≡ some t
    → (u.terminals t).node ≡ some n
    → (u.terminals t').node ≡ some n'
    → m ≢ n
    → m ≢ n'
    → t ≢ t'
    → u.view_node ≢ n
    → let (r, u') = (remove_terminal id >> set_terminal (some t')) u in
      (r ≡ ok tt) × (displayed u' ≡ m ∷ n' ∷ [])
two_terminals_shown id t n c m t' n' u h cur em k e e' diff diff' other ne =
    let gone = remove_terminal_of_other id t n c m u h cur em k e diff ne in
    let u' = after_removal id t n u in
    let still : displayed u' ≡ m ∷ [] = rw (remove_terminal_lem id t n u k e) at gone.2 in
    rw
      (>>=-ok (remove_terminal id) (λ _. set_terminal (some t')) (remove_terminal_lem id t n u k e))
      (set_terminal_beside t' n' m u' refl still (ground arith) diff')
