-- ===== src/TerminalView/Display.antt =====
-- What `TerminalView` of webapp/terminal.view.js has on display, and what it takes to be shown.
use html_terminal.Prelude.{
  false, ap, subst, sym, All, ◌<◌, ◌≤◌, ◌∙◌, ℕ, ◌≡◌, ◌≢◌, refl, true, List, [], ◌∷◌, ◌++◌, Option,
  none, some, ok, arith,
}
use html_terminal.Dom.{Dom, Edges, has_child, detach, children_of, append_child, remove_child}
use html_terminal.Dom.Tree.{
  mem, without, has_child-eq-mem, without-not_mem, children_of-detach, children_of-append,
}
use html_terminal.View.{remove_obj}
use mathlib.Core.List.{append-nil}
use html_terminal.Ui.{Ui, TerminalNode, term_focused}
use html_terminal.TerminalView.{set_terminal, remove_current}

-- The nodes in the view.
abbrev pub displayed : Ui → List ℕ
displayed u = children_of u.view_node u.dom.edges

-- The view holds the node of the current terminal, and nothing else.
abbrev pub IsShowing : Option ℕ → Ui → Type 0
IsShowing none u = displayed u ≡ []
IsShowing (some t) u = (n : ℕ) × ((u.terminals t).node ≡ some n) × (displayed u ≡ n ∷ [])

abbrev pub IsOneShown : Ui → Type 0
IsOneShown u = IsShowing u.current u

-- A page after a change of its tree.
abbrev pub with_edges : Ui → Edges → Ui
with_edges u es = record u { dom = record u.dom { edges = es } }

abbrev detach_opt : Option ℕ → Edges → Edges
detach_opt none es = es
detach_opt (some n) es = detach n es

-- The tree without the current terminal.
abbrev pub leave_edges : Option ℕ → Ui → Edges
leave_edges none u = u.dom.edges
leave_edges (some t) u = detach_opt (u.terminals t).node u.dom.edges

-- A node that is the only child of the view can be removed from it.
only_child : (p n : ℕ) (es : Edges) → children_of p es ≡ n ∷ [] → has_child p n es ≡ true
unfolding mem
only_child p n es d = rw (has_child-eq-mem, d) (ground arith)

pub remove_current_lem :
    (c : Option ℕ) (u : Ui)
    → IsShowing c u
    → remove_current c u ≡ (ok tt, with_edges u (leave_edges c u))
unfolding remove_current remove_obj remove_child
remove_current_lem none u h = refl
remove_current_lem (some t) u (n, e, d) = ground (arith, only_child u.view_node n u.dom.edges d)

pub children_of-leave_edges :
    (c : Option ℕ) (u : Ui) → IsShowing c u → children_of u.view_node (leave_edges c u) ≡ []
unfolding without
children_of-leave_edges none u h = h
children_of-leave_edges (some t) u (n, e, d) = rw (e, children_of-detach, d) (ground arith)

-- The state after `setTerminal` of a terminal whose node is `n`.
abbrev pub after_set : ℕ → ℕ → Ui → Ui
after_set t n u = record u {
  dom = record u.dom { edges = detach n (leave_edges u.current u) ++ ((u.view_node, n) ∷ []) };
  current = some t;
  calls = term_focused t ∷ u.calls;
}

-- While the view shows its current terminal, `setTerminal` of a terminal with a node returns, and
-- only the tree, the current terminal and the focus change.
pub set_terminal_lem :
    (t n : ℕ) (u : Ui)
    → IsOneShown u
    → (u.terminals t).node ≡ some n
    → set_terminal (some t) u ≡ (ok tt, after_set t n u)
unfolding set_terminal append_child
set_terminal_lem t n u h e = ground (arith, remove_current_lem u.current u h)

-- `setTerminal` of null empties the view.
pub set_terminal_none_lem :
    (u : Ui)
    → IsOneShown u
    → set_terminal none u
      ≡ (ok tt, record (with_edges u (leave_edges u.current u)) { current = none })
unfolding set_terminal
set_terminal_none_lem u h = ground (arith, remove_current_lem u.current u h)

-- Then the view shows that terminal alone.
pub after_set-IsOneShown :
    (t n : ℕ) (u : Ui)
    → IsOneShown u
    → (u.terminals t).node ≡ some n
    → displayed (after_set t n u) ≡ n ∷ []
unfolding without
after_set-IsOneShown t n u h e =
    rw (children_of-append, children_of-detach, children_of-leave_edges u.current u h)
      (ground arith)

-- While the view shows its current terminal, `setTerminal` of a terminal that has a node returns;
-- then that terminal is the current one, its node is the view's only child, it has the focus, and
-- the terminals known are as before.
pub set_terminal-IsOneShown :
    (t n : ℕ) (u : Ui)
    → IsOneShown u
    → (u.terminals t).node ≡ some n
    → let (r, u') = set_terminal (some t) u in
      (r ≡ ok tt)
      × IsOneShown u'
      × (displayed u' ≡ n ∷ [])
      × (u'.current ≡ some t)
      × (u'.known ≡ u.known)
      × (u'.calls ≡ term_focused t ∷ u.calls)
set_terminal-IsOneShown t n u h e =
    let d = after_set-IsOneShown t n u h e in
    rw (set_terminal_lem t n u h e) (refl, (n, e, d), d, refl, refl, refl)

-- A change of the page that keeps the tree keeps the display.
pub IsShowing-page :
    (c : Option ℕ) (u : Ui) (d : Dom)
    → d.edges ≡ u.dom.edges
    → IsShowing c u
    → IsShowing c (record u { dom = d })
IsShowing-page none u d e h = rw e h
IsShowing-page (some t) u d e (n, node, shown) = (n, node, rw e shown)

-- The view and what it shows are nodes of the page, and the view is not `panel`.
abbrev pub InPage : ℕ → Ui → Type 0
InPage panel u =
    (u.view_node < u.dom.fresh) × (u.view_node ≢ panel) × All (λ n. n < u.dom.fresh) (displayed u)

All-grow : (k k' : ℕ) (xs : List ℕ) → k ≤ k' → All (λ n. n < k) xs → All (λ n. n < k') xs
All-grow k k' [] le h = tt
All-grow k k' (x ∷ xs) le h = (omega arith, All-grow k k' xs le h.1)

IsShowing-displayed :
    (c : Option ℕ) (u : Ui) (d : Dom)
    → children_of u.view_node d.edges ≡ displayed u
    → IsShowing c u
    → IsShowing c (record u { dom = d })
IsShowing-displayed none u d e h = e ∙ h
IsShowing-displayed (some t) u d e (n, node, shown) = (n, node, e ∙ shown)

-- A change of the page that keeps the children of the view keeps the display.
pub keep_display :
    (panel : ℕ) (u : Ui) (d : Dom)
    → u.dom.fresh ≤ d.fresh
    → children_of u.view_node d.edges ≡ displayed u
    → InPage panel u
    → IsOneShown u
    → InPage panel (record u { dom = d }) × IsOneShown (record u { dom = d })
keep_display panel u d grows e (lt, ne, below) shown = (
  (omega arith, ne, rw e (All-grow u.dom.fresh d.fresh (displayed u) grows below)),
  IsShowing-displayed u.current u d e shown,
)

-- A view that shows one node of the page.
pub select_InPage :
    (panel n : ℕ) (u u' : Ui)
    → InPage panel u
    → n < u.dom.fresh
    → u'.view_node ≡ u.view_node
    → u'.dom.fresh ≡ u.dom.fresh
    → displayed u' ≡ n ∷ []
    → InPage panel u'
select_InPage panel n u u' (lt, ne, _) made view fresh disp =
    (omega arith, (λ e. ne (sym view ∙ e)), rw disp (omega arith, tt))

-- The node of a terminal is not among `xs`.
abbrev pub IsApart : List ℕ → (ℕ → TerminalNode) → Option ℕ → Type 0
IsApart xs f none = Unit
IsApart xs f (some t) = (n : ℕ) × ((f t).node ≡ some n) × (mem n xs ≡ false)

pub shown-IsApart :
    (o : Option ℕ) (u : Ui) (xs ys : List ℕ) (k : ℕ)
    → IsShowing o u
    → All (λ n. n < k) (displayed u)
    → All (λ n. mem n xs ≡ false) (displayed u)
    → ((a : ℕ) → a < k → mem a xs ≡ false → mem a ys ≡ false)
    → IsApart ys u.terminals o
shown-IsApart none u xs ys k one small out apart = tt
shown-IsApart (some t) u xs ys k (n, e, disp) small out apart = (
  n,
  e,
  apart n (subst (All (λ n. n < k)) disp small).0 (subst (All (λ n. mem n xs ≡ false)) disp out).0,
)

-- A terminal that leaves the view leaves the children of other nodes alone.
pub children_of-leave_edges-apart :
    (p : ℕ) (o : Option ℕ) (u : Ui)
    → IsApart (children_of p u.dom.edges) u.terminals o
    → children_of p (leave_edges o u) ≡ children_of p u.dom.edges
children_of-leave_edges-apart p none u h = refl
children_of-leave_edges-apart p (some t) u (n, e, out) =
    rw e (children_of-detach p n u.dom.edges ∙ without-not_mem n (children_of p u.dom.edges) out)

-- So does the one that is shown instead.
pub children_of-after_set :
    (p t n : ℕ) (u : Ui)
    → p ≢ u.view_node
    → IsApart (children_of p u.dom.edges) u.terminals u.current
    → mem n (children_of p u.dom.edges) ≡ false
    → children_of p (after_set t n u).dom.edges ≡ children_of p u.dom.edges
children_of-after_set p t n u ne apart out =
    let left = leave_edges u.current u in
    let same = children_of-leave_edges-apart p u.current u apart in
    let gone : children_of p (detach n left) ≡ children_of p u.dom.edges =
      children_of-detach p n left
      ∙ ap (without n) same
      ∙ without-not_mem n (children_of p u.dom.edges) out in
    ground (
      arith,
      gone,
      children_of-append p u.view_node n (detach n left),
      append-nil (children_of p u.dom.edges),
    )
