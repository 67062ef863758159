-- ===== src/TerminalView/Creation.antt =====
-- A new terminal: `createTerminalNode` of webapp/terminal.view.js.
use html_terminal.Prelude.{
  ◌≡◌, ◌≢◌, refl, none, some, ◌∷◌, All, ◌<◌, sym, codes, ok, arith, lookup, insert, lookup-insert,
  ap, ◌∙◌, List, [], ◌+◌, ℕ,
}
use html_terminal.Dom.Tree.{Change, moved, emptied, change_all, children_of-change_all}
use html_terminal.Dom.{children_of}
use html_terminal.TerminalView.Display.{displayed}
use html_terminal.Protocol.{make_file_req}
use html_terminal.Ui.{Ui, opened, sent, send, term_opened}
use html_terminal.FileMode.{new_file_mode_node, create_file_node}
use html_terminal.TerminalNode.{new_terminal_node}
use html_terminal.TerminalView.{create_terminal_node, create_unless, get_terminal_by_id}

-- What the making of a terminal whose node is `n` does to the page.
abbrev terminal_tree : ℕ → List Change
terminal_tree n =
    let container = n + 1 in
    let file_node = container + 1 in
    let header = file_node + 1 in
    let contnet = header + 1 in
    let first = contnet + 1 in
    let file_size = first + 1 in
    let mod_date = file_size + 1 in
    emptied header
    ∷ moved file_node header
    ∷ moved contnet first
    ∷ emptied file_size
    ∷ moved contnet file_size
    ∷ emptied mod_date
    ∷ moved contnet mod_date
    ∷ moved file_node contnet
    ∷ moved n container
    ∷ moved n file_node
    ∷ []

pub new_terminal_node_lem :
    (id : ℕ) (u : Ui)
    → u.socket ≡ some opened
    → let (r, u') = new_terminal_node id u in
      (r ≡ ok u.next_terminal)
      × ((u'.terminals u.next_terminal).id ≡ id)
      × ((u'.terminals u.next_terminal).node ≡ some u.dom.fresh)
      × (u'.calls
          ≡ term_opened u.next_terminal ∷ sent (make_file_req id (some (codes "/"))) ∷ u.calls)
      × (u'.known ≡ u.known)
      × (u'.current ≡ u.current)
      × (u'.view_node ≡ u.view_node)
      × (u'.dom.edges ≡ change_all (terminal_tree u.dom.fresh) u.dom.edges)
unfolding new_terminal_node new_file_mode_node create_file_node send
new_terminal_node_lem id u so = ground (arith, so)

some-ne-none : {A : Type 0} (x : A) → some x ≢ none
some-ne-none x e = cc

-- The state after `createTerminalNode` of a new id.
abbrev after_create : ℕ → Ui → Ui
after_create id u = record (new_terminal_node id u).1 { known = insert id u.next_terminal u.known }

create_unknown :
    (id : ℕ) (u : Ui)
    → lookup id u.known ≡ none
    → u.socket ≡ some opened
    → create_terminal_node id u ≡ (ok (some u.next_terminal), after_create id u)
unfolding create_terminal_node create_unless get_terminal_by_id
create_unknown id u e so = ground (arith, e, new_terminal_node_lem id u so)

create_known :
    (id t : ℕ) (u : Ui) → lookup id u.known ≡ some t → create_terminal_node id u ≡ (ok none, u)
unfolding create_terminal_node create_unless get_terminal_by_id
create_known id t u e = ap (λ o. create_unless o id u) e

-- Where the id is unknown and the socket is open, and the view and its children are nodes of the page,
-- `createTerminalNode` returns a new terminal with the id and a new node, opens it and asks for the files
-- of the root; the id leads to it, the terminal on display is the same, and so are the nodes in the
-- view. Asked for that id again or for the id `j` of another terminal `t` that was known, which still leads
-- to it, it returns null and changes nothing.
pub create_terminal_node_lem :
    (id j t : ℕ) (u : Ui)
    → lookup id u.known ≡ none
    → u.socket ≡ some opened
    → lookup j u.known ≡ some t
    → u.view_node < u.dom.fresh
    → All (λ n. n < u.dom.fresh) (displayed u)
    → let (r, u') = create_terminal_node id u in
      (r ≡ ok (some u.next_terminal))
      × ((u'.terminals u.next_terminal).id ≡ id)
      × ((u'.terminals u.next_terminal).node ≡ some u.dom.fresh)
      × (u'.calls
          ≡ term_opened u.next_terminal ∷ sent (make_file_req id (some (codes "/"))) ∷ u.calls)
      × (lookup id u'.known ≡ some u.next_terminal)
      × (lookup j u'.known ≡ some t)
      × (u'.current ≡ u.current)
      × (displayed u' ≡ displayed u)
      × (create_terminal_node id u' ≡ (ok none, u'))
      × (create_terminal_node j u' ≡ (ok none, u'))
create_terminal_node_lem id j t u e so old made below =
    let (_, named, node, calls, known, cur, view, tree) = new_terminal_node_lem id u so in
    let nt = u.next_terminal in
    let u' = after_create id u in
    let ne : j ≢ id = λ same. some-ne-none t (sym old ∙ ap (λ i. lookup i u.known) same ∙ e) in
    let mine : lookup id (insert id nt u.known) ≡ some nt =
      lookup-insert id id nt u.known ∙ ground arith in
    let other : lookup j (insert id nt u.known) ≡ some t =
      lookup-insert j id nt u.known ∙ ground arith in
    let n = u.dom.fresh in
    let same : displayed u' ≡ displayed u =
      ap (λ p. children_of p u'.dom.edges) view
      ∙ ap (children_of u.view_node) tree
      ∙ children_of-change_all u.view_node n (terminal_tree n) u.dom.edges (omega arith) below in
    rw (create_unknown id u e so) (
      refl,
      named,
      node,
      calls,
      mine,
      other,
      cur,
      same,
      create_known id nt u' mine,
      create_known j t u' other,
    )
