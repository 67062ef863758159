-- ===== src/Dom.antt =====
-- The part of the browser's document that webapp/ uses: a tree of nodes and their properties.
-- A node is a reference; its properties are total functions on references, `blank` at first. The
-- tree is the list of its (parent, child) pairs in document order, so that the children of a node
-- are in the order in which they were appended.
pub mod Tree
use html_terminal.Prelude.{
  ℕ, ◌+◌, String, Bool, true, false, List, [], ◌∷◌, ◌++◌, Option, none, some, Text, if◌then◌else◌,
  ◌==◌, ◌&&◌, update, M, Outcome, ok, throws, not_found,
}

-- `style.display`: unset, "flex", "contents" and "none".
pub data Display : Type 0 where
  initial flex contents hidden : Display

abbrev pub Edges : Type 0
Edges = List (ℕ × ℕ)

pub record Dom : Type 0 where
  pub fresh : ℕ
  pub edges : Edges
  pub display : ℕ → Display
  pub background : ℕ → String
  pub classes : ℕ → List String
  pub ident : ℕ → String
  pub inner : ℕ → Text

-- `parent.contains(child)`, one level deep.
unfoldable pub has_child : ℕ → ℕ → Edges → Bool
has_child p c [] = false
has_child p c ((q, d) ∷ es) = let rest = has_child p c es in if p == q && c == d then true else rest

-- Without the place of `c` in the tree.
unfoldable pub detach : ℕ → Edges → Edges
detach c [] = []
detach c ((q, d) ∷ es) = let rest = detach c es in if c == d then rest else (q, d) ∷ rest

-- Without the children of `p`.
unfoldable pub empty_node : ℕ → Edges → Edges
empty_node p [] = []
empty_node p ((q, d) ∷ es) = let rest = empty_node p es in if p == q then rest else (q, d) ∷ rest

-- `node.parentNode`
unfoldable pub parent_of : ℕ → Edges → Option ℕ
parent_of c [] = none
parent_of c ((q, d) ∷ es) = if c == d then some q else parent_of c es

-- `node.childNodes`
unfoldable pub children_of : ℕ → Edges → List ℕ
children_of p [] = []
children_of p ((q, d) ∷ es) = let rest = children_of p es in if p == q then d ∷ rest else rest

-- `document.createElement(...)`
unfoldable pub create_element : M Dom ℕ
create_element d = (ok d.fresh, record d { fresh = d.fresh + 1 })

-- `p.appendChild(c)`: a node that has a parent leaves it.
unfoldable pub append_child : ℕ → ℕ → M Dom (Unit {0})
unfolding detach
append_child p c d = (ok tt, record d { edges = detach c d.edges ++ ((p, c) ∷ []) })

-- `p.removeChild(c)` throws unless `c` is a child of `p`.
unfoldable pub remove_child : ℕ → ℕ → M Dom (Unit {0})
unfolding has_child detach
remove_child p c d =
    if has_child p c d.edges
    then (ok tt, record d { edges = detach c d.edges })
    else (throws not_found, d)

-- `n.innerHTML = t` and `n.innerText = t`. The children go; what elements an HTML text `t` itself
-- writes are no nodes of the model.
unfoldable pub set_inner : ℕ → Text → M Dom (Unit {0})
unfolding empty_node
set_inner n t d = (ok tt, record d { edges = empty_node n d.edges; inner = update d.inner n t })

-- `n.setAttribute("id", v)`
unfoldable pub set_id : ℕ → String → M Dom (Unit {0})
set_id n v d = (ok tt, record d { ident = update d.ident n v })

-- `n.setAttribute("class", v)`, with the classes that `v` lists.
unfoldable pub set_class : ℕ → List String → M Dom (Unit {0})
set_class n v d = (ok tt, record d { classes = update d.classes n v })

-- `n.style.display = v`
unfoldable pub set_display : ℕ → Display → M Dom (Unit {0})
set_display n v d = (ok tt, record d { display = update d.display n v })

-- `n.style.background = v`
unfoldable pub set_background : ℕ → String → M Dom (Unit {0})
set_background n v d = (ok tt, record d { background = update d.background n v })
