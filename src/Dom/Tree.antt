-- ===== src/Dom/Tree.antt =====
-- The children of a node after each call of the document.
use mathlib.Core.List.{append-nil}
use html_terminal.Prelude.{
  All, ◌≤◌, ◌<◌, ℕ, ◌≡◌, refl, ◌∙◌, Bool, true, false, List, [], ◌∷◌, ◌++◌, ◌==◌, if◌then◌else◌,
  arith, ◌≢◌,
}
use html_terminal.Dom.{Edges, has_child, detach, empty_node, children_of}

-- Whether a reference is in a list.
unfoldable pub mem : ℕ → List ℕ → Bool
mem a [] = false
mem a (b ∷ bs) = let rest = mem a bs in if a == b then true else rest

-- A list without a reference.
unfoldable pub without : ℕ → List ℕ → List ℕ
without a [] = []
without a (b ∷ bs) = let rest = without a bs in if a == b then rest else b ∷ rest

pub without-not_mem : (a : ℕ) (bs : List ℕ) → mem a bs ≡ false → without a bs ≡ bs
unfolding mem without
without-not_mem a [] h = refl
without-not_mem a (b ∷ bs) h = ground (arith, without-not_mem a bs)

pub has_child-eq-mem : (p c : ℕ) (es : Edges) → has_child p c es ≡ mem c (children_of p es)
unfolding has_child mem children_of
has_child-eq-mem p c [] = refl
has_child-eq-mem p c ((q, d) ∷ es) = ground (arith, has_child-eq-mem p c es)

pub children_of-detach :
    (p c : ℕ) (es : Edges) → children_of p (detach c es) ≡ without c (children_of p es)
unfolding detach without children_of
children_of-detach p c [] = refl
children_of-detach p c ((q, d) ∷ es) = ground (arith, children_of-detach p c es)

pub children_of-append :
    (p q c : ℕ) (es : Edges)
    → children_of p (es ++ ((q, c) ∷ [])) ≡ children_of p es ++ (if p == q then c ∷ [] else [])
unfolding children_of
children_of-append p q c [] = ground arith
children_of-append p q c ((r, d) ∷ es) = ground (arith, children_of-append p q c es)

pub children_of-empty_node :
    (p q : ℕ) (es : Edges)
    → children_of p (empty_node q es) ≡ (if p == q then [] else children_of p es)
unfolding empty_node children_of
children_of-empty_node p q [] = ground arith
children_of-empty_node p q ((r, d) ∷ es) = ground (arith, children_of-empty_node p q es)

-- Many calls of `appendChild`, by parent and child.
abbrev pub attach_all : List (ℕ × ℕ) → Edges → Edges
attach_all [] es = es
attach_all ((q, c) ∷ moves) es = attach_all moves (detach c es ++ ((q, c) ∷ []))

-- They make new nodes the children of nodes other than `p`.
abbrev pub AreAway : ℕ → ℕ → List (ℕ × ℕ) → Type 0
AreAway p k [] = Unit
AreAway p k ((q, c) ∷ moves) = (p ≢ q) × (k ≤ c) × AreAway p k moves

pub mem-below : (k c : ℕ) (bs : List ℕ) → All (λ b. b < k) bs → k ≤ c → mem c bs ≡ false
unfolding mem
mem-below k c [] h le = refl
mem-below k c (b ∷ bs) h le = ground (arith, mem-below k c bs h.1 le)

append_child-away :
    (p q c : ℕ) (es : Edges)
    → p ≢ q
    → mem c (children_of p es) ≡ false
    → children_of p (detach c es ++ ((q, c) ∷ [])) ≡ children_of p es
append_child-away p q c es ne out = ground (
  arith,
  children_of-append p q c (detach c es),
  children_of-detach p c es,
  without-not_mem c (children_of p es) out,
  append-nil (children_of p es),
)

-- Such calls leave the children of `p` alone.
pub children_of-attach_all :
    (p k : ℕ) (moves : List (ℕ × ℕ)) (es : Edges)
    → AreAway p k moves
    → All (λ b. b < k) (children_of p es)
    → children_of p (attach_all moves es) ≡ children_of p es
children_of-attach_all p k [] es away below = refl
children_of-attach_all p k ((q, c) ∷ moves) es (ne, le, away) below =
    let out = mem-below k c (children_of p es) below le in
    let same = append_child-away p q c es ne out in
    children_of-attach_all p k moves (detach c es ++ ((q, c) ∷ [])) away (rw same below) ∙ same

-- Calls of `appendChild`, and of nodes that lose their children.
pub data Change : Type 0 where
  moved : ℕ → ℕ → Change
  emptied : ℕ → Change

abbrev pub change_all : List Change → Edges → Edges
change_all [] es = es
change_all (moved q c ∷ changes) es = change_all changes (detach c es ++ ((q, c) ∷ []))
change_all (emptied q ∷ changes) es = change_all changes (empty_node q es)

-- Changes of nodes other than `p`, which move new nodes.
abbrev pub ChangeAway : ℕ → ℕ → List Change → Type 0
ChangeAway p k [] = Unit
ChangeAway p k (moved q c ∷ changes) = (p ≢ q) × (k ≤ c) × ChangeAway p k changes
ChangeAway p k (emptied q ∷ changes) = (p ≢ q) × ChangeAway p k changes

empty_node-away :
    (p q : ℕ) (es : Edges) → p ≢ q → children_of p (empty_node q es) ≡ children_of p es
empty_node-away p q es ne = ground (arith, children_of-empty_node p q es)

-- They leave the children of `p` alone.
pub children_of-change_all :
    (p k : ℕ) (changes : List Change) (es : Edges)
    → ChangeAway p k changes
    → All (λ b. b < k) (children_of p es)
    → children_of p (change_all changes es) ≡ children_of p es
children_of-change_all p k [] es away below = refl
children_of-change_all p k (moved q c ∷ changes) es (ne, le, away) below =
    let out = mem-below k c (children_of p es) below le in
    let same = append_child-away p q c es ne out in
    children_of-change_all p k changes (detach c es ++ ((q, c) ∷ [])) away (rw same below) ∙ same
children_of-change_all p k (emptied q ∷ changes) es (ne, away) below =
    let same = empty_node-away p q es ne in
    children_of-change_all p k changes (empty_node q es) away (rw same below) ∙ same
