-- ===== src/RemoteHost/Panel.antt =====
-- The panel of a host on the page, where webapp/remote.host.js puts the nodes of its buttons.
use html_terminal.Prelude.{
  ℕ, ◌<◌, ◌≡◌, refl, true, false, Option, none, some, List, [], ◌∷◌, ◌++◌, All, All-append,
  All-mono, update, update_self, arith, >>=-ok, ◌∙◌, sym, ap, subst, ◌==◌, Bool-cases, inl, inr,
}
use html_terminal.Dom.{children_of}
use html_terminal.Dom.Tree.{mem, without, without-not_mem}
use html_terminal.App.{App, TermButton, RemoteHost}
use html_terminal.RemoteHost.Create.{add_term_bt}
use html_terminal.RemoteHost.Terminals.{connect, add_waiting_below}
use html_terminal.RemoteHost.Remove.{remove_first}
use html_terminal.RemoteHost.Making.{IsMade, after_add, add_term_bt_lem}

abbrev pub nodes_of : (ℕ → TermButton) → List ℕ → List ℕ
nodes_of f [] = []
nodes_of f (b ∷ bs) = (f b).node ∷ nodes_of f bs

abbrev pub panel_children : App → ℕ → List ℕ
panel_children s h = children_of (s.hosts h).buttons_panel s.ui.dom.edges

-- The panel of the host `h` holds the nodes of its buttons, in the order of the row, and nothing else.
abbrev pub IsPlaced : App → ℕ → Type 0
IsPlaced s h = panel_children s h ≡ nodes_of s.buttons (s.hosts h).buttons

pub nodes_of-append :
    (f : ℕ → TermButton) (bs cs : List ℕ) → nodes_of f (bs ++ cs) ≡ nodes_of f bs ++ nodes_of f cs
nodes_of-append f [] cs = refl
nodes_of-append f (b ∷ bs) cs = ap (λ xs. (f b).node ∷ xs) (nodes_of-append f bs cs)

pub nodes_of-update :
    (f : ℕ → TermButton) (k : ℕ) (v : TermButton) (bs : List ℕ)
    → mem k bs ≡ false
    → nodes_of (update f k v) bs ≡ nodes_of f bs
unfolding mem
nodes_of-update f k v [] m = refl
nodes_of-update f k v (b ∷ bs) m = ground (arith, nodes_of-update f k v bs)

pub nodes_of-like :
    (f g : ℕ → TermButton) (bs : List ℕ)
    → ((b : ℕ) → (g b).node ≡ (f b).node)
    → nodes_of g bs ≡ nodes_of f bs
nodes_of-like f g [] like = refl
nodes_of-like f g (b ∷ bs) like = rw (like b, nodes_of-like f g bs like) refl

-- The nodes that are left when a button goes that shares its node with no other.
pub without-nodes_of :
    (f : ℕ → TermButton) (b : ℕ) (row : List ℕ)
    → mem (f b).node (nodes_of f (remove_first b row)) ≡ false
    → without (f b).node (nodes_of f row) ≡ nodes_of f (remove_first b row)
unfolding mem without remove_first
without-nodes_of f b [] m = refl
without-nodes_of f b (c ∷ row) m = elim (Bool-cases (c == b)) [
  | inl e ↦ ground (arith, without-not_mem (f b).node (nodes_of f row))
  | inr e ↦ ground (arith, without-nodes_of f b row)
]

pub mem-without : (a x : ℕ) (xs : List ℕ) → mem a xs ≡ false → mem a (without x xs) ≡ false
unfolding mem without
mem-without a x [] m = refl
mem-without a x (y ∷ ys) m = ground (arith, mem-without a x ys)

pub All-without : (k x : ℕ) (xs : List ℕ) → All (λ n. n < k) xs → All (λ n. n < k) (without x xs)
unfolding without
All-without k x [] h = tt
All-without k x (y ∷ ys) h = ground (arith, All-without k x ys h.1)

mem-snoc : (a n : ℕ) (xs : List ℕ) → mem a xs ≡ false → a < n → mem a (xs ++ (n ∷ [])) ≡ false
unfolding mem
mem-snoc a n [] m lt = ground arith
mem-snoc a n (x ∷ xs) m lt = ground (arith, mem-snoc a n xs)

-- What a call does to the panel where the row gets a button: its node is the last child.
pub record Places (h : ℕ) (s s' : App) : Type 0 where
  pub placed : IsPlaced s' h
  pub apart :
      (a : ℕ)
      → a < s.ui.dom.fresh
      → mem a (panel_children s h) ≡ false
      → mem a (panel_children s' h) ≡ false
  pub made : IsMade (s'.hosts h).buttons_panel s'.ui.dom
  pub panel : (s'.hosts h).buttons_panel ≡ (s.hosts h).buttons_panel
  pub view : s'.ui.view_node ≡ s.ui.view_node

pub add_term_bt-Places :
    (h : ℕ) (term : Option ℕ) (s : App)
    → IsMade (s.hosts h).buttons_panel s.ui.dom
    → mem s.next_button (s.hosts h).buttons ≡ false
    → IsPlaced s h
    → Places h s (add_term_bt h term s).1
add_term_bt-Places h term s made new placed =
    let (b, d, e, _, _, grows, _, children, old, within) = add_term_bt_lem h term s in
    let k = s.next_button in
    let row = (s.hosts h).buttons in
    let s' = after_add h b d s in
    let host : RemoteHost = record (s.hosts h) { buttons = row ++ (k ∷ []) } in
    let known : s'.hosts h ≡ host = update_self s.hosts h host in
    let panel : panel_children s' h ≡ panel_children s h ++ (b.node ∷ []) =
      ap (λ r. children_of r.buttons_panel d.edges) known ∙ children made in
    let nodes : nodes_of s'.buttons (s'.hosts h).buttons ≡ nodes_of s.buttons row ++ (b.node ∷ []) =
      ap (λ r. nodes_of s'.buttons r.buttons) known
      ∙ nodes_of-append s'.buttons row (k ∷ [])
      ∙ ap (λ xs. xs ++ ((s'.buttons k).node ∷ [])) (nodes_of-update s.buttons k b row new)
      ∙ ap (λ v. nodes_of s.buttons row ++ (v.node ∷ [])) (update_self s.buttons k b) in
    subst (λ o. Places h s o.1) (sym e)
      (record {
        placed = panel ∙ ap (λ xs. xs ++ (b.node ∷ [])) placed ∙ sym nodes;
        apart = λ a lt m.
            ap (mem a) panel ∙ mem-snoc a b.node (panel_children s h) m (omega (arith, lt, old));
        made = (
          subst (λ r. r.buttons_panel < d.fresh) (sym known) (omega (arith, made.0, grows)),
          subst (All (λ n. n < d.fresh)) (sym panel) (
              All-append (λ n. n < d.fresh) (panel_children s h) (b.node ∷ [])
                (All-mono (λ n. n < s.ui.dom.fresh) (λ n. n < d.fresh) (panel_children s h)
                  (λ n lt. omega (arith, lt, grows)) made.1)
                (within, tt)),
        );
        panel = ap (λ r. r.buttons_panel) known;
        view = refl;
      })

-- So it is with the button that waits.
pub add_waiting_below-Places :
    (h : ℕ) (s : App)
    → IsMade (s.hosts h).buttons_panel s.ui.dom
    → mem s.next_button (s.hosts h).buttons ≡ false
    → IsPlaced s h
    → Places h s (add_waiting_below h true s).1
unfolding add_waiting_below connect
add_waiting_below-Places h s made new placed =
    let (b, d, e, _, _, _, _, _, _, _) = add_term_bt_lem h none s in
    let s1 = after_add h b d s in
    let s2 : App = record s1 {
      hosts = update s1.hosts h (record (s1.hosts h) { connecting_bt = some s.next_button });
    } in
    let known : s2.hosts h ≡ record (s1.hosts h) { connecting_bt = some s.next_button } =
      update_self s1.hosts h _ in
    let q : Places h s s1 =
      subst (λ o. Places h s o.1) e (add_term_bt-Places h none s made new placed) in
    let panel : panel_children s2 h ≡ panel_children s1 h =
      ap (λ r. children_of r.buttons_panel d.edges) known in
    let row : nodes_of s2.buttons (s2.hosts h).buttons ≡ nodes_of s1.buttons (s1.hosts h).buttons =
      ap (λ r. nodes_of s1.buttons r.buttons) known in
    subst (λ o. Places h s o.1) (sym (>>=-ok (add_term_bt h none) (connect h) e))
      (record {
        placed = panel ∙ q.placed ∙ sym row;
        apart = λ a lt m. ap (mem a) panel ∙ q.apart a lt m;
        made = subst (λ r. IsMade r.buttons_panel d) (sym known) q.made;
        panel = ap (λ r. r.buttons_panel) known ∙ q.panel;
        view = refl;
      })
