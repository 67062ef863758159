-- ===== src/RemoteHost/Clearing.antt =====
-- The panel of a host while a button leaves it: webapp/remote.host.js.
use html_terminal.Prelude.{
  ℕ, ◌<◌, ◌≡◌, refl, true, false, Option, none, some, List, All, update_self, is_some, ◌∙◌, sym, ap,
  subst,
}
use html_terminal.Dom.{children_of}
use html_terminal.Dom.Tree.{mem, without, children_of-detach}
use html_terminal.App.{App}
use html_terminal.TerminalView.Display.{displayed}
use html_terminal.RemoteHost.Remove.{remove_first, ensure_waiting, add_waiting_unless}
use html_terminal.RemoteHost.Row.{Represents, mem-unmade}
use html_terminal.RemoteHost.Making.{IsMade}
use html_terminal.RemoteHost.Panel.{
  nodes_of, panel_children, IsPlaced, Places, without-nodes_of, mem-without, All-without,
  add_waiting_below-Places,
}
use html_terminal.RemoteHost.Unlink.{
  drop_shown, Shows-drop, IsRow-drop, unlinked_host, after_unlink,
}

-- The panel and the view have no node in common, and the button `b` shares its node with no other in
-- the row.
pub record IsTidy (h b : ℕ) (s : App) : Type 0 where
  pub placed : IsPlaced s h
  pub made : IsMade (s.hosts h).buttons_panel s.ui.dom
  pub shown : All (λ n. mem n (panel_children s h) ≡ false) (displayed s.ui)
  pub alone :
      mem (s.buttons b).node (nodes_of s.buttons (remove_first b (s.hosts h).buttons)) ≡ false

add_waiting_unless-Places :
    (o : Option ℕ) (h : ℕ) (s : App)
    → IsMade (s.hosts h).buttons_panel s.ui.dom
    → (is_some o ≡ false → mem s.next_button (s.hosts h).buttons ≡ false)
    → IsPlaced s h
    → Places h s (add_waiting_unless h o s).1
add_waiting_unless-Places none h s made new placed =
    add_waiting_below-Places h s made (new refl) placed
add_waiting_unless-Places (some c) h s made new placed = record {
  placed = placed;
  apart = λ a lt m. m;
  made = made;
  panel = refl;
  view = refl;
}

-- The panel once the button has left it and one that waits is there.
pub unlink_ensure-Places :
    (h b : ℕ) (s : App) (bs ts : List ℕ)
    → Represents s h bs ts
    → mem b bs ≡ true
    → IsTidy h b s
    → Places h s (ensure_waiting h (after_unlink h b s)).1
unfolding ensure_waiting
unlink_ensure-Places h b s bs ts rep m tidy =
    let s1 = after_unlink h b s in
    let host = s.hosts h in
    let node = (s.buttons b).node in
    let known : s1.hosts h ≡ unlinked_host b host = update_self s.hosts h (unlinked_host b host) in
    let gone : panel_children s1 h ≡ without node (panel_children s h) =
      ap (λ r. children_of r.buttons_panel s1.ui.dom.edges) known
      ∙ children_of-detach host.buttons_panel node s.ui.dom.edges in
    let placed1 : IsPlaced s1 h =
      gone
      ∙ ap (without node) tidy.placed
      ∙ without-nodes_of s.buttons b host.buttons tidy.alone
      ∙ sym (ap (λ r. nodes_of s.buttons r.buttons) known) in
    let made1 : IsMade (s1.hosts h).buttons_panel s1.ui.dom = (
      subst (λ r. r.buttons_panel < s.ui.dom.fresh) (sym known) tidy.made.0,
      subst (All (λ n. n < s.ui.dom.fresh)) (sym gone)
          (All-without s.ui.dom.fresh node (panel_children s h) tidy.made.1),
    ) in
    let (_, _, whole) =
      IsRow-drop host.connecting_bt s.buttons s.next_button b host.buttons bs m rep.row in
    let new : is_some (s1.hosts h).connecting_bt ≡ false
        → mem s.next_button (s1.hosts h).buttons ≡ false =
      subst (λ r. is_some r.connecting_bt ≡ false → mem s.next_button r.buttons ≡ false) (sym known)
        (λ e.
          ap (mem s.next_button) (whole e)
          ∙ mem-unmade s.buttons s.next_button (remove_first b bs) (drop_shown b bs ts)
              (Shows-drop s.buttons s.next_button b bs ts rep.shows)) in
    let q = add_waiting_unless-Places (s1.hosts h).connecting_bt h s1 made1 new placed1 in
    record {
      placed = q.placed;
      apart = λ a lt m. q.apart a lt (ap (mem a) gone ∙ mem-without a node (panel_children s h) m);
      made = q.made;
      panel = q.panel ∙ ap (λ r. r.buttons_panel) known;
      view = q.view;
    }
