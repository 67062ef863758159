-- ===== src/RemoteHost/Waiting.antt =====
-- A host gets a waiting button again, and a button that waits its terminal: webapp/remote.host.js.
use html_terminal.Prelude.{
  ℕ, ◌+◌, ◌≤◌, ◌<◌, ◌≡◌, refl, true, false, Option, none, some, List, [], ◌∷◌, ◌++◌, update,
  update_self, length, is_some, same_ref, ltb, arith, ok, Outcome, >>=-ok, ◌∙◌, ap, Bool-cases, inl,
  inr,
}
use html_terminal.Dom.{Dom}
use html_terminal.App.{App, TermButton, RemoteHost, terminal}
use html_terminal.TermButton.{set_state, set_terminal}
use html_terminal.TerminalView.Display.{IsOneShown, InPage, keep_display}
use html_terminal.RemoteHost.Create.{add_term_bt}
use html_terminal.RemoteHost.Select.{select_term_bt, select_other}
use html_terminal.RemoteHost.Terminals.{connect, add_waiting_below, open_waiting, add_waiting}
use html_terminal.RemoteHost.Steps.{marked, unselected}
use html_terminal.RemoteHost.Making.{after_add, add_term_bt_lem}
use html_terminal.RemoteHost.Row.{
  represents, IsLive, IsWaiting, Shows, WasOpened, Represents, mem-waiting, mem-unmade,
  Shows-outside, Shows-same, Shows-more, Shows-snoc,
}

-- The host with a waiting button, or without.
abbrev pub with_connecting : Option ℕ → RemoteHost → RemoteHost
with_connecting o host = record host { connecting_bt = o }

-- The buttons once `c` shows the terminal `t`.
abbrev pub given : ℕ → ℕ → (ℕ → TermButton) → ℕ → TermButton
given c t f = update f c (record (f c) { terminal = some t })

abbrev pub opened_by : ℕ → ℕ → (ℕ → TermButton) → ℕ → TermButton
opened_by c t f =
    update (given c t f) c (record (given c t f c) { state = terminal; activated = true })

abbrev pub after_open : ℕ → ℕ → ℕ → Dom → App → App
after_open h c t d s = record s {
  ui = record s.ui { dom = d };
  hosts = update s.hosts h (with_connecting none (s.hosts h));
  buttons = opened_by c t s.buttons;
}

pub open_waiting_lem :
    (h c t : ℕ) (s : App)
    → (d : Dom) × (open_waiting h c t s ≡ (ok tt, after_open h c t d s))
      × (d.edges ≡ s.ui.dom.edges)
      × (d.fresh ≡ s.ui.dom.fresh)
unfolding open_waiting set_terminal set_state
open_waiting_lem h c t s = (_, refl, refl, refl)

pub select_term_bt_other :
    (h b : ℕ) (s : App)
    → same_ref (s.hosts h).selected_bt (some b) ≡ false
    → select_term_bt h b s ≡ select_other h b s
unfolding select_term_bt
select_term_bt_other h b s e = ground (arith, e)

-- The terminal of the button that was waiting.
pub opened_by_self : (c t : ℕ) (f : ℕ → TermButton) → IsLive (opened_by c t f c) t
opened_by_self c t f = ground arith

pub Shows-unselected :
    (o : Option ℕ) (f : ℕ → TermButton) (k : ℕ) (bs ts : List ℕ)
    → Shows f k bs ts
    → Shows (unselected o f) k bs ts
Shows-unselected none f k bs ts h = h
Shows-unselected (some o) f k bs ts h = Shows-same f k o _ bs ts refl refl h

pub IsLive-unselected :
    (o : Option ℕ) (f : ℕ → TermButton) (c t : ℕ) → IsLive (f c) t → IsLive (unselected o f c) t
IsLive-unselected none f c t h = h
IsLive-unselected (some o) f c t h = ground arith

-- The buttons after the waiting button `c` has got the terminal `t` and the selection.
abbrev pub filled : Option ℕ → ℕ → ℕ → (ℕ → TermButton) → ℕ → TermButton
filled o c t f = marked c (unselected o (opened_by c t f))

pub Shows-filled :
    (o : Option ℕ) (c t : ℕ) (f : ℕ → TermButton) (k : ℕ) (bs ts : List ℕ)
    → (f c).terminal ≡ none
    → c < k
    → Shows f k bs ts
    → Shows (filled o c t f) k (bs ++ (c ∷ [])) (ts ++ (t ∷ []))
Shows-filled o c t f k bs ts w lt h =
    let out = mem-waiting f k c bs ts w h in
    let g = opened_by c t f in
    let before : Shows g k bs ts =
      Shows-outside (given c t f) k c _ bs ts out (Shows-outside f k c _ bs ts out h) in
    let live : IsLive (unselected o g c) t = IsLive-unselected o g c t (opened_by_self c t f) in
    Shows-same (unselected o g) k c _ (bs ++ (c ∷ [])) (ts ++ (t ∷ [])) refl refl
      (Shows-snoc (unselected o g) k c t bs ts live lt (Shows-unselected o g k bs ts before))

pub filled_self :
    (o : Option ℕ) (c t : ℕ) (f : ℕ → TermButton) → is_some (filled o c t f c).terminal ≡ true
filled_self o c t f =
    let live = IsLive-unselected o (opened_by c t f) c t (opened_by_self c t f) in
    ground (arith, live)

pub WasOpened-made :
    (o : Option ℕ) (f : ℕ → TermButton) (k : ℕ) (b : TermButton)
    → WasOpened o f k
    → WasOpened o (update f k b) (k + 1)
WasOpened-made none f k b h = tt
WasOpened-made (some o) f k b h = ground arith

-- The display stays in step, for a view that is not `panel`.
abbrev pub StaysShown : ℕ → App → App → Type 0
StaysShown panel s s' = InPage panel s.ui → IsOneShown s.ui → InPage panel s'.ui × IsOneShown s'.ui

-- What the end of `addTerminal` keeps and makes.
abbrev pub Completes : ℕ → List ℕ → List ℕ → App → Outcome (Unit {0}) × App → Type 0
Completes h bs ts s (r, s') =
    (r ≡ ok tt)
    × Represents s' h bs ts
    × ((s'.hosts h).selected_bt ≡ (s.hosts h).selected_bt)
    × ((s'.hosts h).active_terminal ≡ (s.hosts h).active_terminal)
    × (s'.ui.current ≡ s.ui.current)
    × ((s'.hosts h).buttons_panel ≡ (s.hosts h).buttons_panel)
    × (s'.ui.terminals ≡ s.ui.terminals)
    × (s'.listeners ≡ s.listeners)
    × (s'.current_host ≡ s.current_host)
    × StaysShown (s.hosts h).buttons_panel s s'

abbrev pub made_host : ℕ → RemoteHost → RemoteHost
made_host k host = record host { buttons = host.buttons ++ (k ∷ []) }

-- A row of at most three gets a waiting button.
pub add_waiting_below_lem :
    (h : ℕ) (s : App) (bs ts : List ℕ)
    → (s.hosts h).buttons ≡ bs
    → length bs ≤ 3
    → Shows s.buttons s.next_button bs ts
    → WasOpened (s.hosts h).selected_bt s.buttons s.next_button
    → Completes h bs ts s (add_waiting_below h true s)
unfolding add_waiting_below connect
add_waiting_below_lem h s bs ts row short shows opened =
    let (b, d, e, st, te, grows, keeps, _, _, _) = add_term_bt_lem h none s in
    let k = s.next_button in
    let s' = after_add h b d s in
    let made : s'.hosts h ≡ made_host k (s.hosts h) = update_self s.hosts h _ in
    let host : RemoteHost = with_connecting (some k) (made_host k (s.hosts h)) in
    let s'' : App = record s' {
      hosts = update s'.hosts h (with_connecting (some k) (s'.hosts h));
    } in
    let known : s''.hosts h ≡ host =
      update_self s'.hosts h _ ∙ ap (with_connecting (some k)) made in
    let waits : IsWaiting (s'.buttons k) = ground (arith, st, te) in
    let rep =
      represents s'' h host bs ts known
        (Shows-more s'.buttons k bs ts
          (Shows-outside s.buttons k k b bs ts (mem-unmade s.buttons k bs ts shows) shows))
        (ap (λ r. r ++ (k ∷ [])) row, short, waits, omega arith)
        (WasOpened-made (s.hosts h).selected_bt s.buttons k b opened) in
    let stays : StaysShown (s.hosts h).buttons_panel s s'' = λ page one.
      keep_display (s.hosts h).buttons_panel s.ui d grows
        (keeps s.ui.view_node page.0 page.1 page.2) page one in
    rw (>>=-ok (add_term_bt h none) (connect h) e) (
      refl,
      rep,
      ap (λ r. r.selected_bt) known,
      ap (λ r. r.active_terminal) known,
      refl,
      ap (λ r. r.buttons_panel) known,
      refl,
      refl,
      refl,
      stays,
    )

-- A row of four is complete; a shorter one gets a waiting button.
pub add_waiting_lem :
    (h : ℕ) (s : App) (bs ts : List ℕ)
    → (s.hosts h).buttons ≡ bs
    → (s.hosts h).connecting_bt ≡ none
    → length bs ≤ 4
    → Shows s.buttons s.next_button bs ts
    → WasOpened (s.hosts h).selected_bt s.buttons s.next_button
    → Completes h bs ts s (add_waiting h s)
unfolding add_waiting add_waiting_below
add_waiting_lem h s bs ts row conn short shows opened =
    let four : ltb (length (s.hosts h).buttons) 4 ≡ false → length bs ≡ 4 =
      λ e. ground (arith, row) in
    elim (Bool-cases (ltb (length (s.hosts h).buttons) 4)) [
      | inl more ↦
          rw (more, add_waiting_below)
            (add_waiting_below_lem h s bs ts row (ground (arith, row)) shows opened)
      | inr full ↦ rw full (
        refl,
        record { shows = shows; row = rw conn (row, four full); opened = opened },
        refl,
        refl,
        refl,
        refl,
        refl,
        refl,
        refl,
        λ page one. (page, one),
      )
    ]
