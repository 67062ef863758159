-- ===== src/RemoteHost/Unlink.antt =====
-- A button leaves the row of a host, and a waiting one is there again: webapp/remote.host.js.
use html_terminal.Prelude.{
  All, ℕ, suc, ◌≤◌, ◌<◌, ◌≡◌, refl, true, false, Option, none, some, List, [], ◌∷◌, ◌++◌, update,
  length, is_some, ◌==◌, if◌then◌else◌, arith, ok, Outcome, ◌∙◌, sym, ap, subst,
}
use html_terminal.Dom.{detach, has_child}
use html_terminal.Dom.Tree.{mem}
use html_terminal.App.{App, TermButton, RemoteHost}
use html_terminal.TerminalView.Display.{IsOneShown, InPage}
use html_terminal.RemoteHost.Remove.{remove_first, unlink, ensure_waiting, add_waiting_unless}
use html_terminal.RemoteHost.Row.{IsLive, Shows, IsRow, WasOpened, Represents}
use html_terminal.RemoteHost.Waiting.{add_waiting_below_lem}

-- The terminals that are left when the button `b` goes.
unfoldable pub drop_shown : ℕ → List ℕ → List ℕ → List ℕ
drop_shown b [] ts = ts
drop_shown b (c ∷ bs) [] = []
drop_shown b (c ∷ bs) (t ∷ ts) = if c == b then ts else t ∷ drop_shown b bs ts

pub Shows-drop :
    (f : ℕ → TermButton) (k b : ℕ) (bs ts : List ℕ)
    → Shows f k bs ts
    → Shows f k (remove_first b bs) (drop_shown b bs ts)
unfolding remove_first drop_shown
Shows-drop f k b [] [] h = tt
Shows-drop f k b [] (t ∷ ts) h = absurd h
Shows-drop f k b (c ∷ bs) [] h = absurd h
Shows-drop f k b (c ∷ bs) (t ∷ ts) h = ground (arith, Shows-drop f k b bs ts h.2)

pub remove_first-append :
    (b : ℕ) (bs cs : List ℕ) → mem b bs ≡ true → remove_first b (bs ++ cs) ≡ remove_first b bs ++ cs
unfolding remove_first mem
remove_first-append b [] cs h = cc
remove_first-append b (c ∷ bs) cs h = ground (arith, remove_first-append b bs cs)

pub length-remove_first :
    (b : ℕ) (bs : List ℕ) → mem b bs ≡ true → suc (length (remove_first b bs)) ≡ length bs
unfolding remove_first mem
length-remove_first b [] h = cc
length-remove_first b (c ∷ bs) h = ground (arith, length-remove_first b bs)

-- The row without the button.
pub IsRow-drop :
    (o : Option ℕ) (f : ℕ → TermButton) (k b : ℕ) (row bs : List ℕ)
    → mem b bs ≡ true
    → IsRow o f k row bs
    → (length (remove_first b bs) ≤ 3)
      × (is_some o ≡ true → IsRow o f k (remove_first b row) (remove_first b bs))
      × (is_some o ≡ false → remove_first b row ≡ remove_first b bs)
IsRow-drop none f k b row bs m (e, four) =
    (omega (arith, length-remove_first b bs m), (λ h. cc), λ h. ap (remove_first b) e)
IsRow-drop (some c) f k b row bs m (e, short, w, lt) = (
  omega (arith, length-remove_first b bs m),
  (λ h. (
    ap (remove_first b) e ∙ remove_first-append b bs (c ∷ []) m,
    omega (arith, length-remove_first b bs m),
    w,
    lt,
  )),
  λ h. cc,
)

abbrev pub unlinked_host : ℕ → RemoteHost → RemoteHost
unlinked_host b host = record host { buttons = remove_first b host.buttons }

-- The state after a button has left the panel and the row.
abbrev pub after_unlink : ℕ → ℕ → App → App
after_unlink h b s = record s {
  ui = record s.ui { dom = record s.ui.dom { edges = detach (s.buttons b).node s.ui.dom.edges } };
  hosts = update s.hosts h (unlinked_host b (s.hosts h));
}

pub unlink_lem :
    (h b : ℕ) (s : App)
    → has_child (s.hosts h).buttons_panel (s.buttons b).node s.ui.dom.edges ≡ true
    → unlink h b s ≡ (ok tt, after_unlink h b s)
unfolding unlink
unlink_lem h b s e = ground (arith, e)

-- The last button shows a terminal with whatever all the terminals have.
pub last-IsLive {ℓ} :
    (P : ℕ → Type ℓ) (f : ℕ → TermButton) (k l : ℕ) (xs ts : List ℕ)
    → Shows f k (xs ++ (l ∷ [])) ts
    → All P ts
    → (t : ℕ) × IsLive (f l) t × (l < k) × P t
last-IsLive P f k l [] [] h p = absurd h
last-IsLive P f k l [] (t ∷ ts) (live, lt, _) p = (t, live, lt, p.0)
last-IsLive P f k l (x ∷ xs) [] h p = absurd h
last-IsLive P f k l (x ∷ xs) (t ∷ ts) (_, _, h) p = last-IsLive P f k l xs ts h p.1

-- A row of at most three buttons that show terminals has one that waits.
pub waiting_of_short :
    (o : Option ℕ) (f : ℕ → TermButton) (k : ℕ) (row bs : List ℕ)
    → length bs ≤ 3
    → IsRow o f k row bs
    → is_some o ≡ true
waiting_of_short none f k row bs short (_, four) = absurd (omega arith)
waiting_of_short (some c) f k row bs short h = refl

-- After the row has a waiting button again.
abbrev pub Readies : ℕ → List ℕ → List ℕ → App → Outcome (Unit {0}) × App → Type 0
Readies h bs ts s (r, s') =
    (r ≡ ok tt)
    × Represents s' h bs ts
    × ((s'.hosts h).selected_bt ≡ (s.hosts h).selected_bt)
    × (s'.ui.terminals ≡ s.ui.terminals)
    × (s'.listeners ≡ s.listeners)
    × (s'.current_host ≡ s.current_host)
    × (s'.ui.current ≡ s.ui.current)
    × IsOneShown s'.ui

pub add_waiting_unless_lem :
    (o : Option ℕ) (h : ℕ) (s : App) (bs ts : List ℕ)
    → (s.hosts h).connecting_bt ≡ o
    → length bs ≤ 3
    → (is_some o ≡ true → IsRow o s.buttons s.next_button (s.hosts h).buttons bs)
    → (is_some o ≡ false → (s.hosts h).buttons ≡ bs)
    → Shows s.buttons s.next_button bs ts
    → WasOpened (s.hosts h).selected_bt s.buttons s.next_button
    → InPage (s.hosts h).buttons_panel s.ui
    → IsOneShown s.ui
    → Readies h bs ts s (add_waiting_unless h o s)
add_waiting_unless_lem none h s bs ts conn short waits whole shows opened page one =
    let (done, rep, sel, _, cur, _, terms, ls, host, stays) =
      add_waiting_below_lem h s bs ts (whole refl) short shows opened in
    (done, rep, sel, terms, ls, host, cur, (stays page one).1)
add_waiting_unless_lem (some c) h s bs ts conn short waits whole shows opened page one =
    let row =
      subst (λ o. IsRow o s.buttons s.next_button (s.hosts h).buttons bs) (sym conn) (waits refl) in
    (refl, record { shows = shows; row = row; opened = opened }, refl, refl, refl, refl, refl, one)

pub ensure_waiting_lem :
    (h : ℕ) (s : App) (bs ts : List ℕ)
    → length bs ≤ 3
    → (is_some (s.hosts h).connecting_bt ≡ true
        → IsRow (s.hosts h).connecting_bt s.buttons s.next_button (s.hosts h).buttons bs)
    → (is_some (s.hosts h).connecting_bt ≡ false → (s.hosts h).buttons ≡ bs)
    → Shows s.buttons s.next_button bs ts
    → WasOpened (s.hosts h).selected_bt s.buttons s.next_button
    → InPage (s.hosts h).buttons_panel s.ui
    → IsOneShown s.ui
    → Readies h bs ts s (ensure_waiting h s)
unfolding ensure_waiting
ensure_waiting_lem h s bs ts = add_waiting_unless_lem (s.hosts h).connecting_bt h s bs ts refl
