-- ===== src/RemoteHost/Row.antt =====
-- The row of buttons of a host, seen as a list of terminals: the specification of
-- webapp/remote.host.js. A row stands for a list of at most four terminals if each has a button and,
-- while there are fewer than four, one more button waits for the next, at the end of the row.
use html_terminal.Prelude.{
  ℕ, ◌+◌, ◌≤◌, ◌<◌, ◌≡◌, refl, Bool, true, false, Option, none, some, List, [], ◌∷◌, ◌++◌, update,
  length, is_some, arith,
}
use html_terminal.Dom.Tree.{mem}
use html_terminal.App.{App, TermButton, RemoteHost, ButtonState, file_list}

-- A button that shows its terminal or the files of it.
abbrev pub is_open : ButtonState → Bool
is_open ButtonState.terminal = true
is_open file_list = true
is_open _ = false

abbrev pub IsLive : TermButton → ℕ → Type 0
IsLive b t = (b.terminal ≡ some t) × (is_open b.state ≡ true)

abbrev pub IsWaiting : TermButton → Type 0
IsWaiting b = (b.terminal ≡ none) × (is_open b.state ≡ false)

-- The buttons show the terminals, one by one; all are among the first `k` buttons ever made.
abbrev pub Shows : (ℕ → TermButton) → ℕ → List ℕ → List ℕ → Type 0
Shows f k [] [] = Unit
Shows f k (b ∷ bs) (t ∷ ts) = IsLive (f b) t × (b < k) × Shows f k bs ts
Shows f k _ _ = ⊥

-- The row consists of the buttons `bs` that show terminals, and of the waiting button, if any.
abbrev pub IsRow : Option ℕ → (ℕ → TermButton) → ℕ → List ℕ → List ℕ → Type 0
IsRow none f k row bs = (row ≡ bs) × (length bs ≡ 4)
IsRow (some c) f k row bs = (row ≡ bs ++ (c ∷ [])) × (length bs ≤ 3) × IsWaiting (f c) × (c < k)

-- The selected button has or had a terminal.
abbrev pub WasOpened : Option ℕ → (ℕ → TermButton) → ℕ → Type 0
WasOpened none f k = Unit
WasOpened (some o) f k = (is_some (f o).terminal ≡ true) × (o < k)

-- The host `h` shows the terminals `ts`, by the buttons `bs`.
pub record Represents (s : App) (h : ℕ) (bs ts : List ℕ) : Type 0 where
  pub shows : Shows s.buttons s.next_button bs ts
  pub row : IsRow (s.hosts h).connecting_bt s.buttons s.next_button (s.hosts h).buttons bs
  pub opened : WasOpened (s.hosts h).selected_bt s.buttons s.next_button

module _ (f : ℕ → TermButton) (k : ℕ) where
  -- A button without a terminal shows none.
  pub mem-waiting :
      (c : ℕ) (bs ts : List ℕ) → (f c).terminal ≡ none → Shows f k bs ts → mem c bs ≡ false
  unfolding mem
  mem-waiting c [] [] w h = refl
  mem-waiting c [] (t ∷ ts) w h = absurd h
  mem-waiting c (b ∷ bs) [] w h = absurd h
  mem-waiting c (b ∷ bs) (t ∷ ts) w h = ground (arith, mem-waiting c bs ts w h.2)

  -- Nor does one that is not made yet.
  pub mem-unmade : (bs ts : List ℕ) → Shows f k bs ts → mem k bs ≡ false
  unfolding mem
  mem-unmade [] [] h = refl
  mem-unmade [] (t ∷ ts) h = absurd h
  mem-unmade (b ∷ bs) [] h = absurd h
  mem-unmade (b ∷ bs) (t ∷ ts) h = ground (arith, mem-unmade bs ts h.2)

  pub Shows-outside :
      (c : ℕ) (v : TermButton) (bs ts : List ℕ)
      → mem c bs ≡ false
      → Shows f k bs ts
      → Shows (update f c v) k bs ts
  unfolding mem
  Shows-outside c v [] [] m h = tt
  Shows-outside c v [] (t ∷ ts) m h = absurd h
  Shows-outside c v (b ∷ bs) [] m h = absurd h
  Shows-outside c v (b ∷ bs) (t ∷ ts) m h = ground (arith, Shows-outside c v bs ts)

  pub Shows-same :
      (c : ℕ) (v : TermButton) (bs ts : List ℕ)
      → v.terminal ≡ (f c).terminal
      → v.state ≡ (f c).state
      → Shows f k bs ts
      → Shows (update f c v) k bs ts
  Shows-same c v [] [] e e' h = tt
  Shows-same c v [] (t ∷ ts) e e' h = absurd h
  Shows-same c v (b ∷ bs) [] e e' h = absurd h
  Shows-same c v (b ∷ bs) (t ∷ ts) e e' h = ground (arith, Shows-same c v bs ts e e' h.2)

  pub Shows-more : (bs ts : List ℕ) → Shows f k bs ts → Shows f (k + 1) bs ts
  Shows-more [] [] h = tt
  Shows-more [] (t ∷ ts) h = absurd h
  Shows-more (b ∷ bs) [] h = absurd h
  Shows-more (b ∷ bs) (t ∷ ts) h = ground (arith, Shows-more bs ts h.2)

  pub Shows-snoc :
      (c t : ℕ) (bs ts : List ℕ)
      → IsLive (f c) t
      → c < k
      → Shows f k bs ts
      → Shows f k (bs ++ (c ∷ [])) (ts ++ (t ∷ []))
  Shows-snoc c t [] [] l lt h = (l, lt, tt)
  Shows-snoc c t [] (t' ∷ ts) l lt h = absurd h
  Shows-snoc c t (b ∷ bs) [] l lt h = absurd h
  Shows-snoc c t (b ∷ bs) (t' ∷ ts) l lt h = (h.0, h.1, Shows-snoc c t bs ts l lt h.2)

-- The three parts, for a host that is known by an equation.
pub represents :
    (s : App) (h : ℕ) (host : RemoteHost) (bs ts : List ℕ)
    → s.hosts h ≡ host
    → Shows s.buttons s.next_button bs ts
    → IsRow host.connecting_bt s.buttons s.next_button host.buttons bs
    → WasOpened host.selected_bt s.buttons s.next_button
    → Represents s h bs ts
represents s h host bs ts e shows row opened = record {
  shows = shows;
  row = rw e row;
  opened = rw e opened;
}
