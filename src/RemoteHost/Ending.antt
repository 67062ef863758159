-- ===== src/RemoteHost/Ending.antt =====
-- The end of `removeTerminalButton` of webapp/remote.host.js: the selection of the last button.
use mathlib.Core.List.{append_assoc}
use html_terminal.RemoteHost.Calls.{on_host_empty}
use html_terminal.Prelude.{
  All, ℕ, ◌+◌, ◌-◌, ◌≤◌, ◌≡◌, refl, true, Option, none, some, List, [], ◌∷◌, ◌++◌, length,
  length-append, get_elem?, get_elem?-append_mid, same_ref, ltb, if◌then◌else◌, arith, M, ◌>>=◌,
  ◌∙◌, ap, Bool-cases, inl, inr, require,
}
use html_terminal.Ui.{Ui}
use html_terminal.App.{App, TermButton, host_list, terminal_manager}
use html_terminal.TerminalView.Display.{IsOneShown}
use html_terminal.RemoteHost.Select.{select_term_bt}
use html_terminal.RemoteHost.Remove.{select_last}
use html_terminal.RemoteHost.Row.{IsRow, Represents}
use html_terminal.RemoteHost.Selection.{Selects, select_same-Represents, select_other-Represents}
use html_terminal.RemoteHost.Unlink.{last-IsLive}

-- The button before the waiting one.
last_shown :
    (xs : List ℕ) (l c : ℕ)
    → let row = (xs ++ (l ∷ [])) ++ (c ∷ []) in
      (get_elem? row (length row - 2) ≡ some l) × (ltb 1 (length row) ≡ true)
last_shown xs l c =
    let row = (xs ++ (l ∷ [])) ++ (c ∷ []) in
    let flat : row ≡ xs ++ (l ∷ c ∷ []) = append_assoc xs (l ∷ []) (c ∷ []) in
    let long : length row ≡ length xs + 2 = ap length flat ∙ length-append xs (l ∷ c ∷ []) in
    let place : length row - 2 ≡ length xs = omega arith in
    (
      ap (get_elem? row) place
          ∙ ap (λ r. get_elem? r (length xs)) flat
          ∙ get_elem?-append_mid xs l (c ∷ []),
      ground arith,
    )

pub row_of_short :
    (o : Option ℕ) (f : ℕ → TermButton) (k : ℕ) (row bs : List ℕ)
    → length bs ≤ 3
    → IsRow o f k row bs
    → (c : ℕ) × (row ≡ bs ++ (c ∷ []))
row_of_short none f k row bs short (_, four) = absurd (omega arith)
row_of_short (some c) f k row bs short h = (c, h.0)

-- The end of `removeTerminalButton`, for a row of buttons.
abbrev pub select_in : ℕ → List ℕ → M App (Unit {0})
select_in h row =
    if ltb 1 (length row)
    then (require (get_elem? row (length row - 2)) >>= select_term_bt h)
    else on_host_empty h

select_in_lem :
    (h l c : ℕ) (xs : List ℕ) (s : App)
    → select_in h ((xs ++ (l ∷ [])) ++ (c ∷ [])) s ≡ select_term_bt h l s
select_in_lem h l c xs s = let (found, many) = last_shown xs l c in rw (many, found) refl

pub select_last_lem :
    (h l : ℕ) (s : App) (xs ts : List ℕ)
    → Represents s h (xs ++ (l ∷ [])) ts
    → length (xs ++ (l ∷ [])) ≤ 3
    → select_last h s ≡ select_term_bt h l s
unfolding select_last
select_last_lem h l s xs ts rep short =
    let (c, row) =
      row_of_short (s.hosts h).connecting_bt s.buttons s.next_button (s.hosts h).buttons
        (xs ++ (l ∷ [])) short rep.row in
    ap (λ r. select_in h r s) row ∙ select_in_lem h l c xs s

-- A terminal has a node.
abbrev pub HasNode : Ui → ℕ → Type 0
HasNode u t = (n : ℕ) × ((u.terminals t).node ≡ some n)

-- The last button that shows a terminal is selected, or stays so.
pub select_last-Represents :
    (h l : ℕ) (s : App) (xs ts : List ℕ)
    → Represents s h (xs ++ (l ∷ [])) ts
    → length (xs ++ (l ∷ [])) ≤ 3
    → All (HasNode s.ui) ts
    → IsOneShown s.ui
    → s.listeners ≡ host_list ∷ terminal_manager ∷ []
    → Selects h l (xs ++ (l ∷ [])) ts s (select_last h s)
select_last-Represents h l s xs ts rep short nodes one ls =
    let bs = xs ++ (l ∷ []) in
    let (t, live, lt, (n, node)) =
      last-IsLive (HasNode s.ui) s.buttons s.next_button l xs ts rep.shows nodes in
    rw (select_last_lem h l s xs ts rep short)
      (elim (Bool-cases (same_ref (s.hosts h).selected_bt (some l))) [
        | inl same ↦ (select_same-Represents h l t s bs ts rep live same).0
        | inr other ↦ (select_other-Represents h l t n s bs ts rep live lt node one ls other).0
      ])
