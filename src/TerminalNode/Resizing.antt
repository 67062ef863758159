-- ===== src/TerminalNode/Resizing.antt =====
-- The timers of `createTerm` of webapp/terminal.node.js: the first fit of a terminal, and one after
-- its container has changed its size. `timers` are those that `setTimeout` started and that neither
-- fired nor were cleared.
use html_terminal.Prelude.{
  ℕ, zero, suc, ◌+◌, ◌≤◌, ◌<◌, ◌≡◌, refl, ◌∙◌, ap, Option, none, some, List, [], ◌∷◌, Dict, lookup,
  erase, arith,
}
use html_terminal.Ui.{Call, term_focused, term_fitted}

-- The callback of a timer: `focus()` and `fit()`, or `fit()`.
pub data Callback : Type 0 where
  first_fit refit : Callback

-- `calls` has the latest call first.
pub record Resizing : Type 0 where
  pub resize_timout : Option ℕ
  pub timers : Dict Callback
  pub next_timer : ℕ
  pub calls : List Call

-- `setTimeout(...)` at the end of `createTerm`
unfoldable pub create_term : Resizing
create_term = record {
  resize_timout = none;
  timers = (0, first_fit) ∷ [];
  next_timer = 1;
  calls = [];
}

abbrev pub clear_timeout : Option ℕ → Dict Callback → Dict Callback
clear_timeout none timers = timers
clear_timeout (some t) timers = erase t timers

-- The callback of the `ResizeObserver`
unfoldable pub on_size_changed : Resizing → Resizing
on_size_changed r = record r {
  resize_timout = some r.next_timer;
  timers = (r.next_timer, refit) ∷ clear_timeout r.resize_timout r.timers;
  next_timer = r.next_timer + 1;
}

-- What a callback calls of the terminal `t`.
unfoldable pub calls_of : ℕ → Callback → List Call → List Call
calls_of t first_fit calls = term_fitted t ∷ term_focused t ∷ calls
calls_of t refit calls = term_fitted t ∷ calls

abbrev pub fire_found : ℕ → Option Callback → ℕ → Resizing → Resizing
fire_found t none timer r = r
fire_found t (some callback) timer r = record r {
  timers = erase timer r.timers;
  calls = calls_of t callback r.calls;
}

-- The browser fires a timer.
unfoldable pub fire : ℕ → ℕ → Resizing → Resizing
unfolding calls_of
fire t timer r = fire_found t (lookup timer r.timers) timer r

-- The size changes `n` times before any timer fires.
unfoldable pub changes : ℕ → Resizing → Resizing
unfolding on_size_changed
changes zero r = r
changes (suc n) r = changes n (on_size_changed r)

-- Only the first fit and the latest refit are pending.
abbrev IsBurst : Resizing → Type 0
IsBurst r =
    (t : ℕ) × (r.resize_timout ≡ some t)
    × (r.timers ≡ (t, refit) ∷ (0, first_fit) ∷ [])
    × (r.calls ≡ [])
    × (t < r.next_timer)
    × (1 ≤ t)

changed-IsBurst : (r : Resizing) → IsBurst r → IsBurst (on_size_changed r)
unfolding on_size_changed
changed-IsBurst r (t, named, pending, quiet, lt, pos) =
    (r.next_timer, refl, ground (arith, named, pending), quiet, omega arith, omega arith)

changes-IsBurst : (n : ℕ) (r : Resizing) → IsBurst r → IsBurst (changes n r)
unfolding changes
changes-IsBurst zero r h = h
changes-IsBurst (suc n) r h = changes-IsBurst n (on_size_changed r) (changed-IsBurst r h)

fire-some :
    (t timer : ℕ) (callback : Callback) (r : Resizing)
    → lookup timer r.timers ≡ some callback
    → fire t timer r
      ≡ record r { timers = erase timer r.timers; calls = calls_of t callback r.calls }
unfolding fire
fire-some t timer callback r e = rw e refl

fire_first :
    (t timer : ℕ) (r : Resizing)
    → r.timers ≡ (timer, refit) ∷ (0, first_fit) ∷ []
    → r.calls ≡ []
    → 1 ≤ timer
    → ((fire t 0 r).timers ≡ (timer, refit) ∷ [])
      × ((fire t 0 r).calls ≡ term_fitted t ∷ term_focused t ∷ [])
unfolding calls_of
fire_first t timer r pending quiet pos =
    let found : lookup 0 r.timers ≡ some first_fit = ground (arith, pending) in
    let left : erase 0 r.timers ≡ (timer, refit) ∷ [] = ground (arith, pending) in
    let fired = fire-some t 0 first_fit r found in
    (
      ap (λ x. x.timers) fired ∙ left,
      ap (λ x. x.calls) fired ∙ ap (λ cs. term_fitted t ∷ term_focused t ∷ cs) quiet,
    )

fire_last :
    (t timer : ℕ) (r : Resizing) (calls : List Call)
    → r.timers ≡ (timer, refit) ∷ []
    → r.calls ≡ calls
    → ((fire t timer r).timers ≡ []) × ((fire t timer r).calls ≡ term_fitted t ∷ calls)
unfolding calls_of
fire_last t timer r calls pending e =
    let found : lookup timer r.timers ≡ some refit = ground (arith, pending) in
    let left : erase timer r.timers ≡ [] = ground (arith, pending) in
    let fired = fire-some t timer refit r found in
    (ap (λ x. x.timers) fired ∙ left, ap (λ x. x.calls) fired ∙ ap (λ cs. term_fitted t ∷ cs) e)

-- However often the size of a new terminal changes, two timers are pending at the end; when they have
-- fired, the first fit before the other, none is, and the terminal was focused once and fitted twice.
pub resize_debounced :
    (t n : ℕ)
    → (timer : ℕ) × ((changes (suc n) create_term).timers ≡ (timer, refit) ∷ (0, first_fit) ∷ [])
      × (let r = fire t timer (fire t 0 (changes (suc n) create_term)) in
          (r.timers ≡ []) × (r.calls ≡ term_fitted t ∷ term_fitted t ∷ term_focused t ∷ []))
unfolding changes create_term
resize_debounced t n =
    let (timer, named, pending, quiet, lt, pos) =
      changes-IsBurst n (on_size_changed create_term)
        (1, refl, refl, refl, omega arith, omega arith) in
    let r = changes n (on_size_changed create_term) in
    let (left, called) = fire_first t timer r pending quiet pos in
    (timer, pending, fire_last t timer (fire t 0 r) _ left called)
