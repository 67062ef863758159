-- ===== src/TermClient/Switches.antt =====
-- The switches of reading that wait for the thread of TerminalClient.cpp, and what the terminals are told
-- once they have run.
use html_terminal.Prelude.{
  ℕ, zero, suc, ◌≡◌, refl, sym, ap, ◌∙◌, subst, Bool, Option, none, some, List, [], ◌∷◌, All, arith,
  Bool-cases, inl, inr, length, Dict, ◌==◌, if◌then◌else◌,
}
use html_terminal.TermClient.{
  TerminalHandler, TermClient, ThreadCall, enable_read_from_terminals, put_handler, same_bool,
  with_handler, enable_read, run, TerminalCall, enable_read_called, call_terminal, enable_all,
  take_first, turn,
}
use html_terminal.TermClient.Flow.{mode, enabled_of}
use html_terminal.Server.Web.{and_then}
use html_terminal.TermClient.Backpressure.{enable_all_lem, same_bool-eq}

unfoldable pub turns : (ℕ → Bool) → ℕ → TermClient → Option TermClient
unfolding turn
turns init zero c = some c
turns init (suc m) c = and_then (turn init c) (turns init m)

abbrev pub IsSwitch : ThreadCall → Type 0
IsSwitch (enable_read_from_terminals enabled) = Unit
IsSwitch _ = ¬ Unit {0}

-- What the terminal `t` was told last, by the calls, the latest first.
abbrev pub last_told : ℕ → List TerminalCall → Option Bool
last_told t [] = none
last_told t (enable_read_called t' enabled ∷ calls) =
    let rest = last_told t calls in if t == t' then some enabled else rest
last_told t (_ ∷ calls) = last_told t calls

-- Each of the terminals was last told that reading is enabled, or that it is not.
abbrev pub AreTold : Bool → Dict ℕ → List TerminalCall → Type 0
AreTold enabled terminals calls = All (λ p. last_told p.0 calls ≡ some enabled) terminals

last_told-enable_all :
    (t : ℕ) (terminals : Dict ℕ) (enabled : Bool) (c : TermClient)
    → last_told t c.calls ≡ some enabled
    → last_told t (enable_all terminals enabled c).calls ≡ some enabled
last_told-enable_all t [] enabled c e = e
last_told-enable_all t ((t', x) ∷ terminals) enabled c e =
    last_told-enable_all t terminals enabled (call_terminal (enable_read_called t' enabled) c)
      (ground (arith, e))

enable_all-AreTold :
    (terminals : Dict ℕ) (enabled : Bool) (c : TermClient)
    → AreTold enabled terminals (enable_all terminals enabled c).calls
enable_all-AreTold [] enabled c = tt
enable_all-AreTold ((t, x) ∷ terminals) enabled c =
    let c₁ = call_terminal (enable_read_called t enabled) c in
    (
      last_told-enable_all t terminals enabled c₁ (ground arith),
      enable_all-AreTold terminals enabled c₁,
    )

-- A switch runs.
switched :
    (calls : List ThreadCall) (enabled : Bool) (handler : TerminalHandler) (c : TermClient)
    (o : Option TerminalHandler)
    → o ≡ some handler
    → c.term_handler ≡ some handler
    → let c₁ = with_handler o (enable_read enabled) (record c { waiting = calls }) in
      (c₁.waiting ≡ calls)
      × (c₁.term_handler ≡ some (record handler { read_enabled = enabled }))
      × (AreTold handler.read_enabled handler.terminals c.calls
          → AreTold enabled handler.terminals c₁.calls)
unfolding enable_read
switched calls enabled handler c o e has =
    let all =
      enable_all_lem handler.terminals enabled
        (put_handler (record handler { read_enabled = enabled }) (record c { waiting = calls })) in
    elim (Bool-cases (same_bool handler.read_enabled enabled)) [
      | inl q ↦
          rw (e, q)
            (
              refl,
              has
                  ∙ ap (λ b. some (record handler { read_enabled = b }))
                      (same_bool-eq handler.read_enabled enabled q),
              subst (λ b. AreTold b handler.terminals c.calls)
                  (same_bool-eq handler.read_enabled enabled q),
            )
      | inr q ↦
          rw (e, q)
            (
              ap (λ x. x.waiting) all,
              ap (λ x. x.term_handler) all,
              λ told. enable_all-AreTold handler.terminals enabled _,
            )
    ]

turn_lem :
    (init : ℕ → Bool) (c : TermClient) (call : ThreadCall) (calls : List ThreadCall)
    → c.waiting ≡ call ∷ calls
    → turn init c ≡ run init call (record c { waiting = calls })
unfolding turn
turn_lem init c call calls e =
    subst (λ w. take_first init w c ≡ run init call (record c { waiting = calls })) (sym e) refl

-- Switches that wait run, and the last of them decides.
pub turns_lem :
    (init : ℕ → Bool) (calls : List ThreadCall) (handler : TerminalHandler) (c : TermClient)
    → c.waiting ≡ calls
    → All IsSwitch calls
    → c.term_handler ≡ some handler
    → AreTold handler.read_enabled handler.terminals c.calls
    → (c' : TermClient) × (turns init (length calls) c ≡ some c')
      × (enabled_of c'.term_handler ≡ mode calls handler.read_enabled)
      × AreTold (mode calls handler.read_enabled) handler.terminals c'.calls
unfolding turns mode
turns_lem init [] handler c e w has told = (c, refl, ap enabled_of has, told)
turns_lem init (enable_read_from_terminals enabled ∷ calls) handler c e w has told =
    let opened : TerminalHandler = record handler { read_enabled = enabled } in
    let c₁ = with_handler c.term_handler (enable_read enabled) (record c { waiting = calls }) in
    let (waits, same, tells) = switched calls enabled handler c c.term_handler has has in
    let (c', ran, last, told') = turns_lem init calls opened c₁ waits w.1 same (tells told) in
    let step : turn init c ≡ some c₁ = turn_lem init c _ calls e in
    (c', subst (λ o. and_then o (turns init (length calls)) ≡ some c') (sym step) ran, last, told')
turns_lem init (_ ∷ calls) handler c e w has told = absurd (w.0 tt)
