-- ===== src/TermClient/Limits.antt =====
-- What holds in every state of the first connection of TerminalClient.cpp, and what its loss does.
use html_terminal.Prelude.{
  ℕ, suc, ◌+◌, ◌-◌, ◌%◌, ◌^◌, ◌≤◌, ◌<◌, ◌≡◌, refl, sym, ap, subst, Bool, true, false, Option, none,
  some, List, [], ◌∷◌, ◌++◌, is_some, All-append, arith, inl, inr, ◌⊎◌,
}
use html_terminal.TermClient.{
  TerminalHandler, TermClient, ThreadCall, handle_create_terminal, handle_delete_terminal,
  handle_resize_terminal, handle_terminal_write, enable_read_from_terminals, end_terminal,
  delete_terminals, clear_terminals, post, on_read_ack, read_terminal, handle_disconnected, run,
  take_first, turn,
}
use html_terminal.TermClient.Flow.{
  from_outside, Step, reads, answers, acknowledged, arrives, runs, Reach, here, next, mode,
  mode-append, enabled_of, FitsMode, FitsHandler, IsHarmless, Balanced, connected-Balanced,
  resolve-Balanced,
}
use html_terminal.TermClient.Backpressure.{BalancedIfAny, take_first-BalancedIfAny}

neutral : (call : ThreadCall) (m : Bool) → from_outside call ≡ true → mode (call ∷ []) m ≡ m
unfolding mode
neutral (handle_create_terminal t) m e = refl
neutral (handle_delete_terminal t) m e = refl
neutral (handle_resize_terminal t width height) m e = refl
neutral (handle_terminal_write t key) m e = refl
neutral (end_terminal t) m e = refl
neutral (enable_read_from_terminals enabled) m e = cc
neutral delete_terminals m e = cc

harmless : (call : ThreadCall) → from_outside call ≡ true → IsHarmless call
harmless (enable_read_from_terminals enabled) e = cc
harmless _ e = tt

posted-FitsHandler :
    (o : Option TerminalHandler) (k : ℕ) (call : ThreadCall) (calls : List ThreadCall)
    → from_outside call ≡ true
    → FitsHandler o k calls
    → FitsHandler o k (calls ++ (call ∷ []))
posted-FitsHandler none k call calls e (z, f) =
    (z, All-append IsHarmless calls (call ∷ []) f (harmless call e, tt))
posted-FitsHandler (some handler) k call calls e f = tt

arrives-Balanced :
    (n : ℕ) (call : ThreadCall) (c : TermClient)
    → from_outside call ≡ true
    → Balanced n c
    → Balanced n (post call c)
arrives-Balanced n call c e i = record {
  small = i.small;
  fits =
      rw
        (
          mode-append c.waiting (call ∷ []) (enabled_of c.term_handler),
          neutral call (mode c.waiting (enabled_of c.term_handler)) e,
        )
        i.fits;
  idle = posted-FitsHandler c.term_handler c.pending_msg_counter call c.waiting e i.idle;
}

suc-Balanced : (n : ℕ) (c : TermClient) → Balanced n c → Balanced (suc n) c
suc-Balanced n c i = record { small = omega (arith, i.small); fits = i.fits; idle = i.idle }

has_handler :
    (o : Option TerminalHandler) (k : ℕ) (calls : List ThreadCall)
    → FitsHandler o k calls
    → 1 ≤ k
    → is_some o ≡ true
has_handler none k calls (z, f) le = absurd (omega arith)
has_handler (some handler) k calls f le = refl

Step-Balanced :
    {c c' : TermClient} (n : ℕ) → suc n < 2 ^ 31 → Step c c' → Balanced n c → Balanced (suc n) c'
unfolding read_terminal on_read_ack turn
Step-Balanced {c} n small (reads t output there) i =
    let le = i.small in
    let counted : (c.pending_msg_counter + 1) % 2 ^ 32 ≤ suc n = omega arith in
    resolve-Balanced (suc n) _ small counted there
Step-Balanced {c} n small answers i =
    suc-Balanced n _ (record { small = i.small; fits = i.fits; idle = i.idle })
Step-Balanced {c} n small (acknowledged pos) i =
    let le = i.small in
    let counted : (c.pending_msg_counter + (2 ^ 32 - 1)) % 2 ^ 32 ≤ suc n = omega arith in
    resolve-Balanced (suc n) _ small counted
      (has_handler c.term_handler c.pending_msg_counter c.waiting i.idle pos)
Step-Balanced {c} n small (arrives call e) i = suc-Balanced n _ (arrives-Balanced n call c e i)
Step-Balanced {c} {c'} n small (runs init e) i =
    suc-Balanced n c'
      (subst (BalancedIfAny n) e (take_first-BalancedIfAny n init c.waiting c refl i))

Reach-Balanced : {n : ℕ} {c : TermClient} → Reach n c → n < 2 ^ 31 → Balanced n c
Reach-Balanced here small = connected-Balanced
Reach-Balanced (next {n} r step) small = Step-Balanced n small step (Reach-Balanced r (omega arith))

FitsMode-cases :
    (m : Bool) (k : ℕ) → FitsMode m k → ((m ≡ true) × (k ≤ 10)) ⊎ ((m ≡ false) × (5 ≤ k))
FitsMode-cases true k f = inl (refl, f)
FitsMode-cases false k f = inr (refl, f)

-- While the first connection of a client lasts, in fewer than 2 ^ 31 steps of any kind and order: when no call waits for
-- the thread, either reading from the terminals is enabled and at most 10 messages are not
-- acknowledged, or it is disabled and at least 5 are not, so that an acknowledgement is still to come.
pub backpressure :
    {n : ℕ} {c : TermClient} (handler : TerminalHandler)
    → Reach n c
    → n < 2 ^ 31
    → c.waiting ≡ []
    → c.term_handler ≡ some handler
    → ((handler.read_enabled ≡ true) × (c.pending_msg_counter ≤ 10))
      ⊎ ((handler.read_enabled ≡ false) × (5 ≤ c.pending_msg_counter))
unfolding mode
backpressure {n} {c} handler r small empty has =
    let k = c.pending_msg_counter in
    FitsMode-cases handler.read_enabled k (
      subst (λ m. FitsMode m k) (ap enabled_of has)
        (subst (λ w. FitsMode (mode w (enabled_of c.term_handler)) k) empty
          (Reach-Balanced r small).fits))

-- What is left of a client whose connection is lost, by its handler; none if the client ends.
abbrev pub without_terminals : Option TerminalHandler → TermClient → Option TermClient
without_terminals none c = none
without_terminals (some handler) c = some (record c {
  pending_msg_counter = 0;
  term_handler = some (record handler { terminals = [] });
  waiting = [];
})

lost :
    (o : Option TerminalHandler) (c : TermClient)
    → clear_terminals o (record c { pending_msg_counter = 0; waiting = [] }) ≡ without_terminals o c
lost none c = refl
lost (some handler) c = refl

-- When the connection is lost while no call waits, the next turn follows a null pointer if the client
-- never had a terminal, and else leaves no terminal and no message that is not acknowledged, and
-- reading enabled or disabled as it was.
pub handle_disconnected_lem :
    (init : ℕ → Bool) (c : TermClient)
    → c.waiting ≡ []
    → turn init (handle_disconnected c) ≡ without_terminals c.term_handler c
unfolding turn handle_disconnected run
handle_disconnected_lem init c empty =
    subst
      (λ w.
        take_first init (w ++ (delete_terminals ∷ [])) (handle_disconnected c)
        ≡ without_terminals c.term_handler c)
      (sym empty) (lost c.term_handler c)
