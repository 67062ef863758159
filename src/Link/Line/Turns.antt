-- ===== src/Link/Line/Turns.antt =====
-- What a turn of the client's thread leaves as it was: the counter of messages, and the output sent.
use html_terminal.Prelude.{
  ℕ, ◌≡◌, refl, sym, subst, Bool, Option, none, some, List, [], ◌∷◌, lookup, is_some, Bool-cases,
  inl, inr, arith,
}
use html_terminal.TermClient.{
  TermClient, TerminalHandler, ThreadCall, handle_create_terminal, handle_delete_terminal,
  handle_resize_terminal, handle_terminal_write, enable_read_from_terminals, end_terminal,
  delete_terminals, TerminalCall, same_bool, put_handler, with_handler, create, create_terminal,
  handler_or_new, delete_terminal, call_known, enable_read, clear_terminals, run, take_first, turn,
}
use html_terminal.TermClient.Backpressure.{enable_all_lem}
use html_terminal.Link.Line.{reads}

abbrev pub Same : TermClient → TermClient → Type 0
Same c c' = (c'.pending_msg_counter ≡ c.pending_msg_counter) × (reads c'.sent ≡ reads c.sent)

module _ (c : TermClient) where
  with_handler-Same :
      (o : Option TerminalHandler) (f : TerminalHandler → TermClient → TermClient)
      → ((handler : TerminalHandler) → Same c (f handler c))
      → Same c (with_handler o f c)
  with_handler-Same none f k = (refl, refl)
  with_handler-Same (some handler) f k = k handler

  create-Same : (init : ℕ → Bool) (t : ℕ) → Same c (create init t c)
  unfolding create create_terminal
  create-Same init t =
      elim (Bool-cases (is_some (lookup t (handler_or_new c.term_handler).terminals))) [
        | inl e ↦ rw e (refl, refl)
        | inr e ↦ rw e (refl, refl)
      ]

  call_known-Same :
      (t : ℕ) (call : TerminalCall) (handler : TerminalHandler)
      → Same c (call_known t call handler c)
  unfolding call_known
  call_known-Same t call handler = elim (Bool-cases (is_some (lookup t handler.terminals))) [
    | inl e ↦ rw e (refl, refl)
    | inr e ↦ rw e (refl, refl)
  ]

  enable_read-Same :
      (enabled : Bool) (handler : TerminalHandler) → Same c (enable_read enabled handler c)
  unfolding enable_read
  enable_read-Same enabled handler = elim (Bool-cases (same_bool handler.read_enabled enabled)) [
    | inl e ↦ rw e (refl, refl)
    | inr e ↦ rw e (
        subst (Same c)
          (sym (
            enable_all_lem handler.terminals enabled
              (put_handler (record handler { read_enabled = enabled }) c)))
          (refl, refl))
  ]

  some-Same : (a c' : TermClient) → some a ≡ some c' → Same c a → Same c c'
  some-Same a c' e same = let equal : a ≡ c' = ground (arith, e) in subst (Same c) equal same

  clear-Same :
      (o : Option TerminalHandler) (c' : TermClient) → clear_terminals o c ≡ some c' → Same c c'
  clear-Same none c' e = cc
  clear-Same (some handler) c' e = some-Same _ c' e (refl, refl)

  run-Same :
      (init : ℕ → Bool) (call : ThreadCall) (c' : TermClient)
      → run init call c ≡ some c'
      → Same c c'
  unfolding run delete_terminal
  run-Same init (handle_create_terminal t) c' e = some-Same _ c' e (create-Same init t)
  run-Same init (handle_delete_terminal t) c' e =
      some-Same _ c' e
        (with_handler-Same c.term_handler (delete_terminal t) (λ handler. (refl, refl)))
  run-Same init (handle_resize_terminal t width height) c' e =
      some-Same _ c' e (with_handler-Same c.term_handler _ (call_known-Same t _))
  run-Same init (handle_terminal_write t key) c' e =
      some-Same _ c' e (with_handler-Same c.term_handler _ (call_known-Same t _))
  run-Same init (enable_read_from_terminals enabled) c' e =
      some-Same _ c' e (with_handler-Same c.term_handler _ (enable_read-Same enabled))
  run-Same init (end_terminal t) c' e =
      let kept = with_handler-Same c.term_handler (delete_terminal t) (λ handler. (refl, refl)) in
      some-Same _ c' e (kept.0, omega (arith, kept.1))
  run-Same init delete_terminals c' e = clear-Same c.term_handler c' e

take_first-Same :
    (init : ℕ → Bool) (calls : List ThreadCall) (c c' : TermClient)
    → take_first init calls c ≡ some c'
    → Same c c'
take_first-Same init [] c c' e = some-Same c c c' e (refl, refl)
take_first-Same init (call ∷ calls) c c' e = run-Same (record c { waiting = calls }) init call c' e

pub turn-Same : (init : ℕ → Bool) (c c' : TermClient) → turn init c ≡ some c' → Same c c'
unfolding turn
turn-Same init c c' e = take_first-Same init c.waiting c c' e
