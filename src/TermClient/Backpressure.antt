-- ===== src/TermClient/Backpressure.antt =====
-- The turns of the thread of TerminalClient.cpp, and what holds in every state of its first connection.
use html_terminal.Prelude.{
  ℕ, ◌≡◌, refl, sym, ap, ◌∙◌, subst, Bool, true, false, Option, none, some, List, [], ◌∷◌, Dict,
  lookup, is_some, Bool-cases, inl, inr,
}
use html_terminal.Server.Tables.{place, remove}
use html_terminal.TermClient.{
  TerminalHandler, TermClient, ThreadCall, handle_create_terminal, handle_delete_terminal,
  handle_resize_terminal, handle_terminal_write, enable_read_from_terminals, end_terminal,
  delete_terminals, TerminalCall, Reply, enable_read_called, call_terminal, put_handler,
  handler_or_new, same_bool, clear_terminals, with_handler, create_terminal, create,
  delete_terminal, call_known, enable_all, enable_read, run, take_first,
}
use html_terminal.TermClient.Flow.{
  mode, enabled_of, FitsMode, FitsHandler, Balanced, tail-FitsHandler,
}

module _ (n : ℕ) (c : TermClient) (i : Balanced n c) where
  calls-Balanced : (calls : List TerminalCall) → Balanced n (record c { calls = calls })
  calls-Balanced calls = record { small = i.small; fits = i.fits; idle = i.idle }

  sent-Balanced : (sent : List Reply) → Balanced n (record c { sent = sent })
  sent-Balanced sent = record { small = i.small; fits = i.fits; idle = i.idle }

  -- A handler that is as open as the one before.
  handler-Balanced :
      (handler : TerminalHandler)
      → handler.read_enabled ≡ enabled_of c.term_handler
      → Balanced n (put_handler handler c)
  handler-Balanced handler e = record {
    small = i.small;
    fits = subst (λ m. FitsMode (mode c.waiting m) c.pending_msg_counter) (sym e) i.fits;
    idle = tt;
  }

  with_handler-Balanced :
      (o : Option TerminalHandler) (f : TerminalHandler → TermClient → TermClient)
      → ((handler : TerminalHandler) → o ≡ some handler → Balanced n (f handler c))
      → Balanced n (with_handler o f c)
  with_handler-Balanced none f k = i
  with_handler-Balanced (some handler) f k = k handler refl

  delete-Balanced : (t : ℕ) → Balanced n (with_handler c.term_handler (delete_terminal t) c)
  unfolding delete_terminal
  delete-Balanced t = with_handler-Balanced c.term_handler (delete_terminal t) (λ handler e.
      handler-Balanced (record handler { terminals = remove t handler.terminals })
        (sym (ap enabled_of e)))

  call_known-Balanced :
      (t : ℕ) (call : TerminalCall) → Balanced n (with_handler c.term_handler (call_known t call) c)
  unfolding call_known
  call_known-Balanced t call =
      with_handler-Balanced c.term_handler (call_known t call) (λ handler e.
        elim (Bool-cases (is_some (lookup t handler.terminals))) [
          | inl q ↦ rw q (calls-Balanced (call ∷ c.calls))
          | inr q ↦ rw q i
        ])

create-Balanced :
    (n : ℕ) (init : ℕ → Bool) (t : ℕ) (c : TermClient) → Balanced n c → Balanced n (create init t c)
unfolding create create_terminal
create-Balanced n init t c i =
    let handler = handler_or_new c.term_handler in
    let open_as_before = new_enabled c.term_handler in
    elim (Bool-cases (is_some (lookup t handler.terminals))) [
      | inl e ↦ rw e (sent-Balanced n _ (handler-Balanced n c i handler open_as_before) _)
      | inr e ↦ rw e (
          sent-Balanced n _
            (calls-Balanced n _
              (handler-Balanced n c i (record handler { terminals = place t t handler.terminals })
                open_as_before)
              _)
            _)
    ]
  where
    new_enabled : (o : Option TerminalHandler) → (handler_or_new o).read_enabled ≡ enabled_of o
    new_enabled none = refl
    new_enabled (some handler) = refl

pub enable_all_lem :
    (terminals : Dict ℕ) (enabled : Bool) (c : TermClient)
    → enable_all terminals enabled c ≡ record c { calls = (enable_all terminals enabled c).calls }
enable_all_lem [] enabled c = refl
enable_all_lem ((t, x) ∷ terminals) enabled c =
    enable_all_lem terminals enabled (call_terminal (enable_read_called t enabled) c)

pub same_bool-eq : (a b : Bool) → same_bool a b ≡ true → a ≡ b
same_bool-eq true true e = refl
same_bool-eq true false e = cc
same_bool-eq false true e = cc
same_bool-eq false false e = refl

-- A call that does not switch the reading is taken from those that wait.
rest-Balanced :
    (n : ℕ) (call : ThreadCall) (c : TermClient)
    → Balanced n (record c { waiting = call ∷ c.waiting })
    → mode (call ∷ c.waiting) (enabled_of c.term_handler)
      ≡ mode c.waiting (enabled_of c.term_handler)
    → Balanced n c
rest-Balanced n call c i e = record {
  small = i.small;
  fits = subst (λ m. FitsMode m c.pending_msg_counter) e i.fits;
  idle = tail-FitsHandler c.term_handler c.pending_msg_counter call c.waiting i.idle;
}

module _ (n : ℕ) (enabled : Bool) (c : TermClient)
    (i : Balanced n (record c { waiting = enable_read_from_terminals enabled ∷ c.waiting })) where
  -- A switch to the mode that there is.
  switched-Balanced : enabled ≡ enabled_of c.term_handler → Balanced n c
  unfolding mode
  switched-Balanced e = record {
    small = i.small;
    fits = subst (λ m. FitsMode (mode c.waiting m) c.pending_msg_counter) e i.fits;
    idle = tail-FitsHandler c.term_handler c.pending_msg_counter _ c.waiting i.idle;
  }

  enable_read-Balanced :
      (handler : TerminalHandler)
      → c.term_handler ≡ some handler
      → Balanced n (enable_read enabled handler c)
  unfolding enable_read mode
  enable_read-Balanced handler e =
      let opened : TerminalHandler = record handler { read_enabled = enabled } in
      elim (Bool-cases (same_bool handler.read_enabled enabled)) [
        | inl q ↦ rw q (
            switched-Balanced
              (sym (same_bool-eq handler.read_enabled enabled q) ∙ sym (ap enabled_of e)))
        | inr q ↦ rw q (
            subst (Balanced n)
              (sym (enable_all_lem handler.terminals enabled (put_handler opened c)))
              (record { small = i.small; fits = i.fits; idle = tt }))
      ]

  enable-Balanced :
      (o : Option TerminalHandler)
      → c.term_handler ≡ o
      → Balanced n (with_handler o (enable_read enabled) c)
  enable-Balanced none e =
      let harmless : FitsHandler none c.pending_msg_counter
          (enable_read_from_terminals enabled ∷ c.waiting) =
        subst
          (λ o.
            FitsHandler o c.pending_msg_counter (enable_read_from_terminals enabled ∷ c.waiting))
          e i.idle in
      switched-Balanced (harmless.1.0 ∙ sym (ap enabled_of e))
  enable-Balanced (some handler) e = enable_read-Balanced handler e

abbrev pub BalancedIfAny : ℕ → Option TermClient → Type 0
BalancedIfAny n none = Unit
BalancedIfAny n (some c) = Balanced n c

clear-BalancedIfAny :
    (n : ℕ) (c : TermClient) (o : Option TerminalHandler)
    → c.term_handler ≡ o
    → Balanced n c
    → BalancedIfAny n (clear_terminals o c)
clear-BalancedIfAny n c none e i = tt
clear-BalancedIfAny n c (some handler) e i =
    handler-Balanced n c i (record handler { terminals = [] }) (sym (ap enabled_of e))

-- The first call that waits has run; it did not change the mode, or was a switch to it.
run-BalancedIfAny :
    (n : ℕ) (init : ℕ → Bool) (call : ThreadCall) (c : TermClient)
    → Balanced n (record c { waiting = call ∷ c.waiting })
    → BalancedIfAny n (run init call c)
unfolding run mode
run-BalancedIfAny n init (handle_create_terminal t) c i =
    create-Balanced n init t c (rest-Balanced n _ c i refl)
run-BalancedIfAny n init (handle_delete_terminal t) c i =
    delete-Balanced n c (rest-Balanced n _ c i refl) t
run-BalancedIfAny n init (handle_resize_terminal t width height) c i =
    call_known-Balanced n c (rest-Balanced n _ c i refl) t _
run-BalancedIfAny n init (handle_terminal_write t key) c i =
    call_known-Balanced n c (rest-Balanced n _ c i refl) t _
run-BalancedIfAny n init (enable_read_from_terminals enabled) c i =
    enable-Balanced n enabled c i c.term_handler refl
run-BalancedIfAny n init (end_terminal t) c i =
    sent-Balanced n _ (delete-Balanced n c (rest-Balanced n _ c i refl) t) _
run-BalancedIfAny n init delete_terminals c i =
    clear-BalancedIfAny n c c.term_handler refl (rest-Balanced n _ c i refl)

pub take_first-BalancedIfAny :
    (n : ℕ) (init : ℕ → Bool) (calls : List ThreadCall) (c : TermClient)
    → c.waiting ≡ calls
    → Balanced n c
    → BalancedIfAny n (take_first init calls c)
take_first-BalancedIfAny n init [] c e i = i
take_first-BalancedIfAny n init (call ∷ calls) c e i =
    run-BalancedIfAny n init call (record c { waiting = calls })
      (subst (λ w. Balanced n (record c { waiting = w })) e i)
