-- ===== src/TermClient/Resuming.antt =====
-- How reading from the terminals stops and starts again in TerminalClient.cpp.
use html_terminal.Prelude.{
  ℕ, zero, suc, ◌+◌, ◌-◌, ◌%◌, ◌^◌, ◌<◌, ◌≡◌, refl, sym, ap, ◌∙◌, subst, Bool, true, false, not,
  ◌&&◌, ◌||◌, some, List, [], ◌∷◌, ◌++◌, All, All-append, ltb, leb, arith, Bool-cases, inl, inr,
  length,
}
use html_terminal.TermClient.{
  read_block_high, read_block_low, TerminalHandler, TermClient, enable_read_from_terminals,
  resolve_pending_msg_updated, on_read_ack, read_terminal,
}
use html_terminal.TermClient.Flow.{mode, mode-append, enabled_of}
use html_terminal.TermClient.Switches.{turns, IsSwitch, AreTold, turns_lem}

unfoldable pub acks : ℕ → TermClient → TermClient
unfolding on_read_ack
acks zero c = c
acks (suc k) c = acks k (on_read_ack c)

-- `ResolvePendingMsgUpdated` posts switches only.
resolve-IsSwitch :
    (c : TermClient)
    → All IsSwitch c.waiting
    → All IsSwitch (resolve_pending_msg_updated c).waiting
      × ((resolve_pending_msg_updated c).term_handler ≡ c.term_handler)
      × ((resolve_pending_msg_updated c).pending_msg_counter ≡ c.pending_msg_counter)
      × ((resolve_pending_msg_updated c).calls ≡ c.calls)
unfolding resolve_pending_msg_updated
resolve-IsSwitch c w =
    let k = c.pending_msg_counter in
    let added : (enabled : Bool)
        → All IsSwitch (c.waiting ++ (enable_read_from_terminals enabled ∷ [])) =
      λ enabled.
        All-append IsSwitch c.waiting (enable_read_from_terminals enabled ∷ []) w (tt, tt) in
    elim (Bool-cases (ltb read_block_high k && not (leb (2 ^ 31) k))) [
      | inl e ↦ rw e (added false, refl, refl, refl)
      | inr e ↦ elim (Bool-cases (ltb k read_block_low || leb (2 ^ 31) k)) [
        | inl f ↦ rw (e, f) (added true, refl, refl, refl)
        | inr f ↦ rw (e, f) (w, refl, refl, refl)
      ]
    ]

abbrev acked : TermClient → TermClient
acked c = record c { pending_msg_counter = (c.pending_msg_counter + (2 ^ 32 - 1)) % 2 ^ 32 }

on_read_ack-IsSwitch :
    (k : ℕ) (c : TermClient)
    → c.pending_msg_counter ≡ 5 + k
    → 5 + k < 2 ^ 31
    → All IsSwitch c.waiting
    → All IsSwitch (on_read_ack c).waiting
      × ((on_read_ack c).term_handler ≡ c.term_handler)
      × ((on_read_ack c).pending_msg_counter ≡ 4 + k)
      × ((on_read_ack c).calls ≡ c.calls)
unfolding on_read_ack
on_read_ack-IsSwitch k c e small w =
    let less : (c.pending_msg_counter + (2 ^ 32 - 1)) % 2 ^ 32 ≡ 4 + k = omega arith in
    let (switches, same, kept, calls) = resolve-IsSwitch (acked c) w in
    (switches, same, kept ∙ less, calls)

-- The fifth message from the last opens the terminals.
on_read_ack_opens :
    (c : TermClient)
    → c.pending_msg_counter ≡ 5
    → (on_read_ack c).waiting ≡ c.waiting ++ (enable_read_from_terminals true ∷ [])
unfolding on_read_ack resolve_pending_msg_updated
on_read_ack_opens c e =
    let four : (c.pending_msg_counter + (2 ^ 32 - 1)) % 2 ^ 32 ≡ 4 = omega arith in rw four refl

acks_lem :
    (k : ℕ) (c : TermClient)
    → c.pending_msg_counter ≡ 5 + k
    → 5 + k < 2 ^ 31
    → All IsSwitch c.waiting
    → All IsSwitch (acks (suc k) c).waiting
      × ((acks (suc k) c).term_handler ≡ c.term_handler)
      × ((m : Bool) → mode (acks (suc k) c).waiting m ≡ true)
      × ((acks (suc k) c).calls ≡ c.calls)
unfolding acks mode
acks_lem zero c e small w =
    let (switches, same, four, calls) = on_read_ack-IsSwitch 0 c e small w in
    (
      switches,
      same,
      λ m.
          rw (on_read_ack_opens c e, mode-append c.waiting (enable_read_from_terminals true ∷ []) m)
            refl,
      calls,
    )
acks_lem (suc k) c e small w =
    let (switches, same, less, calls) = on_read_ack-IsSwitch (suc k) c e small w in
    let (switches', same', ends, calls') =
      acks_lem k (on_read_ack c) (omega (arith, less)) (omega arith) switches in
    (switches', same' ∙ same, ends, calls' ∙ calls)

-- When no call waits, at least 5 messages are not acknowledged, and each terminal was last told whether
-- reading is enabled, reading is enabled again once all messages but 4 are acknowledged and the calls
-- that this posts have run: the handler has it so, and each terminal was last told so.
pub reading_resumes :
    (init : ℕ → Bool) (k : ℕ) (handler : TerminalHandler) (c : TermClient)
    → c.waiting ≡ []
    → c.term_handler ≡ some handler
    → AreTold handler.read_enabled handler.terminals c.calls
    → c.pending_msg_counter ≡ 5 + k
    → 5 + k < 2 ^ 31
    → let c₁ = acks (suc k) c in
      (c' : TermClient) × (turns init (length c₁.waiting) c₁ ≡ some c')
      × (enabled_of c'.term_handler ≡ true)
      × AreTold true handler.terminals c'.calls
reading_resumes init k handler c empty has told e small =
    let (switches, same, ends, calls) =
      acks_lem k c e small (subst (All IsSwitch) (sym empty) tt) in
    let told₁ = subst (AreTold handler.read_enabled handler.terminals) (sym calls) told in
    let (c', ran, last, told') =
      turns_lem init _ handler (acks (suc k) c) refl switches (same ∙ has) told₁ in
    let opened = ends handler.read_enabled in
    (c', ran, last ∙ opened, subst (λ b. AreTold b handler.terminals c'.calls) opened told')

-- A read over the limit posts the switch.
read_terminal_blocks :
    (t k : ℕ) (output : List ℕ) (c : TermClient)
    → c.pending_msg_counter ≡ 10 + k
    → 11 + k < 2 ^ 31
    → let c₁ = read_terminal t output c in
      (c₁.waiting ≡ c.waiting ++ (enable_read_from_terminals false ∷ []))
      × (c₁.term_handler ≡ c.term_handler)
      × (c₁.calls ≡ c.calls)
      × (c₁.pending_msg_counter ≡ 11 + k)
unfolding read_terminal resolve_pending_msg_updated
read_terminal_blocks t k output c e small =
    let more : (c.pending_msg_counter + 1) % 2 ^ 32 ≡ 11 + k = omega arith in
    let high : ltb 10 (11 + k) ≡ true = ground arith in
    let positive : leb (2 ^ 31) (11 + k) ≡ false = ground arith in
    rw (more, high, positive) (refl, refl, refl, refl)

-- When no call waits, at least 10 messages are not acknowledged, and each terminal was last told whether
-- reading is enabled, a message more disables reading once the call that it posts has run: the handler
-- has it so, and each terminal was last told so.
pub reading_stops :
    (init : ℕ → Bool) (t k : ℕ) (output : List ℕ) (handler : TerminalHandler) (c : TermClient)
    → c.waiting ≡ []
    → c.term_handler ≡ some handler
    → AreTold handler.read_enabled handler.terminals c.calls
    → c.pending_msg_counter ≡ 10 + k
    → 11 + k < 2 ^ 31
    → (c' : TermClient) × (turns init 1 (read_terminal t output c) ≡ some c')
      × (enabled_of c'.term_handler ≡ false)
      × AreTold false handler.terminals c'.calls
unfolding mode
reading_stops init t k output handler c empty has told e small =
    let (waits, same, calls, _) = read_terminal_blocks t k output c e small in
    turns_lem init (enable_read_from_terminals false ∷ []) handler (read_terminal t output c)
      (waits ∙ ap (λ w. w ++ (enable_read_from_terminals false ∷ [])) empty) (tt, tt) (same ∙ has)
      (subst (AreTold handler.read_enabled handler.terminals) (sym calls) told)
