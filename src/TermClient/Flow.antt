-- ===== src/TermClient/Flow.antt =====
-- How TerminalClient.cpp holds back the output of its terminals, while its first connection lasts.
use html_terminal.Prelude.{
  ℕ, suc, ◌^◌, ◌≤◌, ◌<◌, ◌≡◌, refl, Bool, true, false, Option, none, some, List, [], ◌∷◌, ◌++◌,
  is_some, All, ltb, leb, arith, Bool-cases, inl, inr,
}
use html_terminal.TermClient.{
  TerminalHandler, TermClient, ThreadCall, handle_create_terminal, handle_delete_terminal,
  handle_resize_terminal, handle_terminal_write, enable_read_from_terminals, end_terminal,
  delete_terminals, reply, pong, post, resolve_pending_msg_updated, on_read_ack, read_terminal,
  turn,
}

-- What the server and the ends of terminals post.
abbrev pub from_outside : ThreadCall → Bool
from_outside (enable_read_from_terminals enabled) = false
from_outside delete_terminals = false
from_outside _ = true

-- A terminal that there is writes output, a ping is answered, the server acknowledges a message, a call
-- comes, or the thread has a turn.
pub data Step (c : TermClient) : TermClient → Type 0 where
  reads :
      (t : ℕ) (output : List ℕ) → is_some c.term_handler ≡ true → Step c (read_terminal t output c)
  answers : Step c (reply pong c)
  acknowledged : 1 ≤ c.pending_msg_counter → Step c (on_read_ack c)
  arrives : (call : ThreadCall) → from_outside call ≡ true → Step c (post call c)
  runs : (init : ℕ → Bool) {c' : TermClient} → turn init c ≡ some c' → Step c c'

-- A client at the beginning of its first connection; at a later one `_term_handler` is still there.
abbrev pub connected : TermClient
connected = record {
  pending_msg_counter = 0;
  term_handler = none;
  waiting = [];
  calls = [];
  sent = [];
}

pub data Reach : ℕ → TermClient → Type 0 where
  here : Reach 0 connected
  next : {n : ℕ} {c c' : TermClient} → Reach n c → Step c c' → Reach (suc n) c'

-- Whether reading is enabled once the calls have run.
unfoldable pub mode : List ThreadCall → Bool → Bool
mode [] m = m
mode (enable_read_from_terminals enabled ∷ calls) m = mode calls enabled
mode (handle_create_terminal t ∷ calls) m = mode calls m
mode (handle_delete_terminal t ∷ calls) m = mode calls m
mode (handle_resize_terminal t width height ∷ calls) m = mode calls m
mode (handle_terminal_write t key ∷ calls) m = mode calls m
mode (end_terminal t ∷ calls) m = mode calls m
mode (delete_terminals ∷ calls) m = mode calls m

pub mode-append : (xs ys : List ThreadCall) (m : Bool) → mode (xs ++ ys) m ≡ mode ys (mode xs m)
unfolding mode
mode-append [] ys m = refl
mode-append (enable_read_from_terminals enabled ∷ xs) ys m = mode-append xs ys enabled
mode-append (handle_create_terminal t ∷ xs) ys m = mode-append xs ys m
mode-append (handle_delete_terminal t ∷ xs) ys m = mode-append xs ys m
mode-append (handle_resize_terminal t width height ∷ xs) ys m = mode-append xs ys m
mode-append (handle_terminal_write t key ∷ xs) ys m = mode-append xs ys m
mode-append (end_terminal t ∷ xs) ys m = mode-append xs ys m
mode-append (delete_terminals ∷ xs) ys m = mode-append xs ys m

abbrev pub enabled_of : Option TerminalHandler → Bool
enabled_of none = true
enabled_of (some handler) = handler.read_enabled

abbrev pub FitsMode : Bool → ℕ → Type 0
FitsMode true counter = counter ≤ 10
FitsMode false counter = 5 ≤ counter

-- A call that a client without terminals can have waiting.
abbrev pub IsHarmless : ThreadCall → Type 0
IsHarmless (enable_read_from_terminals enabled) = enabled ≡ true
IsHarmless _ = Unit

abbrev pub FitsHandler : Option TerminalHandler → ℕ → List ThreadCall → Type 0
FitsHandler none counter waiting = (counter ≡ 0) × All IsHarmless waiting
FitsHandler (some handler) counter waiting = Unit

pub record Balanced (n : ℕ) (c : TermClient) : Type 0 where
  pub small : c.pending_msg_counter ≤ n
  pub fits : FitsMode (mode c.waiting (enabled_of c.term_handler)) c.pending_msg_counter
  pub idle : FitsHandler c.term_handler c.pending_msg_counter c.waiting

pub connected-Balanced : Balanced 0 connected
unfolding mode
connected-Balanced = record { small = omega arith; fits = omega arith; idle = (refl, tt) }

pub some-FitsHandler :
    (o : Option TerminalHandler) (k : ℕ) (calls : List ThreadCall)
    → is_some o ≡ true
    → FitsHandler o k calls
some-FitsHandler none k calls e = cc
some-FitsHandler (some handler) k calls e = tt

pub tail-FitsHandler :
    (o : Option TerminalHandler) (k : ℕ) (call : ThreadCall) (calls : List ThreadCall)
    → FitsHandler o k (call ∷ calls)
    → FitsHandler o k calls
tail-FitsHandler none k call calls (e, f) = (e, f.1)
tail-FitsHandler (some handler) k call calls f = tt

either-FitsMode : (m : Bool) (k : ℕ) → 5 ≤ k → k ≤ 10 → FitsMode m k
either-FitsMode true k low high = high
either-FitsMode false k low high = low

-- Whatever the counter is, the calls that wait fit it after `ResolvePendingMsgUpdated`.
pub resolve-Balanced :
    (n : ℕ) (c : TermClient)
    → n < 2 ^ 31
    → c.pending_msg_counter ≤ n
    → is_some c.term_handler ≡ true
    → Balanced n (resolve_pending_msg_updated c)
unfolding resolve_pending_msg_updated mode
resolve-Balanced n c small le there =
    let k = c.pending_msg_counter in
    let positive : leb (2 ^ 31) k ≡ false = ground arith in
    elim (Bool-cases (ltb 10 k)) [
      | inl high ↦
          rw (positive, high)
            (record {
              small = le;
              fits =
                  rw
                    (mode-append c.waiting (enable_read_from_terminals false ∷ [])
                      (enabled_of c.term_handler))
                    (ground arith);
              idle = some-FitsHandler c.term_handler k _ there;
            })
      | inr high ↦ elim (Bool-cases (ltb k 5)) [
        | inl low ↦
            rw (positive, high, low)
              (record {
                small = le;
                fits =
                    rw
                      (mode-append c.waiting (enable_read_from_terminals true ∷ [])
                        (enabled_of c.term_handler))
                      (ground arith);
                idle = some-FitsHandler c.term_handler k _ there;
              })
        | inr low ↦
            rw (positive, high, low)
              (record {
                small = le;
                fits =
                    either-FitsMode (mode c.waiting (enabled_of c.term_handler)) k (ground arith)
                      (ground arith);
                idle = some-FitsHandler c.term_handler k _ there;
              })
      ]
    ]
