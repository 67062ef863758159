-- ===== src/TermClient.antt =====
-- TerminalClient.cpp and TerminalHandler.cpp: the client on a remote host, which has the terminals and
-- holds back their output while the server has not acknowledged enough of it. `Terminal` is of the
-- cpp_utils submodule: `calls` has the calls of terminals, the latest first, and `init` says which
-- terminals `Init` can start.
pub mod Flow
pub mod Backpressure
pub mod Limits
pub mod Switches
pub mod Resuming
pub mod Dispatch
use html_terminal.Prelude.{
  ℕ, ◌+◌, ◌-◌, ◌%◌, ◌^◌, Bool, true, false, not, ◌&&◌, ◌||◌, Option, none, some, List, [], ◌∷◌,
  ◌++◌, Text, Dict, lookup, is_some, ltb, leb, if◌then◌else◌,
}
use html_terminal.Server.Tables.{place, remove}

-- The calls of terminals, by their ids.
pub data TerminalCall : Type 0 where
  init_called : ℕ → TerminalCall
  resize_called : ℕ → ℕ → ℕ → TerminalCall
  write_called : ℕ → Text → TerminalCall
  enable_read_called : ℕ → Bool → TerminalCall

-- What the server is sent.
pub data Reply : Type 0 where
  on_terminal_created : ℕ → Bool → Reply
  on_terminal_read : ℕ → List ℕ → Reply
  on_terminal_end : ℕ → Reply
  client_info : Text → Text → Reply
  ping pong : Reply

-- A call that waits for the thread of the client.
pub data ThreadCall : Type 0 where
  handle_create_terminal handle_delete_terminal : ℕ → ThreadCall
  handle_resize_terminal : ℕ → ℕ → ℕ → ThreadCall
  handle_terminal_write : ℕ → Text → ThreadCall
  enable_read_from_terminals : Bool → ThreadCall
  end_terminal : ℕ → ThreadCall
  delete_terminals : ThreadCall

-- `terminals` leads from the id of a terminal to the terminal, which is known by its id.
pub record TerminalHandler : Type 0 where
  pub terminals : Dict ℕ
  pub read_enabled : Bool

-- `pending_msg_counter` is an `int`, by its 32 bits. `waiting` are the calls for the thread.
pub record TermClient : Type 0 where
  pub pending_msg_counter : ℕ
  pub term_handler : Option TerminalHandler
  pub waiting : List ThreadCall
  pub calls : List TerminalCall
  pub sent : List Reply

abbrev pub read_block_high : ℕ
read_block_high = 10

abbrev pub read_block_low : ℕ
read_block_low = 5

abbrev pub post : ThreadCall → TermClient → TermClient
post call c = record c { waiting = c.waiting ++ (call ∷ []) }

abbrev pub reply : Reply → TermClient → TermClient
reply msg c = record c { sent = msg ∷ c.sent }

abbrev pub call_terminal : TerminalCall → TermClient → TermClient
call_terminal call c = record c { calls = call ∷ c.calls }

-- An `int` is negative from 2 ^ 31 on.
abbrev is_negative : ℕ → Bool
is_negative x = leb (2 ^ 31) x

-- `ResolvePendingMsgUpdated()`
unfoldable pub resolve_pending_msg_updated : TermClient → TermClient
resolve_pending_msg_updated c =
    let counter = c.pending_msg_counter in
    let blocked = post (enable_read_from_terminals false) c in
    let released = post (enable_read_from_terminals true) c in
    if ltb read_block_high counter && not (is_negative counter)
    then blocked
    else if ltb counter read_block_low || is_negative counter
    then released
    else c

-- `ON_TERMINAL_READ_ACK` in `OnClientRead`
unfoldable pub on_read_ack : TermClient → TermClient
unfolding resolve_pending_msg_updated
on_read_ack c =
    resolve_pending_msg_updated
      (record c { pending_msg_counter = (c.pending_msg_counter + (2 ^ 32 - 1)) % 2 ^ 32 })

-- `OnTerminalRead(terminal, output)`
unfoldable pub read_terminal : ℕ → List ℕ → TermClient → TermClient
unfolding resolve_pending_msg_updated
read_terminal terminal_id output c = resolve_pending_msg_updated (
    reply (on_terminal_read terminal_id output)
      (record c { pending_msg_counter = (c.pending_msg_counter + 1) % 2 ^ 32 }))

-- `HandleDisconnected()`
unfoldable pub handle_disconnected : TermClient → TermClient
handle_disconnected c = post delete_terminals (record c { pending_msg_counter = 0 })

abbrev pub with_handler :
    Option TerminalHandler → (TerminalHandler → TermClient → TermClient) → TermClient → TermClient
with_handler none f c = c
with_handler (some handler) f c = f handler c

abbrev pub put_handler : TerminalHandler → TermClient → TermClient
put_handler handler c = record c { term_handler = some handler }

-- `TerminalHandler::CreateTerminal(terminal_id)`, and its result.
unfoldable pub create_terminal : (ℕ → Bool) → ℕ → TerminalHandler → TermClient → TermClient × Bool
unfolding place
create_terminal init t handler c =
    if is_some (lookup t handler.terminals) then (put_handler handler c, false) else (
      call_terminal (init_called t)
          (put_handler (record handler { terminals = place t t handler.terminals }) c),
      init t,
    )

-- `_term_handler`, made if there is none.
abbrev pub handler_or_new : Option TerminalHandler → TerminalHandler
handler_or_new none = record { terminals = []; read_enabled = true }
handler_or_new (some handler) = handler

-- `HandleCreateTerminal(msg_data)`, of a terminal id
unfoldable pub create : (ℕ → Bool) → ℕ → TermClient → TermClient
unfolding create_terminal
create init t c =
    let (c', result) = create_terminal init t (handler_or_new c.term_handler) c in
    reply (on_terminal_created t result) c'

-- `TerminalHandler::DeleteTerminal(terminal_id)`
unfoldable pub delete_terminal : ℕ → TerminalHandler → TermClient → TermClient
unfolding remove
delete_terminal t handler = put_handler (record handler { terminals = remove t handler.terminals })

-- A call of a terminal that the handler has.
unfoldable pub call_known : ℕ → TerminalCall → TerminalHandler → TermClient → TermClient
call_known t call handler c =
    if is_some (lookup t handler.terminals) then call_terminal call c else c

abbrev pub enable_all : Dict ℕ → Bool → TermClient → TermClient
enable_all [] enabled c = c
enable_all ((t, _) ∷ terminals) enabled c =
    enable_all terminals enabled (call_terminal (enable_read_called t enabled) c)

abbrev pub same_bool : Bool → Bool → Bool
same_bool true b = b
same_bool false b = not b

-- `TerminalHandler::EnableReadFromTerminals(enabled)`
unfoldable pub enable_read : Bool → TerminalHandler → TermClient → TermClient
enable_read enabled handler c =
    if same_bool handler.read_enabled enabled
    then c
    else enable_all handler.terminals enabled
        (put_handler (record handler { read_enabled = enabled }) c)

abbrev pub clear_terminals : Option TerminalHandler → TermClient → Option TermClient
clear_terminals none c = none
clear_terminals (some handler) c = some (put_handler (record handler { terminals = [] }) c)

-- A call that waited runs; none where it follows the null pointer `_term_handler`.
unfoldable pub run : (ℕ → Bool) → ThreadCall → TermClient → Option TermClient
unfolding create delete_terminal call_known enable_read
run init (handle_create_terminal t) c = some (create init t c)
run init (handle_delete_terminal t) c = some (with_handler c.term_handler (delete_terminal t) c)
run init (handle_resize_terminal t width height) c =
    some (with_handler c.term_handler (call_known t (resize_called t width height)) c)
run init (handle_terminal_write t key) c =
    some (with_handler c.term_handler (call_known t (write_called t key)) c)
run init (enable_read_from_terminals enabled) c =
    some (with_handler c.term_handler (enable_read enabled) c)
run init (end_terminal t) c =
    some (reply (on_terminal_end t) (with_handler c.term_handler (delete_terminal t) c))
run init delete_terminals c = clear_terminals c.term_handler c

abbrev pub take_first : (ℕ → Bool) → List ThreadCall → TermClient → Option TermClient
take_first init [] c = some c
take_first init (call ∷ calls) c = run init call (record c { waiting = calls })

-- A turn of the thread, which sleeps while no call waits; none where the call follows the null pointer.
unfoldable pub turn : (ℕ → Bool) → TermClient → Option TermClient
unfolding run
turn init c = take_first init c.waiting c
