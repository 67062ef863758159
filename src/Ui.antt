-- ===== src/Ui.antt =====
-- The state that webapp/terminal.view.js, terminal.node.js, filemode.node.js and messenger.js
-- share, and their calls of the document, the socket and xterm.
use html_terminal.Prelude.{
  ℕ, Bool, Option, none, some, List, ◌∷◌, Text, Dict, update, M, ok, throws, type_error,
  invalid_state,
}
use html_terminal.Dom.{Dom}
use html_terminal.Protocol.{Json}

-- An element of a directory listing: the object that the click handler of its row holds.
pub record Entry : Type 0 where
  pub name : Text
  pub display_name : Text
  pub is_dir : Bool
  pub size : ℕ
  pub last_mod : ℕ

pub record FileModeNode : Type 0 where
  pub id : ℕ
  pub node : ℕ
  pub header : ℕ
  pub contnet : ℕ
  pub current_elem : Option ℕ
  pub current_path : Option Text

-- `node` is none once `deleteNode` has made it null.
pub record TerminalNode : Type 0 where
  pub id : ℕ
  pub node : Option ℕ
  pub terminal_container : ℕ
  pub file_mode_node : FileModeNode
  pub file_mode_activated : Bool

-- `readyState`, with CLOSING as `closed`: in both a `send` is dropped.
pub data Socket : Type 0 where
  connecting opened closed : Socket

-- Calls that leave the program, of the socket, of xterm by terminal, and of a download link.
pub data Call : Type 0 where
  sent : Json → Call
  term_opened term_fitted term_focused : ℕ → Call
  term_wrote : ℕ → Text → Call
  downloaded : Text → Text → Call

-- What `Date` says of a timestamp in the browser's time zone: the date for en-GB, and the time.
pub record LocalTime : Type 0 where
  pub date : Text
  pub hours : ℕ
  pub minutes : ℕ
  pub seconds : ℕ

-- `terminals` and `entries` are stores of objects. `known`, `current` and `view_node` are the
-- fields `terminals`, `currentTerminal` and `node` of `TerminalView`. `clicks` gives the entry that
-- the click handler of a node holds. `calls` has the latest call first.
pub record Ui : Type 0 where
  pub dom : Dom
  pub terminals : ℕ → TerminalNode
  pub next_terminal : ℕ
  pub entries : ℕ → Entry
  pub next_entry : ℕ
  pub clicks : ℕ → Option ℕ
  pub known : Dict ℕ
  pub current : Option ℕ
  pub view_node : ℕ
  pub socket : Option Socket
  pub calls : List Call
  pub local_time : ℕ → LocalTime

-- `document.body`
abbrev pub body : ℕ
body = 0

abbrev pub on_dom : {A : Type 0} → M Dom A → M Ui A
on_dom m u = let (r, d) = m u.dom in (r, record u { dom = d })

abbrev pub call : Call → M Ui (Unit {0})
call c u = (ok tt, record u { calls = c ∷ u.calls })

-- `this.terminals` of a terminal, and its fields.
abbrev pub put_terminal : ℕ → TerminalNode → M Ui (Unit {0})
put_terminal t v u = (ok tt, record u { terminals = update u.terminals t v })

send_on : Option Socket → Json → M Ui (Unit {0})
send_on none msg u = (throws type_error, u)
send_on (some connecting) msg u = (throws invalid_state, u)
send_on (some opened) msg u = (ok tt, record u { calls = sent msg ∷ u.calls })
send_on (some closed) msg u = (ok tt, u)

-- `send(msg)` of messenger.js: a socket that is closed drops the message.
unfoldable pub send : Json → M Ui (Unit {0})
unfolding send_on
send msg u = send_on u.socket msg u
