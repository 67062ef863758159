-- ===== src/Server/Loops.antt =====
-- The two threads of the control server, and the network that posts to them: a turn of a thread runs
-- the first call that waits for it. `up` may differ from turn to turn.
use html_terminal.Prelude.{
  ℕ, suc, ◌≡◌, refl, subst, arith, ◌++◌, Bool, true, false, Option, none, some, List, [], ◌∷◌, Text,
}
use html_terminal.Server.State.{
  Server, WebCall, on_ws_client_message, add_client, remove_client, on_remote_host_info_received,
  on_file_transfer_data_received, TermCall, handle_terminal_created, handle_terminal_read,
  handle_terminal_end, on_client_closed, post_web, post_term,
}
use html_terminal.Server.Terminals.{run_term}
use html_terminal.Server.Web.{run_web, perpare_file_download_response}

-- The calls that the server library makes for what a web client or a remote host does.
abbrev pub from_network : WebCall → Bool
from_network (on_ws_client_message c json) = true
from_network (add_client c) = true
from_network (remove_client c) = true
from_network (on_remote_host_info_received h ip user_name name) = true
from_network (on_file_transfer_data_received id part) = true
from_network _ = false

abbrev pub from_host : TermCall → Bool
from_host (handle_terminal_created h t success) = true
from_host (handle_terminal_read h t output) = true
from_host (handle_terminal_end h t) = true
from_host (on_client_closed h) = true
from_host _ = false

abbrev pub take_web : (ℕ → Bool) → List WebCall → Server → Option Server
take_web up [] s = none
take_web up (call ∷ calls) s = run_web up call (record s { web_calls = calls })

abbrev pub take_term : (ℕ → Bool) → List TermCall → Server → Option Server
take_term up [] s = none
take_term up (call ∷ calls) s = some (run_term up call (record s { term_calls = calls }))

-- A turn of the thread of `WebAppServer`; none where no call waits, or the call throws.
unfoldable pub web_turn : (ℕ → Bool) → Server → Option Server
unfolding run_web
web_turn up s = take_web up s.web_calls s

-- A turn of the thread of `TerminalServer`; none where no call waits.
unfoldable pub term_turn : (ℕ → Bool) → Server → Option Server
unfolding run_term
term_turn up s = take_term up s.term_calls s

-- The steps of the server, in any order. A download is asked for on the thread of the HTTP server, and
-- a thread may run any of the calls that wait for it.
pub data Step (s : Server) : Server → Type 0 where
  web_arrives : (call : WebCall) → from_network call ≡ true → Step s (post_web call s)
  host_arrives : (call : TermCall) → from_host call ≡ true → Step s (post_term call s)
  download :
      (up : ℕ → Bool) (client terminal_id : ℕ) (path : Text)
      → Step s (perpare_file_download_response up client terminal_id path s)
  web_runs :
      (up : ℕ → Bool) (before : List WebCall) (call : WebCall) (after : List WebCall) {s' : Server}
      → s.web_calls ≡ before ++ (call ∷ after)
      → run_web up call (record s { web_calls = before ++ after }) ≡ some s'
      → Step s s'
  term_runs :
      (up : ℕ → Bool) (before : List TermCall) (call : TermCall) (after : List TermCall)
      → s.term_calls ≡ before ++ (call ∷ after)
      → Step s (run_term up call (record s { term_calls = before ++ after }))

web_step :
    (up : ℕ → Bool) (calls : List WebCall) (s s' : Server)
    → s.web_calls ≡ calls
    → take_web up calls s ≡ some s'
    → Step s s'
web_step up [] s s' e f = cc
web_step up (call ∷ calls) s s' e f = web_runs up [] call calls e f

term_step :
    (up : ℕ → Bool) (calls : List TermCall) (s s' : Server)
    → s.term_calls ≡ calls
    → take_term up calls s ≡ some s'
    → Step s s'
term_step up [] s s' e f = cc
term_step up (call ∷ calls) s s' e f =
    let same : run_term up call (record s { term_calls = calls }) ≡ s' = ground (arith, f) in
    subst (Step s) same (term_runs up [] call calls e)

-- A turn is a step.
pub web_turn-Step : (up : ℕ → Bool) (s s' : Server) → web_turn up s ≡ some s' → Step s s'
unfolding web_turn
web_turn-Step up s s' e = web_step up s.web_calls s s' refl e

pub term_turn-Step : (up : ℕ → Bool) (s s' : Server) → term_turn up s ≡ some s' → Step s s'
unfolding term_turn
term_turn-Step up s s' e = term_step up s.term_calls s s' refl e

abbrev pub start : Server
start = record {
  web_app_sessions = [];
  transfer_sessions = [];
  transfer_id_counter = 0;
  active_remote_hosts = [];
  remote_hosts = [];
  id_counter = 0;
  web_calls = [];
  term_calls = [];
  sent = [];
}

-- What the server may become in `n` steps.
pub data Reach : ℕ → Server → Type 0 where
  here : Reach 0 start
  next : {n : ℕ} {s s' : Server} → Reach n s → Step s s' → Reach (suc n) s'
