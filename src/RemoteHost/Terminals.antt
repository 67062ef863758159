-- ===== src/RemoteHost/Terminals.antt =====
-- A terminal joins a host: webapp/remote.host.js.
use html_terminal.Prelude.{
  ℕ, Bool, true, false, Option, none, some, length, ltb, M, ◌>>=◌, ◌>>◌, gets, skip,
}
use html_terminal.App.{App, terminal, put_host}
use html_terminal.TermButton.{set_state, set_terminal, on_selected}
use html_terminal.RemoteHost.Create.{add_term_bt}
use html_terminal.RemoteHost.Select.{select_term_bt}

-- `this.connectingBt = c`
unfoldable pub connect : ℕ → ℕ → M App (Unit {0})
connect h c = do host ← gets (λ s. s.hosts h); put_host h (record host { connecting_bt = some c })

-- `if(this.buttons.length < 4) { this.connectingBt = this.addTermBt(null); }`
unfoldable pub add_waiting_below : ℕ → Bool → M App (Unit {0})
add_waiting_below h false = skip
add_waiting_below h true = add_term_bt h none >>= connect h

-- The first terminal of a host without a waiting button: it gets a button, and so does the next.
unfoldable pub add_first : ℕ → ℕ → M App (Unit {0})
add_first h t = do
  host ← gets (λ s. s.hosts h)
  put_host h (record host { active_terminal = some t })
  b ← add_term_bt h (some t)
  host' ← gets (λ s. s.hosts h)
  put_host h (record host' { selected_bt = some b })
  set_state b terminal
  on_selected b
  add_waiting_below h true

-- The waiting button `c` gets the terminal `t`.
unfoldable pub open_waiting : ℕ → ℕ → ℕ → M App (Unit {0})
open_waiting h c t = do
  host ← gets (λ s. s.hosts h)
  put_host h (record host { connecting_bt = none })
  set_terminal c (some t)
  set_state c terminal

-- The end of that branch.
unfoldable pub add_waiting : ℕ → M App (Unit {0})
add_waiting h = do host ← gets (λ s. s.hosts h); add_waiting_below h (ltb (length host.buttons) 4)

-- A terminal for the waiting button `c`.
unfoldable pub add_next : ℕ → ℕ → ℕ → M App (Unit {0})
add_next h c t = open_waiting h c t >> (select_term_bt h c >> add_waiting h)

abbrev pub add_to : ℕ → Option ℕ → ℕ → M App (Unit {0})
add_to h none t = add_first h t
add_to h (some c) t = add_next h c t

-- `addTerminal(terminal)`
unfoldable pub add_terminal : ℕ → ℕ → M App (Unit {0})
add_terminal h t = do host ← gets (λ s. s.hosts h); add_to h host.connecting_bt t
