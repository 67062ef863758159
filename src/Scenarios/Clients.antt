-- ===== src/Scenarios/Clients.antt =====
-- The theorems on the client of a remote host, at a client with one terminal.
use html_terminal.Prelude.{ℕ, ◌≡◌, refl, Bool, true, false, none, some, [], ◌∷◌, length, arith}
use html_terminal.TermClient.{
  TermClient, enable_read_called, read_terminal, handle_disconnected, turn,
}
use html_terminal.TermClient.Flow.{connected, enabled_of}
use html_terminal.TermClient.Limits.{handle_disconnected_lem}
use html_terminal.TermClient.Switches.{turns, AreTold}
use html_terminal.TermClient.Resuming.{acks, reading_resumes, reading_stops}

abbrev starts : ℕ → Bool
starts t = true

handle_disconnected_lem_example : turn starts (handle_disconnected connected) ≡ none
handle_disconnected_lem_example = handle_disconnected_lem starts connected refl

-- A client that waits for acknowledgements.
abbrev blocked : TermClient
blocked = record {
  pending_msg_counter = 11;
  term_handler = some (record { terminals = (1, 1) ∷ []; read_enabled = false });
  waiting = [];
  calls = enable_read_called 1 false ∷ [];
  sent = [];
}

reading_resumes_example :
    let c₁ = acks 7 blocked in
    (c' : TermClient) × (turns starts (length c₁.waiting) c₁ ≡ some c')
    × (enabled_of c'.term_handler ≡ true)
    × AreTold true ((1, 1) ∷ []) c'.calls
reading_resumes_example =
    reading_resumes starts 6 (record { terminals = (1, 1) ∷ []; read_enabled = false }) blocked refl
      refl (refl, tt) refl (omega arith)

-- A client that has as many messages to wait for as it may.
abbrev full : TermClient
full = record blocked {
  pending_msg_counter = 10;
  term_handler = some (record { terminals = (1, 1) ∷ []; read_enabled = true });
  calls = enable_read_called 1 true ∷ [];
}

reading_stops_example :
    (c' : TermClient) × (turns starts 1 (read_terminal 1 (104 ∷ []) full) ≡ some c')
    × (enabled_of c'.term_handler ≡ false)
    × AreTold false ((1, 1) ∷ []) c'.calls
reading_stops_example =
    reading_stops starts 1 0 (104 ∷ []) (record { terminals = (1, 1) ∷ []; read_enabled = true })
      full refl refl (refl, tt) refl (omega arith)
