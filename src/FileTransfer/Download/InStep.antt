-- ===== src/FileTransfer/Download/InStep.antt =====
-- Downloads whose parts are passed on one by one.
use html_terminal.Prelude.{
  ℕ, zero, suc, ◌+◌, ◌%◌, ◌^◌, ◌≤◌, ◌<◌, ◌≡◌, refl, sym, ap, subst, ◌∙◌, Bool, true, false, none,
  some, List, [], ◌∷◌, lookup, All, length, ◌==◌, if◌then◌else◌, arith, eq-true,
}
use html_terminal.Server.Tables.{lookup-remove}
use html_terminal.Server.State.{
  Server, Sent, to_http, file_header, file_data, send, FileTransferSession,
}
use html_terminal.Server.Sessions.{erase_file_transfer_session}
use html_terminal.Server.Web.{on_file_transfer_data_received, when_all_received, pass_on}
use html_terminal.FileTransfer.{FileTransfer, on_client_read, handle_file_transfer_msg}
use html_terminal.FileTransfer.Download.{
  Download, Outside, raw, arrive, part_of, turn, serve, total,
}

-- A transfer that waits for raw data, after `n` parts of `r` bytes in all, of `size` bytes. A session
-- of the server for a download of the browser `c` belongs to it, and no call waits.
pub record IsAt (session : FileTransferSession) (size n r : ℕ) (d : Download) : Type 0 where
  pub found : lookup d.transfer.req_id d.server.transfer_sessions ≡ some session
  pub download : session.terminal_id ≡ 0
  pub awaits : d.transfer.awaing_raw_data ≡ true
  pub expected : d.transfer.expected_file_size ≡ size
  pub counter : d.transfer.data_transfer_counter ≡ n
  pub received : d.transfer.received_file_size ≡ r
  pub idle : d.posted ≡ []

abbrev pub sent_parts : ℕ → List (List ℕ) → List Sent → List Sent
sent_parts c [] sent = sent
sent_parts c (bytes ∷ parts) sent = sent_parts c parts (to_http c (file_data bytes) ∷ sent)

abbrev pub IsFull : List ℕ → Type 0
IsFull bytes = 1 ≤ length bytes

-- `HandleFileTransferMsg(msg)`
abbrev pub taken : List ℕ → FileTransfer → FileTransfer
taken bytes t = record t {
  data_transfer_counter = (t.data_transfer_counter + 1) % 2 ^ 32;
  received_file_size = (t.received_file_size + length bytes) % 2 ^ 64;
}

module _ (out : Outside) (session : FileTransferSession) (size : ℕ) where
  abbrev browser : ℕ
  browser = session.web_app_client

  -- The header stands before the first part.
  abbrev pub headed : ℕ → List Sent → List Sent
  headed zero sent = to_http browser (file_header size) ∷ sent
  headed (suc n) sent = sent

  abbrev passed : List ℕ → ℕ → Download → Server
  passed bytes n d = record d.server {
    sent = to_http browser (file_data bytes) ∷ headed n d.server.sent;
  }

  -- With the answer of the test, and the size, apart.
  abbrev passed_if : List ℕ → Server → Bool → ℕ → Server
  passed_if bytes s first expected = record s {
    sent =
        to_http browser (file_data bytes)
        ∷ (if first then to_http browser (file_header expected) ∷ s.sent else s.sent);
  }

  send_if :
      (bytes : List ℕ) (s : Server) (first : Bool) (expected : ℕ)
      → send
          (to_http browser (file_data bytes))
          (if first then send (to_http browser (file_header expected)) s else s)
        ≡ passed_if bytes s first expected
  send_if bytes s true expected = refl
  send_if bytes s false expected = refl

  passed_if-passed :
      (n : ℕ) (bytes : List ℕ) (d : Download)
      → passed_if bytes d.server (n == 0) size ≡ passed bytes n d
  passed_if-passed zero bytes d = refl
  passed_if-passed (suc n) bytes d =
      let later : (suc n == 0) ≡ false = ground arith in
      ap (λ first. passed_if bytes d.server first size) later

  module _ (n r : ℕ) (bytes : List ℕ) (d : Download) (at : IsAt session size n r d) where
    abbrev t' : FileTransfer
    t' = taken bytes d.transfer

    first_or_not : suc n < 2 ^ 32 → (t'.data_transfer_counter == 1) ≡ (n == 0)
    first_or_not small = ground (arith, at.counter)

    pass_on-passed :
        suc n < 2 ^ 32 → pass_on session (part_of out t' bytes) d.server ≡ passed bytes n d
    pass_on-passed small =
        send_if bytes d.server (t'.data_transfer_counter == 1) t'.expected_file_size
        ∙ ap (λ first. passed_if bytes d.server first t'.expected_file_size) (first_or_not small)
        ∙ ap (passed_if bytes d.server (n == 0)) at.expected
        ∙ passed_if-passed n bytes d

    turn-arrive : turn out (arrive out (raw bytes) d) ≡ record {
      server =
          when_all_received
            (part_of out t' bytes)
            d.transfer.req_id
            (pass_on session (part_of out t' bytes) d.server);
      transfer = t';
      posted = [];
    }
    unfolding turn arrive on_client_read handle_file_transfer_msg on_file_transfer_data_received
    turn-arrive = rw (at.awaits, at.idle, at.found, at.download) refl

    abbrev after : Download
    after = record { server = passed bytes n d; transfer = t'; posted = [] }

    abbrev ended : Download
    ended = record after { server = erase_file_transfer_session d.transfer.req_id after.server }

    turn-arrive_more :
        suc n < 2 ^ 32
        → r + length bytes < size
        → size < 2 ^ 64
        → turn out (arrive out (raw bytes) d) ≡ after
    turn-arrive_more small more fits =
        let open_yet : (t'.expected_file_size == t'.received_file_size) ≡ false =
          ground (arith, at.expected, at.received) in
        turn-arrive
        ∙ ap (λ s. record { server = s; transfer = t'; posted = [] })
            (rw open_yet (pass_on-passed small))

    turn-arrive_last :
        suc n < 2 ^ 32
        → r + length bytes ≡ size
        → size < 2 ^ 64
        → turn out (arrive out (raw bytes) d) ≡ ended
    turn-arrive_last small whole fits =
        let closed : (t'.expected_file_size == t'.received_file_size) ≡ true =
          ground (arith, at.expected, at.received) in
        turn-arrive
        ∙ ap (λ s. record { server = s; transfer = t'; posted = [] })
            (rw (closed, pass_on-passed small) refl)

    after-IsAt :
        suc n < 2 ^ 32
        → r + length bytes < 2 ^ 64
        → IsAt session size (suc n) (r + length bytes) after
    after-IsAt small fits = record {
      found = at.found;
      download = at.download;
      awaits = at.awaits;
      expected = at.expected;
      counter = omega (arith, at.counter);
      received = omega (arith, at.received);
      idle = refl;
    }

  -- What the browser has in the end, and the server.
  abbrev pub IsServed : ℕ → ℕ → List (List ℕ) → List Sent → Download → Type 0
  IsServed id n parts sent d =
      (d.server.sent ≡ sent_parts session.web_app_client parts (headed n sent))
      × (lookup id d.server.transfer_sessions ≡ none)
      × (d.posted ≡ [])

  pub serve-IsServed :
      (n r : ℕ) (bytes : List ℕ) (parts : List (List ℕ)) (d : Download)
      → IsAt session size n r d
      → All IsFull parts
      → n + length (bytes ∷ parts) < 2 ^ 32
      → r + total (bytes ∷ parts) ≡ size
      → size < 2 ^ 64
      → IsServed d.transfer.req_id n (bytes ∷ parts) d.server.sent (serve out (bytes ∷ parts) d)
  unfolding erase_file_transfer_session
  serve-IsServed n r bytes [] d at full few whole fits =
      let id = d.transfer.req_id in
      subst (IsServed id n (bytes ∷ []) d.server.sent)
        (sym (turn-arrive_last n r bytes d at (omega (arith, few)) (omega (arith, whole)) fits))
        (refl, lookup-remove id id d.server.transfer_sessions ∙ rw (eq-true id) refl, refl)
  serve-IsServed n r bytes (next ∷ parts) d at full few whole fits =
      let id = d.transfer.req_id in
      let small : suc n < 2 ^ 32 = omega (arith, few) in
      let more : r + length bytes < size = omega (arith, whole, full.0) in
      subst (λ d'. IsServed id n (bytes ∷ next ∷ parts) d.server.sent (serve out (next ∷ parts) d'))
        (sym (turn-arrive_more n r bytes d at small more fits))
        (serve-IsServed (suc n) (r + length bytes) next parts (after n r bytes d at)
          (after-IsAt n r bytes d at small (omega (arith, more, fits))) full.1 (omega (arith, few))
          (omega (arith, whole)) fits)

-- A download whose parts, none empty and fewer than 2 ^ 32 - 1 of them, come to the announced size, and
-- where each part is passed on before the next one comes: the browser is sent a header with the size and
-- then the parts in their order, the session is gone in the end, and no call waits.
pub serve_lem :
    (out : Outside) (session : FileTransferSession) (size : ℕ) (bytes : List ℕ)
    (parts : List (List ℕ)) (d : Download)
    → IsAt session size 0 0 d
    → All IsFull parts
    → length (bytes ∷ parts) < 2 ^ 32
    → total (bytes ∷ parts) ≡ size
    → size < 2 ^ 64
    → let c = session.web_app_client in
      let d' = serve out (bytes ∷ parts) d in
      (d'.server.sent ≡ sent_parts c (bytes ∷ parts) (to_http c (file_header size) ∷ d.server.sent))
      × (lookup d.transfer.req_id d'.server.transfer_sessions ≡ none)
      × (d'.posted ≡ [])
serve_lem out session size bytes parts d at full few whole fits =
    serve-IsServed out session size 0 0 bytes parts d at full (omega (arith, few))
      (omega (arith, whole)) fits
