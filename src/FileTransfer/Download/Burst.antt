-- ===== src/FileTransfer/Download/Burst.antt =====
-- Downloads whose parts all come before the thread of the server has a turn.
use html_terminal.Prelude.{
  ℕ, suc, ◌+◌, ◌^◌, ◌<◌, ◌≡◌, refl, sym, ap, subst, ◌∙◌, true, false, none, some, List, [], ◌∷◌,
  ◌++◌, lookup, length, ◌==◌, arith, eq-true,
}
use mathlib.Core.List.{append_assoc, append-nil}
use html_terminal.Server.Tables.{lookup-remove}
use html_terminal.Server.State.{Server, to_http, file_data, FileTransferSession}
use html_terminal.Server.Sessions.{erase_file_transfer_session}
use html_terminal.Server.Web.{on_file_transfer_data_received}
use html_terminal.FileTransfer.{FileTransfer, on_client_read, handle_file_transfer_msg}
use html_terminal.FileTransfer.Download.{
  Download, Outside, raw, arrive, arrive_all, turn, turns, total,
}
use html_terminal.FileTransfer.Download.InStep.{IsAt, taken}

abbrev taken_all : List (List ℕ) → FileTransfer → FileTransfer
taken_all [] t = t
taken_all (bytes ∷ parts) t = taken_all parts (taken bytes t)

-- A transfer that has got `n` parts of `r` bytes in all.
record Counts (id size n r : ℕ) (t : FileTransfer) : Type 0 where
  named : t.req_id ≡ id
  awaits : t.awaing_raw_data ≡ true
  expected : t.expected_file_size ≡ size
  counter : t.data_transfer_counter ≡ n
  received : t.received_file_size ≡ r

pub arrive-taken :
    (out : Outside) (bytes : List ℕ) (d : Download)
    → d.transfer.awaing_raw_data ≡ true
    → arrive out (raw bytes) d
      ≡ record d { transfer = taken bytes d.transfer; posted = d.posted ++ (bytes ∷ []) }
unfolding arrive on_client_read handle_file_transfer_msg
arrive-taken out bytes d awaits = rw awaits refl

module _ (out : Outside) (id size : ℕ) where
  taken_all-Counts :
      (parts : List (List ℕ)) (n r : ℕ) (t : FileTransfer)
      → Counts id size n r t
      → n + length parts < 2 ^ 32
      → r + total parts < 2 ^ 64
      → Counts id size (n + length parts) (r + total parts) (taken_all parts t)
  taken_all-Counts [] n r t k few fits = record {
    named = k.named;
    awaits = k.awaits;
    expected = k.expected;
    counter = omega (arith, k.counter);
    received = omega (arith, k.received);
  }
  taken_all-Counts (bytes ∷ parts) n r t k few fits =
      let next : Counts id size (suc n) (r + length bytes) (taken bytes t) = record {
        named = k.named;
        awaits = k.awaits;
        expected = k.expected;
        counter = omega (arith, k.counter, few);
        received = omega (arith, k.received, fits);
      } in
      let rest =
        taken_all-Counts parts (suc n) (r + length bytes) (taken bytes t) next (omega (arith, few))
          (omega (arith, fits)) in
      record {
        named = rest.named;
        awaits = rest.awaits;
        expected = rest.expected;
        counter = omega (arith, rest.counter);
        received = omega (arith, rest.received);
      }

  arrive_all-taken_all :
      (parts : List (List ℕ)) (d : Download)
      → d.transfer.awaing_raw_data ≡ true
      → arrive_all out parts d
        ≡ record d { transfer = taken_all parts d.transfer; posted = d.posted ++ parts }
  arrive_all-taken_all [] d awaits =
      ap (λ posted. record d { posted = posted }) (sym (append-nil d.posted))
  arrive_all-taken_all (bytes ∷ parts) d awaits =
      ap (arrive_all out parts) (arrive-taken out bytes d awaits)
      ∙ arrive_all-taken_all parts
          (record d { transfer = taken bytes d.transfer; posted = d.posted ++ (bytes ∷ []) }) awaits
      ∙ ap
          (λ posted. record d {
            transfer = taken_all parts (taken bytes d.transfer);
            posted = posted;
          })
          (append_assoc d.posted (bytes ∷ []) parts)

  -- Without its session a part is dropped.
  turns-dropped :
      (parts : List (List ℕ)) (s : Server) (t : FileTransfer)
      → lookup t.req_id s.transfer_sessions ≡ none
      → turns out parts (record { server = s; transfer = t; posted = parts })
        ≡ record { server = s; transfer = t; posted = [] }
  unfolding turn on_file_transfer_data_received
  turns-dropped [] s t gone = refl
  turns-dropped (bytes ∷ parts) s t gone = rw gone (turns-dropped parts s t gone)

  -- The first part is passed on without a header, and ends the session.
  turn_first :
      (session : FileTransferSession) (bytes : List ℕ) (parts : List (List ℕ)) (s : Server)
      (t : FileTransfer) (n : ℕ)
      → lookup t.req_id s.transfer_sessions ≡ some session
      → session.terminal_id ≡ 0
      → Counts id size (suc (suc n)) size t
      → turn out (record { server = s; transfer = t; posted = bytes ∷ parts }) ≡ record {
        server =
            erase_file_transfer_session t.req_id
              (record s { sent = to_http session.web_app_client (file_data bytes) ∷ s.sent });
        transfer = t;
        posted = parts;
      }
  unfolding turn on_file_transfer_data_received
  turn_first session bytes parts s t n found download k =
      let later : (t.data_transfer_counter == 1) ≡ false = ground (arith, k.counter) in
      let closed : (t.expected_file_size == t.received_file_size) ≡ true =
        ground (arith, k.expected, k.received) in
      rw (found, download, later, closed) refl

  module _ (session : FileTransferSession) (bytes : List ℕ) (s : Server) (t : FileTransfer) where
    abbrev left : Server
    left =
        erase_file_transfer_session t.req_id
          (record s { sent = to_http session.web_app_client (file_data bytes) ∷ s.sent })

    left_gone : lookup t.req_id left.transfer_sessions ≡ none
    unfolding erase_file_transfer_session
    left_gone = lookup-remove t.req_id t.req_id s.transfer_sessions ∙ rw (eq-true t.req_id) refl

    left_sent : left.sent ≡ to_http session.web_app_client (file_data bytes) ∷ s.sent
    unfolding erase_file_transfer_session
    left_sent = refl

    turns_all :
        (parts : List (List ℕ)) (n : ℕ)
        → lookup t.req_id s.transfer_sessions ≡ some session
        → session.terminal_id ≡ 0
        → Counts id size (suc (suc n)) size t
        → turns out (bytes ∷ parts) (record { server = s; transfer = t; posted = bytes ∷ parts })
          ≡ record { server = left; transfer = t; posted = [] }
    turns_all parts n found download k =
        ap (turns out parts) (turn_first session bytes parts s t n found download k)
        ∙ turns-dropped parts left t left_gone

-- A download whose parts, at least two and fewer than 2 ^ 32, come to the announced size, and all come
-- before the thread of the server has a turn, one turn for each part: the browser is sent the first part
-- alone, without a header. The session is gone in the end, and no call waits.
pub turns-arrive_all :
    (out : Outside) (session : FileTransferSession) (size : ℕ) (first second : List ℕ)
    (parts : List (List ℕ)) (d : Download)
    → IsAt session size 0 0 d
    → length (first ∷ second ∷ parts) < 2 ^ 32
    → total (first ∷ second ∷ parts) ≡ size
    → size < 2 ^ 64
    → let all = first ∷ second ∷ parts in
      let d' = turns out all (arrive_all out all d) in
      (d'.server.sent ≡ to_http session.web_app_client (file_data first) ∷ d.server.sent)
      × (lookup d.transfer.req_id d'.server.transfer_sessions ≡ none)
      × (d'.posted ≡ [])
turns-arrive_all out session size first second parts d at few whole fits =
    let id = d.transfer.req_id in
    let all = first ∷ second ∷ parts in
    let t = taken_all all d.transfer in
    let start : Counts id size 0 0 d.transfer = record {
      named = refl;
      awaits = at.awaits;
      expected = at.expected;
      counter = at.counter;
      received = at.received;
    } in
    let k₀ =
      taken_all-Counts out id size all 0 0 d.transfer start (omega (arith, few))
        (omega (arith, whole, fits)) in
    let k : Counts id size (suc (suc (length parts))) size t =
      subst (λ n. Counts id size n size t) (omega arith)
        (subst (λ r. Counts id size (0 + length all) r t) (omega (arith, whole)) k₀) in
    let found : lookup t.req_id d.server.transfer_sessions ≡ some session =
      subst (λ i. lookup i d.server.transfer_sessions ≡ some session) (sym k.named) at.found in
    let come : arrive_all out all d ≡ record { server = d.server; transfer = t; posted = all } =
      arrive_all-taken_all out id size all d at.awaits
      ∙ ap (λ posted. record d { transfer = t; posted = posted ++ all }) at.idle in
    let run =
      ap (turns out all) come
      ∙ turns_all out id size session first d.server t (second ∷ parts) (length parts) found
          at.download k in
    (
      ap (λ d'. d'.server.sent) run ∙ left_sent out id size session first d.server t,
      ap (λ d'. lookup id d'.server.transfer_sessions) run
          ∙ subst
              (λ i. lookup i (left out id size session first d.server t).transfer_sessions ≡ none)
              k.named (left_gone out id size session first d.server t),
      ap (λ d'. d'.posted) run,
    )
