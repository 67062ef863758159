-- ===== src/FileTransfer/Download/Order.antt =====
-- Downloads where parts come and the thread of the server has turns in any order.
use html_terminal.Prelude.{
  ℕ, ◌≡◌, ◌⊎◌, inl, inr, refl, sym, ap, subst, ◌∙◌, Bool, true, false, none, some, List, [], ◌∷◌,
  ◌++◌, lookup, ◌==◌, if◌then◌else◌, eq-true, Bool-cases,
}
use mathlib.Core.List.{append_assoc, append-nil}
use html_terminal.Server.Tables.{lookup-remove}
use html_terminal.Server.State.{
  Server, Sent, Part, to_web, to_http, to_host, file_header, file_data, FileTransferSession, send,
}
use html_terminal.Server.Sessions.{erase_file_transfer_session}
use html_terminal.Server.Web.{on_file_transfer_data_received, when_all_received, pass_on}
use html_terminal.FileTransfer.Download.{Download, Outside, raw, arrive, part_of, run_first, turn}
use html_terminal.FileTransfer.Download.InStep.{IsAt}
use html_terminal.FileTransfer.Download.Burst.{arrive-taken}

-- The parts that have come since `d₀`, and what became of it.
pub data Reach (out : Outside) (d₀ : Download) : List (List ℕ) → Download → Type 0 where
  here : Reach out d₀ [] d₀
  comes :
      {parts : List (List ℕ)} {d : Download} (bytes : List ℕ)
      → Reach out d₀ parts d
      → Reach out d₀ (parts ++ (bytes ∷ [])) (arrive out (raw bytes) d)
  runs :
      {parts : List (List ℕ)} {d : Download}
      → Reach out d₀ parts d
      → Reach out d₀ parts (turn out d)

-- The parts that a browser has been sent, the first one first.
abbrev pub parts_in : ℕ → List Sent → List (List ℕ)
parts_in c [] = []
parts_in c (to_http b (file_data bytes) ∷ sent) =
    if b == c then parts_in c sent ++ (bytes ∷ []) else parts_in c sent
parts_in c (to_http b (file_header size) ∷ sent) = parts_in c sent
parts_in c (to_web b msg ∷ sent) = parts_in c sent
parts_in c (to_host h msg ∷ sent) = parts_in c sent

module _ (out : Outside) (session : FileTransferSession) (id : ℕ) where
  abbrev c : ℕ
  c = session.web_app_client

  -- Without the session, parts may be lost.
  abbrev Fits : List (List ℕ) → Server → Type 0
  Fits lost s =
      ((lookup id s.transfer_sessions ≡ some session) × (lost ≡ []))
      ⊎ (lookup id s.transfer_sessions ≡ none)

  record Kept (all : List (List ℕ)) (d : Download) : Type 0 where
    named : d.transfer.req_id ≡ id
    awaits : d.transfer.awaing_raw_data ≡ true
    lost : List (List ℕ)
    all_there : parts_in c d.server.sent ++ (lost ++ d.posted) ≡ all
    fits : Fits lost d.server

  arrive-Kept :
      (all : List (List ℕ)) (bytes : List ℕ) (d : Download)
      → Kept all d
      → Kept (all ++ (bytes ∷ [])) (arrive out (raw bytes) d)
  arrive-Kept all bytes d k =
      subst (Kept (all ++ (bytes ∷ []))) (sym (arrive-taken out bytes d k.awaits)) (record {
        named = k.named;
        awaits = k.awaits;
        lost = k.lost;
        all_there =
            ap (λ x. parts_in c d.server.sent ++ x)
              (sym (append_assoc k.lost d.posted (bytes ∷ [])))
            ∙ sym (append_assoc (parts_in c d.server.sent) (k.lost ++ d.posted) (bytes ∷ []))
            ∙ ap (λ x. x ++ (bytes ∷ [])) k.all_there;
        fits = k.fits;
      })

  -- What the browser has once a part is passed on, with a header or without.
  sent_if :
      (bytes : List ℕ) (size : ℕ) (s : Server) (first : Bool)
      → let s' =
          send
            (to_http c (file_data bytes))
            (if first then send (to_http c (file_header size)) s else s) in
        (parts_in c s'.sent ≡ parts_in c s.sent ++ (bytes ∷ []))
        × (s'.transfer_sessions ≡ s.transfer_sessions)
  sent_if bytes size s true = (rw (eq-true c) refl, refl)
  sent_if bytes size s false = (rw (eq-true c) refl, refl)

  module _ (all posted : List (List ℕ)) (bytes : List ℕ) (d : Download)
      (named : d.transfer.req_id ≡ id) (awaits : d.transfer.awaing_raw_data ≡ true) where
    abbrev part : Part
    part = part_of out d.transfer bytes

    abbrev passed : Server
    passed = pass_on session part d.server

    passed_facts :
        (parts_in c passed.sent ≡ parts_in c d.server.sent ++ (bytes ∷ []))
        × (passed.transfer_sessions ≡ d.server.transfer_sessions)
    passed_facts = sent_if bytes part.expected_file_size d.server (part.data_transfer_counter == 1)

    module _ (there : parts_in c d.server.sent ++ (bytes ∷ posted) ≡ all) where
      passed_all : parts_in c passed.sent ++ posted ≡ all
      passed_all =
          ap (λ x. x ++ posted) passed_facts.0
          ∙ append_assoc (parts_in c d.server.sent) (bytes ∷ []) posted
          ∙ there

      passed-Kept :
          lookup id d.server.transfer_sessions ≡ some session
          → Kept all (record d { server = when_all_received part id passed; posted = posted })
      unfolding erase_file_transfer_session
      passed-Kept found = elim (Bool-cases (part.expected_file_size == part.received_file_size)) [
        | inl e ↦ rw e (record {
          named = named;
          awaits = awaits;
          lost = [];
          all_there = passed_all;
          fits = inr (lookup-remove id id passed.transfer_sessions ∙ rw (eq-true id) refl);
        })
        | inr e ↦ rw e (record {
          named = named;
          awaits = awaits;
          lost = [];
          all_there = passed_all;
          fits = inl (ap (lookup id) passed_facts.1 ∙ found, refl);
        })
      ]

  received_found :
      (part : Part) (s : Server)
      → session.terminal_id ≡ 0
      → lookup id s.transfer_sessions ≡ some session
      → on_file_transfer_data_received id part s
        ≡ when_all_received part id (pass_on session part s)
  unfolding on_file_transfer_data_received
  received_found part s download found = rw (found, download) refl

  received_gone :
      (part : Part) (s : Server)
      → lookup id s.transfer_sessions ≡ none
      → on_file_transfer_data_received id part s ≡ s
  unfolding on_file_transfer_data_received
  received_gone part s gone = rw gone refl

  module _ (download : session.terminal_id ≡ 0) where
    run_first-Kept :
        (all posted : List (List ℕ)) (d : Download)
        → d.posted ≡ posted
        → Kept all d
        → Kept all (run_first out posted d)
    run_first-Kept all [] d e k = k
    run_first-Kept all (bytes ∷ posted) d e k =
        let part = part_of out d.transfer bytes in
        let sent = parts_in c d.server.sent in
        let by_id : on_file_transfer_data_received d.transfer.req_id part d.server
            ≡ on_file_transfer_data_received id part d.server =
          ap (λ i. on_file_transfer_data_received i part d.server) k.named in
        let then_kept : (s : Server)
            → on_file_transfer_data_received id part d.server ≡ s
            → Kept all (record d { server = s; posted = posted })
            → Kept all (run_first out (bytes ∷ posted) d) =
          λ s f kept.
            subst (λ s'. Kept all (record d { server = s'; posted = posted })) (sym (by_id ∙ f))
              kept in
        elim k.fits [
          | inl (found, none_lost) ↦
              let there : sent ++ (bytes ∷ posted) ≡ all =
                ap (λ x. sent ++ (x ++ (bytes ∷ posted))) (sym none_lost)
                ∙ ap (λ x. sent ++ (k.lost ++ x)) (sym e)
                ∙ k.all_there in
              then_kept _ (received_found part d.server download found)
                (passed-Kept all posted bytes d k.named k.awaits there found)
          | inr gone ↦ then_kept d.server (received_gone part d.server gone) (record {
            named = k.named;
            awaits = k.awaits;
            lost = k.lost ++ (bytes ∷ []);
            all_there =
                ap (λ x. sent ++ x) (append_assoc k.lost (bytes ∷ []) posted)
                ∙ ap (λ x. sent ++ (k.lost ++ x)) (sym e)
                ∙ k.all_there;
            fits = inr gone;
          })
        ]

    turn-Kept : (all : List (List ℕ)) (d : Download) → Kept all d → Kept all (turn out d)
    unfolding turn
    turn-Kept all d k = run_first-Kept all d.posted d refl k

    Reach-Kept :
        (d₀ : Download) (base parts : List (List ℕ)) (d : Download)
        → Reach out d₀ parts d
        → Kept base d₀
        → Kept (base ++ parts) d
    Reach-Kept d₀ base _ _ here k = subst (λ x. Kept x d₀) (sym (append-nil base)) k
    Reach-Kept d₀ base _ _ (comes {parts} {d} bytes r) k =
        subst (λ x. Kept x (arrive out (raw bytes) d)) (append_assoc base parts (bytes ∷ []))
          (arrive-Kept (base ++ parts) bytes d (Reach-Kept d₀ base parts d r k))
    Reach-Kept d₀ base _ _ (runs {parts} {d} r) k =
        turn-Kept (base ++ parts) d (Reach-Kept d₀ base parts d r k)

-- A download that begins, whatever the order in which parts come and the thread has turns: the parts
-- that the browser is sent are the first of those that have come, in their order.
pub Reach-parts_in :
    {out : Outside} {d₀ d : Download} {parts : List (List ℕ)} (session : FileTransferSession)
    (size : ℕ)
    → IsAt session size 0 0 d₀
    → Reach out d₀ parts d
    → let c = session.web_app_client in
      (rest : List (List ℕ)) × (parts_in c d.server.sent ++ rest
        ≡ parts_in c d₀.server.sent ++ parts)
Reach-parts_in {out} {d₀} {d} {parts} session size at r =
    let c = session.web_app_client in
    let id = d₀.transfer.req_id in
    let start : Kept out session id (parts_in c d₀.server.sent) d₀ = record {
      named = refl;
      awaits = at.awaits;
      lost = [];
      all_there =
          ap (λ x. parts_in c d₀.server.sent ++ x) at.idle ∙ append-nil (parts_in c d₀.server.sent);
      fits = inl (at.found, refl);
    } in
    let k = Reach-Kept out session id at.download d₀ (parts_in c d₀.server.sent) parts d r start in
    (k.lost ++ d.posted, k.all_there)
