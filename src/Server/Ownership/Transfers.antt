-- ===== src/Server/Ownership/Transfers.antt =====
-- The file transfers of WebAppServer.cpp, and the agreement with a book.
use html_terminal.Prelude.{
  ℕ, ◌≡◌, refl, Bool, Option, none, some, List, Text, Dict, lookup, arith, ◌⊎◌, ◌==◌, eq-true,
  Bool-cases, Option-cases, inl, inr,
}
use html_terminal.Protocol.{FileInfo}
use html_terminal.Server.Tables.{
  emplace, remove, assign, All-lookup, All-emplace, All-remove, All-assign, lookup-emplace,
}
use html_terminal.Server.State.{
  Server, FileTransferSession, Part, to_http, file_header, file_data, to_web, to_host, WebMsg,
  HostMsg, send,
}
use html_terminal.Server.Sessions.{
  find_remote_host, next_transfer_id, create_file_transfer_session, erase_file_transfer_session,
}
use html_terminal.Server.Web.{
  mark, request_file, perpare_file_download_response, added, when_all_received, pass_on,
  list_directory, on_file_transfer_data_received,
}
use html_terminal.Server.Ownership.{Book, Owns, TransferFact, AgreesWith}
use html_terminal.Server.Ownership.TermSteps.{send-AgreesWith}
use html_terminal.Server.Ownership.WebSteps.{transfers-AgreesWith}

module _ (b : Book) where
  -- The session in question may be given the terminal.
  abbrev AgreesIfMarked : ℕ → Option FileTransferSession → Type 0
  AgreesIfMarked t none = Unit
  AgreesIfMarked t (some x) = TransferFact b (x.id, record x { terminal_id = t })

  mark-AgreesWith :
      (t : ℕ) (o : Option FileTransferSession) (s : Server)
      → AgreesIfMarked t o
      → AgreesWith b s
      → AgreesWith b (mark t o s)
  mark-AgreesWith t none s f i = i
  mark-AgreesWith t (some x) s f i =
      let x' : FileTransferSession = record x { terminal_id = t } in
      transfers-AgreesWith b s i (assign x.id x' s.transfer_sessions) s.transfer_id_counter
        (All-assign (TransferFact b) x.id x' s.transfer_sessions f i.transfers)

  added-AgreesIfMarked :
      (t id : ℕ) (x : FileTransferSession) (m : Dict FileTransferSession)
      → TransferFact b (id, record x { terminal_id = t })
      → AgreesIfMarked t (added (lookup id m) (lookup id (emplace id x m)))
  added-AgreesIfMarked t id x m f = elim (Option-cases (lookup id m)) [
    | inl e ↦ rw (e, lookup-emplace id id x m e, eq-true id) f
    | inr (old, e) ↦ rw e tt
  ]

  pub request_file-AgreesWith :
      (up : ℕ → Bool) (c t : ℕ) (path : Text) (h : ℕ) (s : Server)
      → ((t ≡ 0) ⊎ ((h : ℕ) × Owns b c h t))
      → AgreesWith b s
      → AgreesWith b (request_file up c t path h s)
  unfolding request_file create_file_transfer_session erase_file_transfer_session next_transfer_id
  request_file-AgreesWith up c t path h s f i =
      let id = next_transfer_id s in
      let fresh : FileTransferSession = record { id = id; web_app_client = c; terminal_id = 0 } in
      let old = s.transfer_sessions in
      let m = emplace id fresh old in
      let s' = create_file_transfer_session c s in
      let i' =
        transfers-AgreesWith b s i m id
          (All-emplace (TransferFact b) id fresh old (inl refl) i.transfers) in
      let asked = to_host h (HostMsg.file_transfer_req id path) in
      elim (Bool-cases (up h)) [
        | inl e ↦ rw e (
            mark-AgreesWith t _ (send asked s') (added-AgreesIfMarked t id fresh old f)
              (send-AgreesWith b s' i' asked tt))
        | inr e ↦ rw e (
            transfers-AgreesWith b s i (remove id m) id
              (All-remove (TransferFact b) id m i'.transfers))
      ]

  pub perpare_file_download_response-AgreesWith :
      (up : ℕ → Bool) (c t : ℕ) (path : Text) (s : Server)
      → AgreesWith b s
      → AgreesWith b (perpare_file_download_response up c t path s)
  unfolding perpare_file_download_response
  perpare_file_download_response-AgreesWith up c t path s i =
      elim (Option-cases (find_remote_host t s.web_app_sessions)) [
        | inl e ↦ rw e i
        | inr (h, e) ↦ rw e (request_file-AgreesWith up c 0 path h s (inl refl) i)
      ]

  when_all_received-AgreesWith :
      (part : Part) (id : ℕ) (s : Server)
      → AgreesWith b s
      → AgreesWith b (when_all_received part id s)
  unfolding erase_file_transfer_session
  when_all_received-AgreesWith part id s i =
      elim (Bool-cases (part.expected_file_size == part.received_file_size)) [
        | inl e ↦ rw e (
            transfers-AgreesWith b s i (remove id s.transfer_sessions) s.transfer_id_counter
              (All-remove (TransferFact b) id s.transfer_sessions i.transfers))
        | inr e ↦ rw e i
      ]

  pass_on-AgreesWith :
      (x : FileTransferSession) (part : Part) (s : Server)
      → AgreesWith b s
      → AgreesWith b (pass_on x part s)
  pass_on-AgreesWith x part s i = elim (Bool-cases (part.data_transfer_counter == 1)) [
    | inl e ↦
        let header = to_http x.web_app_client (file_header part.expected_file_size) in
        rw e (
          send-AgreesWith b (send header s) (send-AgreesWith b s i header tt)
            (to_http x.web_app_client (file_data part.raw)) tt)
    | inr e ↦ rw e (send-AgreesWith b s i (to_http x.web_app_client (file_data part.raw)) tt)
  ]

  list_directory-AgreesWith :
      (x : FileTransferSession) (part : Part) (id : ℕ) (listing : Option (List FileInfo))
      (s : Server)
      → ((h : ℕ) × Owns b x.web_app_client h x.terminal_id)
      → AgreesWith b s
      → AgreesWith b (list_directory x part id listing s)
  list_directory-AgreesWith x part id none s o i = i
  list_directory-AgreesWith x part id (some files) s o i = when_all_received-AgreesWith part id _ (
      send-AgreesWith b s i
        (to_web x.web_app_client (WebMsg.directory_listing x.terminal_id part.path files)) o)

  pub received-AgreesWith :
      (id : ℕ) (part : Part) (s : Server)
      → AgreesWith b s
      → AgreesWith b (on_file_transfer_data_received id part s)
  unfolding on_file_transfer_data_received
  received-AgreesWith id part s i = elim (Option-cases (lookup id s.transfer_sessions)) [
    | inl e ↦ rw e i
    | inr (x, e) ↦ elim (Bool-cases (x.terminal_id == 0)) [
      | inl z ↦ rw (e, z) (when_all_received-AgreesWith part id _ (pass_on-AgreesWith x part s i))
      | inr z ↦ elim (All-lookup (TransferFact b) id s.transfer_sessions i.transfers e) [
        | inl zero ↦ absurd (ground arith)
        | inr o ↦ rw (e, z) (list_directory-AgreesWith x part id part.listing s o i)
      ]
    ]
  ]
