-- ===== src/FileTransfer/Handshake.antt =====
-- The start of a transfer of FileTransfer.cpp: the connection, FILE_TRANSFER_INIT and
-- FILE_TRANSFER_ACK, between the two sides.
use html_terminal.Prelude.{
  ℕ, ◌%◌, ◌^◌, ◌≡◌, refl, Bool, true, false, Option, none, some, List, [], ◌∷◌, Text, length,
  Option-cases, inl, inr, ◌⊎◌,
}
use html_terminal.Wire.{Memory, IsLawful, Packet, type_from_int}
use html_terminal.FileTransfer.Init.{sized, told_inspected}
use html_terminal.FileTransfer.{
  invalid, measured_file, measured_directory, FileSystem, FileTransfer, ClientCall, packet_sent,
  content_sent, new_transfer, on_client_connected, send_init_response, inspect,
  handle_transfer_init, on_client_read, send_ack_and_switch_to_raw, send_requested_data,
}

abbrev content_of : List ClientCall → List ℕ
content_of (packet_sent msg ∷ calls) = msg.content
content_of _ = []

-- The other side once it has read the packets that the calls, the latest first, sent.
abbrev reads_packets : FileSystem → List ClientCall → FileTransfer → FileTransfer
reads_packets fs [] t = t
reads_packets fs (packet_sent msg ∷ calls) t = (on_client_read fs msg (reads_packets fs calls t)).0
reads_packets fs (_ ∷ calls) t = reads_packets fs calls t

-- The client on the remote host has connected, the server, to which the connection is `at_server`, got
-- its message, and the client got what the server sent it then.
unfoldable pub handshake :
    (mem : Memory) → FileSystem → ℕ → ℕ → FileTransfer → FileTransfer → FileTransfer × FileTransfer
unfolding on_client_connected handle_transfer_init on_client_read
handshake mem fs at_server at_host server host =
    let connected = on_client_connected mem fs at_host host in
    let told =
      handle_transfer_init mem at_server (mem.make_data (content_of connected.calls)) server in
    (told, reads_packets fs told.calls connected)

-- What a remote host has to offer at a path.
pub data Offer : Type 0 where
  nothing : Offer
  listing : List ℕ → Offer
  file : ℕ → Option (List ℕ) → Offer

abbrev listing_or_file : Option (List ℕ) → Option (List ℕ) → Offer
listing_or_file none content = file 0 content
listing_or_file (some bytes) content = listing bytes

abbrev sized_file : Option ℕ → Option (List ℕ) → Offer
sized_file none content = nothing
sized_file (some size) content = file size content

abbrev offer_at : FileSystem → Text → Option Bool → Option Bool → Offer
offer_at fs path (some true) (some true) =
    listing_or_file (fs.serialize_directory path) (fs.create_from_file path)
offer_at fs path (some true) (some false) =
    sized_file (fs.file_size path) (fs.create_from_file path)
offer_at fs path _ _ = nothing

abbrev pub offer : FileSystem → Text → Offer
offer fs path = offer_at fs path (fs.exists path) (fs.is_directory path)

-- Both sides after the start, by what was on offer.
abbrev pub HaveAgreed : Offer → FileTransfer → FileTransfer → Type 0
HaveAgreed nothing server host =
    (server.awaing_raw_data ≡ false)
    × (server.expected_file_size ≡ 0)
    × (server.calls ≡ [])
    × ((msg : Packet) × (host.calls ≡ packet_sent msg ∷ []))
HaveAgreed (listing bytes) server host =
    (server.awaing_raw_data ≡ true)
    × (server.is_directory_listing_request ≡ true)
    × (server.expected_file_size ≡ length bytes % 2 ^ 64)
    × ((calls : List ClientCall) × (host.calls ≡ content_sent (some bytes) ∷ calls))
HaveAgreed (file size content) server host =
    (server.awaing_raw_data ≡ true)
    × (server.is_directory_listing_request ≡ false)
    × (server.expected_file_size ≡ size % 2 ^ 64)
    × ((calls : List ClientCall) × (host.calls ≡ content_sent content ∷ calls))

flag_cases : (o : Option Bool) → (o ≡ none) ⊎ ((o ≡ some false) ⊎ (o ≡ some true))
flag_cases none = inl refl
flag_cases (some false) = inr (inl refl)
flag_cases (some true) = inr (inr refl)

module _ (mem : Memory) (law : IsLawful mem) where
  -- Whatever the file system of the remote host says of a path, both sides of a request for it agree
  -- after the start. If it exists and is a directory that can be listed, the server waits for a listing
  -- of its size, and the host has sent the listing. If it is any other directory, or a file whose size
  -- can be told, the server waits for a file, of size 0 or the file's, and the host has sent its content,
  -- or a null pointer where the file cannot be opened. Otherwise the server waits for nothing and has
  -- not answered, and the host has sent no content.
  pub handshake-HaveAgreed :
      (fs : FileSystem) (id at_server at_host : ℕ) (path : Text)
      → let (server, host) =
          handshake mem fs at_server at_host
            (new_transfer id path true)
            (new_transfer id path true) in
        HaveAgreed (offer fs path) server host
  unfolding handshake on_client_connected send_init_response inspect on_client_read sized
      send_ack_and_switch_to_raw send_requested_data type_from_int
  handshake-HaveAgreed fs id at_server at_host path = elim (flag_cases (fs.exists path)) [
    | inl e ↦
        rw (e, told_inspected mem law at_server (new_transfer id path true) id invalid)
          (refl, refl, refl, (_, refl))
    | inr (inl e) ↦
        rw (e, told_inspected mem law at_server (new_transfer id path true) id invalid)
          (refl, refl, refl, (_, refl))
    | inr (inr e) ↦ elim (flag_cases (fs.is_directory path)) [
      | inl d ↦
          rw (e, d, told_inspected mem law at_server (new_transfer id path true) id invalid)
            (refl, refl, refl, (_, refl))
      | inr (inl d) ↦ elim (Option-cases (fs.file_size path)) [
        | inl f ↦
            rw (e, d, f, told_inspected mem law at_server (new_transfer id path true) id invalid)
              (refl, refl, refl, (_, refl))
        | inr (n, f) ↦
            rw
              (
                e,
                d,
                f,
                told_inspected mem law at_server (new_transfer id path true) id
                    (measured_file (some n)),
                d,
              )
              (refl, refl, refl, (_, refl))
      ]
      | inr (inr d) ↦ elim (Option-cases (fs.serialize_directory path)) [
        | inl f ↦
            rw
              (
                e,
                d,
                f,
                told_inspected mem law at_server (new_transfer id path true) id
                    (measured_directory none),
                d,
              )
              (refl, refl, refl, (_, refl))
        | inr (bytes, f) ↦
            rw
              (
                e,
                d,
                f,
                told_inspected mem law at_server (new_transfer id path true) id
                    (measured_directory (some bytes)),
                d,
              )
              (refl, refl, refl, (_, refl))
      ]
    ]
  ]
