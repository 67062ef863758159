-- ===== src/FileTransfer/Handlers.antt =====
-- FileTransferHandlerServer.cpp and FileTransferHandlerClient.cpp: the transfers of either side, by
-- their ids.
use html_terminal.Prelude.{
  ℕ, Bool, true, false, Option, none, some, List, ◌∷◌, Text, Dict, lookup, is_some, if◌then◌else◌,
}
use html_terminal.Server.Tables.{emplace, remove, rewrite}
use html_terminal.Wire.{Memory, Packet, read_integer}
use html_terminal.FileTransfer.{
  FileSystem, FileTransfer, new_transfer, transfer_request_msg, handle_transfer_init,
}

abbrev add_transfer :
    (mem : Memory) → ℕ → Text → Bool → Dict FileTransfer → Option (Dict FileTransfer × Packet)
add_transfer mem id path is_download transfers =
    let t = new_transfer id path is_download in
    some (emplace id t transfers, transfer_request_msg mem t)

abbrev refuse_directory :
    Option Bool → Option (Dict FileTransfer × Packet) → Option (Dict FileTransfer × Packet)
refuse_directory (some true) added = none
refuse_directory _ added = added

-- The test is as the source has it: a path that exists is refused.
abbrev refuse_existing :
    FileSystem
    → Text
    → Option Bool
    → Option (Dict FileTransfer × Packet)
    → Option (Dict FileTransfer × Packet)
refuse_existing fs path none added = none
refuse_existing fs path (some true) added = none
refuse_existing fs path (some false) added = refuse_directory (fs.is_directory path) added

-- `MakeNewTransferReq(client, request_id, path, is_download_from_client)`: the transfers and the message
-- that the client is sent; none where it returns null, or `exists` throws.
unfoldable pub make_new_transfer_req :
    (mem : Memory)
    → FileSystem
    → ℕ
    → Text
    → Bool
    → Dict FileTransfer
    → Option (Dict FileTransfer × Packet)
unfolding emplace transfer_request_msg
make_new_transfer_req mem fs id path is_download transfers =
    let added = add_transfer mem id path is_download transfers in
    if is_download then added else refuse_existing fs path (fs.exists path) added

abbrev pub init_found :
    (mem : Memory) → ℕ → mem.Data → ℕ → Option FileTransfer → Dict FileTransfer → Dict FileTransfer
init_found mem client d id none transfers = transfers
init_found mem client d id (some t) transfers =
    rewrite id (handle_transfer_init mem client d t) transfers

abbrev pub init_read :
    (mem : Memory) → ℕ → mem.Data → Option ℕ → Dict FileTransfer → Dict FileTransfer
init_read mem client d none transfers = transfers
init_read mem client d (some id) transfers =
    init_found mem client d id (lookup id transfers) transfers

-- `HandleFileTransferInit(client, data)`
unfoldable pub handle_file_transfer_init :
    (mem : Memory) → ℕ → mem.Data → Dict FileTransfer → Dict FileTransfer
unfolding read_integer handle_transfer_init rewrite
handle_file_transfer_init mem client d = init_read mem client d (read_integer mem d 0 4)

-- The state of `FileTransferHandlerClient`: `connecting` are the transfers for which `CreateClient` was
-- called, the latest first.
pub record FileTransferHandlerClient : Type 0 where
  pub transfers : Dict FileTransfer
  pub connecting : List ℕ

-- `MakeFileTransferRequest(req_id, is_download_from_client, path, ...)`
unfoldable pub make_file_transfer_request :
    ℕ → Bool → Text → FileTransferHandlerClient → FileTransferHandlerClient
unfolding emplace
make_file_transfer_request id is_download path s =
    if is_some (lookup id s.transfers) then s else record {
      transfers = emplace id (new_transfer id path is_download) s.transfers;
      connecting = id ∷ s.connecting;
    }

-- `HandleTransferCompleted(file_transfer, msg, success)`, which erases what `OnFileTransferCompleted` was
-- called for.
unfoldable pub handle_transfer_completed :
    {S : Type 0} → (ℕ → S → S) → ℕ → Dict FileTransfer → S → Dict FileTransfer × S
unfolding remove
handle_transfer_completed completed id transfers s = (remove id transfers, completed id s)
