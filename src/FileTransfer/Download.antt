-- ===== src/FileTransfer/Download.antt =====
-- A transfer as the browser sees it: the parts that FileTransfer.cpp gets on the thread of its
-- connection, and the calls of `OnFileTransferDataReceived` of WebAppServer.cpp that they post, which
-- read the counters of the transfer when they run.
pub mod InStep
pub mod Burst
pub mod Order
use html_terminal.Prelude.{ℕ, ◌+◌, true, Option, none, some, List, [], ◌∷◌, ◌++◌, length}
use html_terminal.Protocol.{FileInfo}
use html_terminal.Server.State.{Server, Part}
use html_terminal.Server.Web.{on_file_transfer_data_received}
use html_terminal.Wire.{Packet}
use html_terminal.FileTransfer.{FileSystem, FileTransfer, on_client_read}

-- `posted` has the contents of the messages of the calls that wait, the first one first.
pub record Download : Type 0 where
  pub server : Server
  pub transfer : FileTransfer
  pub posted : List (List ℕ)

-- What is asked of libraries: the file system, and `DeserializeDirectory`.
pub record Outside : Type 0 where
  pub files : FileSystem
  pub deserialize_directory : List ℕ → Option (List FileInfo)

abbrev pub post_received : FileTransfer × Option (List ℕ) → Download → Download
post_received (t, none) d = record d { transfer = t }
post_received (t, some bytes) d = record d { transfer = t; posted = d.posted ++ (bytes ∷ []) }

-- A message of the connection: `OnClientRead`, with the post of `OnFileTransferDataReceived`.
unfoldable pub arrive : Outside → Packet → Download → Download
unfolding on_client_read
arrive out msg d = post_received (on_client_read out.files msg d.transfer) d

-- A message without a header.
abbrev pub raw : List ℕ → Packet
raw bytes = record { type = 0; content = bytes; completed = true }

-- What `OnFileTransferDataReceived(file_transfer, msg)` is given.
abbrev pub part_of : Outside → FileTransfer → List ℕ → Part
part_of out t bytes = record {
  path = t.req_file_path;
  raw = bytes;
  listing = out.deserialize_directory bytes;
  data_transfer_counter = t.data_transfer_counter;
  expected_file_size = t.expected_file_size;
  received_file_size = t.received_file_size;
}

abbrev pub run_first : Outside → List (List ℕ) → Download → Download
run_first out [] d = d
run_first out (bytes ∷ posted) d = record d {
  server = on_file_transfer_data_received d.transfer.req_id (part_of out d.transfer bytes) d.server;
  posted = posted;
}

-- The thread of `WebAppServer` runs the call that has waited longest, if one waits.
unfoldable pub turn : Outside → Download → Download
unfolding on_file_transfer_data_received
turn out d = run_first out d.posted d

-- Each part is passed on before the next one comes.
abbrev pub serve : Outside → List (List ℕ) → Download → Download
serve out [] d = d
serve out (bytes ∷ parts) d = serve out parts (turn out (arrive out (raw bytes) d))

-- All parts come before the thread has a turn.
abbrev pub arrive_all : Outside → List (List ℕ) → Download → Download
arrive_all out [] d = d
arrive_all out (bytes ∷ parts) d = arrive_all out parts (arrive out (raw bytes) d)

-- As many turns as there are parts.
abbrev pub turns : Outside → List (List ℕ) → Download → Download
turns out [] d = d
turns out (_ ∷ parts) d = turns out parts (turn out d)

-- The size of all parts together.
abbrev pub total : List (List ℕ) → ℕ
total [] = 0
total (bytes ∷ parts) = length bytes + total parts
