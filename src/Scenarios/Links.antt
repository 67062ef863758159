-- ===== src/Scenarios/Links.antt =====
-- The theorems on messages, downloads and HTTP requests, with a memory whose integers have their lowest
-- byte first, and a remote host (7) with one file of five bytes.
use html_terminal.Prelude.{
  ℕ, ◌≡◌, refl, Bool, true, false, none, some, List, [], ◌∷◌, ◌++◌, Text, codes, lookup, arith,
  same_text, All, if◌then◌else◌,
}
use html_terminal.Wire.Memories.{plain, plain-IsLawful}
use html_terminal.Server.State.{
  Server, WebCall, WebMsg, to_web, to_host, FileTransferSession, HostMsg, on_terminal_write,
  to_http, file_header, file_data,
}
use html_terminal.Server.Tables
use html_terminal.Server.Loops as Loops
use html_terminal.Server.Loops.{start, web_turn, web_arrives, web_turn-Step}
use html_terminal.Server.Sessions.{find_remote_host, get_remote_host_by_terminal}
use html_terminal.Server.Terminals.{next_id}
use html_terminal.Server.Web.{perpare_file_download_response}
use html_terminal.Server.Dispatch as Control
use html_terminal.Server.Dispatch.{TerminalServer, host_packet, post_call}
use html_terminal.Server.Http.{Outside as Site, handled, no_response, has_request, handle}
use html_terminal.Server.Http.Downloads.{IsQueryChar, handle-href_of}
use html_terminal.Server.Http.Splitting as Splitting
use html_terminal.FileMode.Path.{href_of}
use html_terminal.FileTransfer.{FileSystem, new_transfer}
use html_terminal.FileTransfer.Handshake.{handshake, HaveAgreed, offer, handshake-HaveAgreed}
use html_terminal.FileTransfer.Download.{
  Download, Outside, raw, arrive, arrive_all, turn, turns, serve,
}
use html_terminal.FileTransfer.Download.InStep.{IsAt, serve_lem}
use html_terminal.FileTransfer.Download.Burst.{turns-arrive_all}
use html_terminal.FileTransfer.Download.Order.{here, comes, runs, parts_in, Reach-parts_in}
use html_terminal.TermClient.{Reply, client_info}
use html_terminal.TermClient.Flow.{connected}
use html_terminal.TermClient.Dispatch as Host
use html_terminal.TermClient.Dispatch.{TerminalClient, reply_packet}
use html_terminal.Link.{delivered, heard}
use html_terminal.Link.Commands.{on_client_read-host_packet}
use html_terminal.Link.Answers.{on_client_read-reply_packet}
use html_terminal.Link.Creation.{round_trip, round_trip_lem}

abbrev client : TerminalClient
client = record { terminals = connected; files = record { transfers = []; connecting = [] } }

abbrev control : TerminalServer
control = record { server = start; transfers = []; host_sent = []; monitored = []; removed = [] }

abbrev typed : HostMsg
typed = on_terminal_write 70000 (codes "ls")

on_client_read-host_packet_example :
    Host.on_client_read plain (host_packet plain typed) client ≡ delivered typed client
on_client_read-host_packet_example = on_client_read-host_packet plain plain-IsLawful typed client

abbrev intro : Reply
intro = client_info (codes "me") (codes "my host")

on_client_read-reply_packet_example :
    Control.on_client_read plain 7 (codes "10.0.0.1") (reply_packet plain intro) control
    ≡ some (heard 7 (codes "10.0.0.1") intro control)
on_client_read-reply_packet_example =
    on_client_read-reply_packet plain plain-IsLawful 7 (codes "10.0.0.1") intro control
      ((λ e. omega (arith, e)), ((λ e. omega (arith, e)), tt))

abbrev starts : ℕ → Bool
starts t = true

-- The web client 1 has a session.
abbrev greeted : TerminalServer
greeted = record control {
  server = record start { web_app_sessions = (1, record { client = 1; terminal_ids = [] }) ∷ [] };
}

greeted-Reach : Loops.Reach 2 greeted.server
unfolding web_turn Tables.place
greeted-Reach =
    Loops.next (Loops.next Loops.here (web_arrives (WebCall.add_client 1) refl))
      (web_turn-Step (λ h. true) _ _ refl)

round_trip_lem_example :
    (s' : Server) × (round_trip plain starts (λ h. true) 7 [] client 1 greeted ≡ some s')
    × (s'.sent
        ≡ to_web 1 (WebMsg.terminal_created 7 1) ∷ to_host 7 (HostMsg.create_terminal 1) ∷ [])
    × (get_remote_host_by_terminal 1 1 s' ≡ some 7)
    × (get_remote_host_by_terminal 1 1 greeted.server ≡ none)
unfolding next_id
round_trip_lem_example =
    round_trip_lem plain starts (λ h. true) 7 1 [] client (record { client = 1; terminal_ids = [] })
      greeted plain-IsLawful greeted-Reach (omega arith) (omega arith) refl refl refl refl refl refl
      refl

abbrev text : List ℕ
text = codes "hello"

-- The host has a file and a directory, which has one byte to its listing.
abbrev is_dir : Text → Bool
is_dir path = same_text path (codes "/d")

abbrev disk : FileSystem
disk = record {
  exists = λ path. some true;
  is_directory = λ path. some (is_dir path);
  file_size = λ path. some 5;
  serialize_directory = λ path. some (0 ∷ []);
  create_from_file = λ path. some text;
}

handshake-HaveAgreed_example :
    let path = codes "/f" in
    let sides = handshake plain disk 8 1 (new_transfer 3 path true) (new_transfer 3 path true) in
    HaveAgreed (offer disk path) sides.0 sides.1
handshake-HaveAgreed_example = handshake-HaveAgreed plain plain-IsLawful disk 3 8 1 (codes "/f")

abbrev outside : Outside
outside = record { files = disk; deserialize_directory = λ bytes. none }

abbrev session : FileTransferSession
session = record { id = 3; web_app_client = 2; terminal_id = 0 }

-- The browser 2 has asked for the file, and the host is about to send it.
abbrev begun : Download
begun = record {
  server = record start { transfer_sessions = (3, session) ∷ []; transfer_id_counter = 3 };
  transfer = record (new_transfer 3 (codes "/f") true) {
    awaing_raw_data = true;
    expected_file_size = 5;
  };
  posted = [];
}

begun-IsAt : IsAt session 5 0 0 begun
begun-IsAt = record {
  found = refl;
  download = refl;
  awaits = refl;
  expected = refl;
  counter = refl;
  received = refl;
  idle = refl;
}

serve_lem_example :
    let d' = serve outside (codes "he" ∷ codes "llo" ∷ []) begun in
    (d'.server.sent
      ≡ to_http 2 (file_data (codes "llo"))
        ∷ to_http 2 (file_data (codes "he"))
        ∷ to_http 2 (file_header 5)
        ∷ [])
    × (lookup 3 d'.server.transfer_sessions ≡ none)
    × (d'.posted ≡ [])
serve_lem_example =
    serve_lem outside session 5 (codes "he") (codes "llo" ∷ []) begun begun-IsAt (omega arith, tt)
      (omega arith) refl (omega arith)

turns-arrive_all_example :
    let all = codes "he" ∷ codes "llo" ∷ [] in
    let d' = turns outside all (arrive_all outside all begun) in
    (d'.server.sent ≡ to_http 2 (file_data (codes "he")) ∷ [])
    × (lookup 3 d'.server.transfer_sessions ≡ none)
    × (d'.posted ≡ [])
turns-arrive_all_example =
    turns-arrive_all outside session 5 (codes "he") (codes "llo") [] begun begun-IsAt (omega arith)
      refl (omega arith)

Reach-parts_in_example :
    let d = turn outside (arrive outside (raw (codes "he")) begun) in
    (rest : List (List ℕ)) × (parts_in 2 d.server.sent ++ rest ≡ parts_in 2 [] ++ (codes "he" ∷ []))
Reach-parts_in_example = Reach-parts_in session 5 begun-IsAt (runs (comes (codes "he") here))

abbrev web : Site
web = Splitting.plain ((codes "index.html", codes "<html>") ∷ []) (codes "text/html")

abbrev up : ℕ → Bool
up h = true

-- Client 1 has the terminal 12 at the host 7.
abbrev serving : Server
serving = record start {
  web_app_sessions = (1, record { client = 1; terminal_ids = (12, 7) ∷ [] }) ∷ [];
}

abbrev as_written : Text → Text
as_written link = b'/' ∷ link

slash_f : All IsQueryChar (codes "/f")
slash_f = (
  (
    omega arith,
    omega arith,
    (λ e. omega (arith, e)),
    (λ e. omega (arith, e)),
    (λ e. omega (arith, e)),
    (λ e. omega (arith, e)),
    λ e. omega (arith, e),
  ),
  (
    (
      omega arith,
      omega arith,
      (λ e. omega (arith, e)),
      (λ e. omega (arith, e)),
      (λ e. omega (arith, e)),
      (λ e. omega (arith, e)),
      λ e. omega (arith, e),
    ),
    tt,
  ),
)

handle-href_of_example :
    handle web up false
      (record {
        client = some (2, codes "127.0.0.1");
        is_get = true;
        request_target = as_written (href_of 12 (codes "/f"));
      })
      serving
    ≡ some (
      if has_request up (find_remote_host 12 serving.web_app_sessions)
          then handled
          else no_response,
      perpare_file_download_response up 2 12 (codes "/f") serving,
    )
handle-href_of_example =
    handle-href_of web up false 2 12 (codes "127.0.0.1") (codes "/f") serving as_written
      (Splitting.plain-IsLawful ((codes "index.html", codes "<html>") ∷ []) (codes "text/html"))
      (λ query plain. refl) slash_f refl (omega arith) (λ e. cc)
