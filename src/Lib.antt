-- ===== src/Lib.antt =====
-- HTML Terminal: the web client, webapp/, the page through which a browser uses the terminals of
-- remote hosts, and the control server that stands between web clients and remote hosts. The server
-- announces hosts and terminals and carries their output; the page shows one terminal at a time, and
-- lets the user open, close and select terminals and browse the files of a host.
--
-- The parts, from the bottom up, each with the files that model it:
--
-- - View.antt: webapp/view.js, the base of everything that has a node on the page. Dom.antt is what
--   it uses of the browser's document, and Dom/Tree.antt its laws.
-- - Protocol.antt: webapp/message.builder.js, the requests, and the messages that webapp/messenger.js
--   reads. Ui.antt: the state that the classes of a terminal share, and `Messenger.send`.
-- - FileMode.antt: webapp/filemode.node.js, the files of a terminal's host, with FileMode/Path.antt
--   (where a click leads) and FileMode/Format.antt (sizes and dates); Decimal.antt: numbers as text.
-- - TerminalNode.antt: webapp/terminal.node.js, with TerminalNode/Resizing on its timers.
-- - TerminalView.antt: webapp/terminal.view.js, the terminals known and the one on display;
--   TerminalView/Display.antt and TerminalView/Removal.antt compare the state of the view with its node
--   on the page, and TerminalView/Creation.antt is on new terminals.
-- - TermButton.antt: webapp/remote.host.term.bt.js, and RemoteHost.antt: webapp/remote.host.js, a
--   host and its row of buttons: RemoteHost/Calls (its calls of other parts), RemoteHost/Create,
--   RemoteHost/Select, RemoteHost/Terminals and RemoteHost/Remove hold the code. RemoteHost/Row is the
--   abstract view of a row, a list of terminals, and RemoteHost/First, RemoteHost/Addition,
--   RemoteHost/Removal, RemoteHost/Last and RemoteHost/Selection relate the code to it, by the lemmas
--   of RemoteHost/Making, RemoteHost/Steps, RemoteHost/Waiting, RemoteHost/Unlink and
--   RemoteHost/Ending. RemoteHost/Panel compares the row with the panel on the page, with
--   RemoteHost/Clearing and RemoteHost/Keeping on removals and selections.
-- - HostList.antt: webapp/remote.host.list.js. TerminalManager.antt: webapp/terminal.manager.js and
--   webapp/app.event.js, with the push of events of webapp/web.app.js; TerminalManager/Arrival and
--   TerminalManager/Events are on hosts that come and go.
-- - Reconnect.antt: webapp/reconnect.info.js, the countdown to a new connection.
-- - WebApp.antt: webapp/web.app.js and webapp/messenger.js, the handlers of the socket, with
--   WebApp/Start on `init` and WebApp/Listeners on the registration of listeners.
-- - Loader.antt: webapp/loader.js.
-- - Server: the control server. Server/State: the fields of `WebAppServer`, `ActiveSessions` and
--   `TerminalServer`, and the calls that wait for either thread. Server/Tables: `std::map`.
--   Server/Json: JsonMsg.cpp. Server/Sessions: ActiveSessions.cpp. Server/Web, with Server/Web/Reading
--   and Server/Web/Commands: WebAppServer.cpp. Server/Terminals: TerminalServer.cpp. Server/Loops: the
--   turns of both threads and the steps of the whole.
-- - Server/Ownership: the book of who owns which terminal, kept by the lemmas of
--   Server/Ownership/TermSteps, Server/Ownership/WebSteps, Server/Ownership/Transfers,
--   Server/Ownership/WebTurns and Server/Ownership/Steps; Server/Ownership/Safety and
--   Server/Ownership/Isolation draw the consequences. Server/Creation is on how a client gets a
--   terminal, Server/Closing on clients that go, Server/HostView (with its Clients, Commands and
--   Upkeep) on the hosts that clients know of, Server/Requests and Server/Replies on the messages
--   between webapp/ and the server.
-- - Server/Http: the answers of WebAppServer.cpp to HTTP requests, with Server/Http/Downloads on links
--   and Server/Http/Splitting, an instance of the libraries.
-- - TermClient: TerminalClient.cpp and TerminalHandler.cpp, the client on a remote host that has the
--   terminals; TermClient/Flow, TermClient/Backpressure, TermClient/Limits, TermClient/Switches and
--   TermClient/Resuming are on
--   how it holds back their output. There the acknowledgement of the server is a step of its own.
-- - Wire: MessageType.h and the content of messages, with the lemmas of Wire/Layout and an instance in
--   Wire/Memories. Server/Dispatch and TermClient/Dispatch: the messages of TerminalServer.cpp and of
--   TerminalClient.cpp by their bytes, and `OnClientRead` of both. Link joins the two sides:
--   Link/Commands, Link/Answers and Link/Creation; Link/Line, with its Turns, Counts and Acks,
--   is on what is under way between the server and a host, in any order of their steps.
-- - FileTransfer: FileTransfer.cpp, one transfer as either side has it. FileTransfer/Handlers:
--   FileTransferHandlerServer.cpp and FileTransferHandlerClient.cpp. FileTransfer/Init and
--   FileTransfer/Handshake: the start of a transfer. FileTransfer/Download: its parts on their way to the browser, through
--   `OnFileTransferDataReceived` of WebAppServer.cpp, with FileTransfer/Download/InStep,
--   FileTransfer/Download/Burst and FileTransfer/Download/Order on when they come.
-- - App.antt: the whole state of the page. Prelude.antt: names and lemmas that all share.
--   Scenarios.antt: pages, runs of the server and clients at which the theorems are applied.
--
-- How the server works: the network and each thread post calls to the threads (`ThreadLoop`, of the
-- cpp_utils submodule, runs them one at a time). A step of the server is a call that the network
-- posts, any call that waits and runs, or a download, which is served on the thread of the HTTP
-- server; steps come in any order. A turn of a thread runs the call that has waited longest: the
-- theorems on how a terminal is created and on the client of a remote host take the order of the posts
-- for granted. A client and a host are the ids of their connections, and a message that is sent is an
-- entry of `sent`, the latest first. `up` says which hosts have a connection when a call runs
-- (`GetClient` of the server library), and is a parameter.
--
-- How the parts of the page interact: a message of the socket is an `Inbound` of `on_ws_message`,
-- which calls the terminal manager or pushes an event to the listeners, the host list and the
-- terminal manager; a click is a call of `on_button_clicked`, `on_term_bt_close_clicked`,
-- `on_host_clicked` or `on_entry_clicked`. Operations have the type `M S A`: they take a state to a
-- result and a new state,
-- and the result is an error where the code throws, with the state as it was then. An object is a
-- number, and a store of the state leads from it to the object, so that two parts of the program that
-- hold the same object see each other's changes. Names follow the code: `addTerminal` is
-- `add_terminal`.
--
-- Chosen: numbers of the program (ids, sizes, timestamps) are natural numbers; a file size is exact,
-- as it is in a double below 2 ^ 53. On the server an id is taken modulo 2 ^ 32, as `uint32_t` and `int`
-- do; the theorems on all runs take fewer than 2 ^ 32 steps, since the counter of terminal ids wraps
-- there. Texts are lists of UTF-16 code units, in the messages of hosts of bytes. A timer that is pending is
-- an entry of `timers`; a step of the countdown is one timer that fires. The digits of a number (Decimal.antt)
-- are made with fuel, one round more than the number, which is proved to be enough; no other definition
-- runs on fuel.
--
-- Not modelled: what elements an HTML text writes by innerHTML, the layout, console output, xterm.js
-- and addon-fit.js (third-party; calls of xterm are recorded in `calls`), JSON.parse and JSON.stringify
-- (`Inbound` and `Json` are their values), `dump` of the server's JSON library, which
-- throws on a text that is no UTF-8 (what the browser makes of the bytes is the parameter `decode` of
-- Server/Replies), what a browser asks for when a link is clicked (`requested` of Server/Http/Downloads),
-- webapp/remote.host.options.js (an empty view that nothing
-- uses). Of the server and the client on a remote host: pseudo terminals (`Terminal` of the cpp_utils
-- submodule; `init` says which start) and the start of the processes and of connections. What else they
-- use of cpp_utils is a parameter: `Memory`
-- of Wire.antt (the content of messages), `FileSystem` of FileTransfer.antt with `Outside` of
-- FileTransfer/Download.antt (files and listings of directories), and `Outside` of Server/Http.antt
-- (splitting, reading numbers, types of files, and the files that the build packs). Wire/Memories.antt
-- and Server/Http/Splitting.antt have instances that meet the laws asked for.
--
-- Dates are those of a parameter, `local_time`.
pub mod Prelude
pub mod Dom
pub mod View
pub mod Protocol
pub mod Ui
pub mod Decimal
pub mod FileMode
pub mod TerminalNode
pub mod TerminalView
pub mod App
pub mod TermButton
pub mod RemoteHost
pub mod Reconnect
pub mod HostList
pub mod TerminalManager
pub mod WebApp
pub mod Loader
pub mod Wire
pub mod Server
pub mod FileTransfer
pub mod TermClient
pub mod Link
pub mod Scenarios
