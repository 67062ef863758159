-- ===== src/Server.antt =====
-- The control server: WebAppServer.cpp, TerminalServer.cpp, ActiveSessions.cpp and JsonMsg.cpp. It
-- stands between web clients and the remote hosts that have the terminals.
pub mod Tables
pub mod Json
pub mod State
pub mod Sessions
pub mod Terminals
pub mod Web
pub mod Loops
pub mod Dispatch
pub mod Http
pub mod Ownership
pub mod Requests
pub mod Replies
pub mod Closing
pub mod Creation
pub mod HostView
