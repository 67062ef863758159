-- ===== src/Server/HostView.antt =====
-- The remote hosts that a web client knows of, by what it was sent, and those that are active.
pub mod Clients
pub mod Commands
pub mod Upkeep
use html_terminal.Prelude.{
  ℕ, ◌≡◌, refl, sym, ◌∙◌, Bool, true, false, ◌&&◌, ◌||◌, Option, none, some, List, [], ◌∷◌, Dict,
  lookup, is_some, All, All-mono, arith, Bool-cases, Option-cases, inl, inr, if◌then◌else◌, ◌==◌,
  Text,
}
use html_terminal.Server.Tables.{
  place, emplace, remove, assign, rewrite, lookup-remove, lookup-emplace,
}
use html_terminal.Server.Sessions.{clients_of}
use html_terminal.Server.State.{
  Server, WebAppSession, RemoteHostInfo, Sent, to_web, to_host, to_http, WebMsg, host_connected,
  host_disconnected, terminal_created, terminal_output, terminal_closed, directory_listing,
  send_all, send,
}
use html_terminal.Server.Web.{greet}

-- Whether the latest message to a client about a host says that it is connected; the latest message
-- stands first.
unfoldable pub knows : ℕ → ℕ → List Sent → Bool
knows c h [] = false
knows c h (to_host d msg ∷ sent) = knows c h sent
knows c h (to_http d msg ∷ sent) = knows c h sent
knows c h (to_web d (host_connected j ip user_name name) ∷ sent) =
    let before = knows c h sent in if c == d && h == j then true else before
knows c h (to_web d (host_disconnected j) ∷ sent) =
    let before = knows c h sent in if c == d && h == j then false else before
knows c h (to_web d (terminal_created j t) ∷ sent) = knows c h sent
knows c h (to_web d (terminal_output t output) ∷ sent) = knows c h sent
knows c h (to_web d (terminal_closed t j) ∷ sent) = knows c h sent
knows c h (to_web d (directory_listing t path files) ∷ sent) = knows c h sent

abbrev pub KnowsHosts : List Sent → Dict RemoteHostInfo → ℕ → Type 0
KnowsHosts sent hosts c = (h : ℕ) → knows c h sent ≡ is_some (lookup h hosts)

-- Every client with a session knows just the active hosts.
abbrev pub AllKnowHosts : Server → Type 0
AllKnowHosts s = All (KnowsHosts s.sent s.active_remote_hosts) (clients_of s.web_app_sessions)

unfoldable pub member : ℕ → List ℕ → Bool
member c [] = false
member c (d ∷ ds) = c == d || member c ds

pub All-member :
    (cs ds : List ℕ)
    → ((c : ℕ) → member c ds ≡ true → member c cs ≡ true)
    → All (λ c. member c cs ≡ true) ds
unfolding member
All-member cs [] f = tt
All-member cs (d ∷ ds) f = (f d (ground arith), All-member cs ds (λ c e. f c (ground (arith, e))))

pub knows-connected :
    (c h j : ℕ) (ip user_name name : Text) (cs : List ℕ) (s : Server)
    → knows c h (send_all cs (host_connected j ip user_name name) s).sent
      ≡ (if member c cs && h == j then true else knows c h s.sent)
unfolding knows member
knows-connected c h j ip user_name name [] s = refl
knows-connected c h j ip user_name name (d ∷ ds) s = ground (
  arith,
  knows-connected c h j ip user_name name ds
      (send (to_web d (host_connected j ip user_name name)) s),
)

pub knows-disconnected :
    (c h j : ℕ) (cs : List ℕ) (s : Server)
    → knows c h (send_all cs (host_disconnected j) s).sent
      ≡ (if member c cs && h == j then false else knows c h s.sent)
unfolding knows member
knows-disconnected c h j [] s = refl
knows-disconnected c h j (d ∷ ds) s =
    ground (arith, knows-disconnected c h j ds (send (to_web d (host_disconnected j)) s))

pub knows-greet :
    (c h d : ℕ) (hosts : Dict RemoteHostInfo) (s : Server)
    → knows c h (greet d hosts s).sent
      ≡ (if c == d && is_some (lookup h hosts) then true else knows c h s.sent)
unfolding knows greet
knows-greet c h d [] s = ground arith
knows-greet c h d ((j, x) ∷ hosts) s = ground (
  arith,
  knows-greet c h d hosts
      (send (to_web d (host_connected j x.ip x.client_user_name x.client_name)) s),
)
