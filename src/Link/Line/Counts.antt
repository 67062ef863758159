-- ===== src/Link/Line/Counts.antt =====
-- Counting output and acknowledgements, message by message.
use html_terminal.Prelude.{
  ℕ, suc, ◌+◌, ◌^◌, ◌≤◌, ◌<◌, ◌≡◌, refl, sym, ap, not, ◌&&◌, ◌||◌, Option, none, some, List, [],
  ◌∷◌, ◌++◌, Text, ltb, leb, Bool-cases, inl, inr, arith,
}
use html_terminal.Wire.{MessageType}
use html_terminal.Server.State.{HostMsg, on_terminal_write, file_transfer_req}
use html_terminal.Server.Dispatch.{TerminalServer, introduce}
use html_terminal.TermClient.{
  TermClient, Reply, on_terminal_created, on_terminal_read, on_terminal_end, client_info, ping,
  pong, resolve_pending_msg_updated,
}
use html_terminal.TermClient.Dispatch.{TerminalClient}
use html_terminal.Link.{delivered, heard}
use html_terminal.Link.Line.Turns.{Same}
use html_terminal.Link.Line.{
  Down, command, ack, pong_back, pinged, type_of, after_replies, after_answers, reads, acks,
}

pub reads-cons :
    (msg : Reply) (msgs : List Reply) → reads (msg ∷ msgs) ≡ reads (msg ∷ []) + reads msgs
reads-cons (on_terminal_created t result) msgs = omega arith
reads-cons (on_terminal_read t output) msgs = omega arith
reads-cons (on_terminal_end t) msgs = omega arith
reads-cons (client_info user_name client_name) msgs = omega arith
reads-cons ping msgs = omega arith
reads-cons pong msgs = omega arith

pub acks-cons : (msg : Down) (msgs : List Down) → acks (msg ∷ msgs) ≡ acks (msg ∷ []) + acks msgs
acks-cons (command msg) msgs = omega arith
acks-cons ack msgs = omega arith
acks-cons pong_back msgs = omega arith
acks-cons pinged msgs = omega arith

pub reads-append : (xs ys : List Reply) → reads (xs ++ ys) ≡ reads xs + reads ys
reads-append [] ys = omega arith
reads-append (x ∷ xs) ys =
    omega (arith, reads-cons x (xs ++ ys), reads-cons x xs, reads-append xs ys)

pub acks-append : (xs ys : List Down) → acks (xs ++ ys) ≡ acks xs + acks ys
acks-append [] ys = omega arith
acks-append (x ∷ xs) ys = omega (arith, acks-cons x (xs ++ ys), acks-cons x xs, acks-append xs ys)

pub reads-after_replies :
    (msgs sent : List Reply) → reads (after_replies msgs sent) ≡ reads msgs + reads sent
reads-after_replies [] sent = omega arith
reads-after_replies (msg ∷ msgs) sent =
    omega (arith, reads-after_replies msgs (msg ∷ sent), reads-cons msg sent, reads-cons msg msgs)

-- The acknowledgements that a server has sent.
abbrev pub acks_sent : List (ℕ × MessageType) → ℕ
acks_sent [] = 0
acks_sent ((h, MessageType.on_terminal_read_ack) ∷ sent) = suc (acks_sent sent)
acks_sent (_ ∷ sent) = acks_sent sent

acks_sent-cons :
    (h : ℕ) (msg : Down) (sent : List (ℕ × MessageType))
    → acks_sent ((h, type_of msg) ∷ sent) ≡ acks (msg ∷ []) + acks_sent sent
acks_sent-cons h (command msg) sent = omega arith
acks_sent-cons h ack sent = omega arith
acks_sent-cons h pong_back sent = omega arith
acks_sent-cons h pinged sent = omega arith

pub acks_sent-after_answers :
    (h : ℕ) (msgs : List Down) (sent : List (ℕ × MessageType))
    → acks_sent (after_answers h msgs sent) ≡ acks msgs + acks_sent sent
acks_sent-after_answers h [] sent = omega arith
acks_sent-after_answers h (msg ∷ msgs) sent = omega (
  arith,
  acks_sent-after_answers h msgs ((h, type_of msg) ∷ sent),
  acks_sent-cons h msg sent,
  acks-cons msg msgs,
)

pub resolve-Same : (c : TermClient) → Same c (resolve_pending_msg_updated c)
unfolding resolve_pending_msg_updated
resolve-Same c =
    elim (Bool-cases (ltb 10 c.pending_msg_counter && not (leb (2 ^ 31) c.pending_msg_counter))) [
      | inl e ↦ rw e (refl, refl)
      | inr e ↦
          elim (Bool-cases (ltb c.pending_msg_counter 5 || leb (2 ^ 31) c.pending_msg_counter)) [
            | inl f ↦ rw (e, f) (refl, refl)
            | inr f ↦ rw (e, f) (refl, refl)
          ]
    ]

pub heard-acks :
    (h : ℕ) (ip : Text) (msg : Reply) (s : TerminalServer)
    → acks_sent (heard h ip msg s).host_sent ≡ reads (msg ∷ []) + acks_sent s.host_sent
heard-acks h ip (on_terminal_created t result) s = omega arith
heard-acks h ip (on_terminal_read t output) s = omega arith
heard-acks h ip (on_terminal_end t) s = omega arith
heard-acks h ip (client_info user_name client_name) s = omega arith
heard-acks h ip ping s = omega arith
heard-acks h ip pong s = omega arith

pub introduce-acks :
    (h : ℕ) (ip : Text) (o : Option (Text × Text)) (s s' : TerminalServer)
    → introduce h ip o s ≡ some s'
    → acks_sent s'.host_sent ≡ acks_sent s.host_sent
introduce-acks h ip none s s' e = cc
introduce-acks h ip (some (user_name, host_name)) s s' e =
    let sent : s.host_sent ≡ s'.host_sent = ground (arith, e) in ap acks_sent (sym sent)

-- What the client's counter is to be after a message.
abbrev pub Keeps : Down → TermClient → TermClient → Type 0
Keeps msg c c' =
    (reads c'.sent ≡ reads c.sent)
    × (acks (msg ∷ []) ≤ c.pending_msg_counter
        → c.pending_msg_counter < 2 ^ 32
        → c'.pending_msg_counter + acks (msg ∷ []) ≡ c.pending_msg_counter)

pub delivered-Keeps :
    (msg : HostMsg) (c : TerminalClient)
    → Keeps (command msg) c.terminals (delivered msg c).terminals
delivered-Keeps (HostMsg.create_terminal t) c = (refl, λ h g. omega arith)
delivered-Keeps (HostMsg.resize_terminal t width height) c = (refl, λ h g. omega arith)
delivered-Keeps (HostMsg.delete_terminal t) c = (refl, λ h g. omega arith)
delivered-Keeps (on_terminal_write t key) c = (refl, λ h g. omega arith)
delivered-Keeps (file_transfer_req id []) c = (refl, λ h g. omega arith)
delivered-Keeps (file_transfer_req id (b ∷ path)) c = (refl, λ h g. omega arith)
