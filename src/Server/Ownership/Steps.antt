-- ===== src/Server/Ownership/Steps.antt =====
-- The steps of the control server, and a book for each state that it reaches.
use html_terminal.Prelude.{
  ◌++◌, All-middle, ℕ, suc, ◌^◌, ◌≤◌, ◌<◌, ◌≡◌, refl, subst, true, List, arith, All,
}
use html_terminal.Server.State.{Server, WebCall, TermCall}
use html_terminal.Server.Loops.{
  from_network, from_host, Step, web_arrives, host_arrives, download, web_runs, term_runs, Reach,
  here, next,
}
use html_terminal.Server.Ownership.{Book, WebFact, TermFact, AgreesWith}
use html_terminal.Server.Ownership.TermSteps.{
  post_web-AgreesWith, post_term-AgreesWith, Grown, grown, same_book, run_term-Grown,
}
use html_terminal.Server.Ownership.WebTurns.{AgreesIfAny, run_web-AgreesIfAny}
use html_terminal.Server.Ownership.Transfers.{perpare_file_download_response-AgreesWith}

from_network-WebFact : (b : Book) (call : WebCall) → from_network call ≡ true → WebFact b call
from_network-WebFact b (WebCall.on_terminal_created c t h success) e = cc
from_network-WebFact b (WebCall.on_terminal_output c t output) e = cc
from_network-WebFact b (WebCall.on_terminal_closed c t h) e = cc
from_network-WebFact b _ e = tt

from_host-TermFact : (b : Book) (call : TermCall) → from_host call ≡ true → TermFact b call
from_host-TermFact b (TermCall.resize_terminal h t width height) e = cc
from_host-TermFact b (TermCall.delete_terminal h t) e = cc
from_host-TermFact b (TermCall.send_key_event h t key) e = cc
from_host-TermFact b _ e = tt

without-AgreesWith :
    (b : Book) (s : Server) (web : List WebCall) (term : List TermCall)
    → AgreesWith b s
    → All (WebFact b) web
    → All (TermFact b) term
    → AgreesWith b (record s { web_calls = web; term_calls = term })
without-AgreesWith b s web term i f g = record {
  counter = i.counter;
  sessions = i.sessions;
  transfers = i.transfers;
  hosts = i.hosts;
  web = f;
  term = g;
  sent = i.sent;
}

-- Any step keeps the agreement, with at most one terminal more in the book.
Step-Grown :
    {s s' : Server} (b : Book) → suc b.last < 2 ^ 32 → Step s s' → AgreesWith b s → Grown b s'
Step-Grown b small (web_arrives call e) i =
    same_book b _ (post_web-AgreesWith b _ i call (from_network-WebFact b call e))
Step-Grown b small (host_arrives call e) i =
    same_book b _ (post_term-AgreesWith b _ i call (from_host-TermFact b call e))
Step-Grown b small (download up c t path) i =
    same_book b _ (perpare_file_download_response-AgreesWith b up c t path _ i)
Step-Grown {s} {s'} b small (web_runs up before call after e run) i =
    let (f, others) = All-middle (WebFact b) before call after (subst (All (WebFact b)) e i.web) in
    let left = record s { web_calls = before ++ after } in
    same_book b s' (
      subst (AgreesIfAny b) run (
        run_web-AgreesIfAny b up call left f
          (without-AgreesWith b s (before ++ after) s.term_calls i others i.term)))
Step-Grown {s} b small (term_runs up before call after e) i =
    let (f, others) =
      All-middle (TermFact b) before call after (subst (All (TermFact b)) e i.term) in
    let left = record s { term_calls = before ++ after } in
    run_term-Grown up b left (without-AgreesWith b s s.web_calls (before ++ after) i i.web others)
      small call f

abbrev first_book : Book
first_book = record { last = 0; client_of = λ _. 0; host_of = λ _. 0 }

-- The book of a state, whose terminals are no more than the steps to it.
pub data Booked (n : ℕ) (s : Server) : Type 0 where
  booked : (b : Book) → AgreesWith b s → b.last ≤ n → Booked n s

Step-Booked : {n : ℕ} {s s' : Server} → suc n < 2 ^ 32 → Booked n s → Step s s' → Booked (suc n) s'
Step-Booked small (booked b i le) step = elim (Step-Grown b (omega arith) step i) [
  | grown b' i' le' ↦ booked b' i' (omega arith)
]

pub Reach-Booked : {n : ℕ} {s : Server} → Reach n s → n < 2 ^ 32 → Booked n s
Reach-Booked here small =
    booked first_book
      (record {
        counter = refl;
        sessions = tt;
        transfers = tt;
        hosts = tt;
        web = tt;
        term = tt;
        sent = tt;
      })
      (omega arith)
Reach-Booked (next r step) small = Step-Booked small (Reach-Booked r (omega arith)) step
