-- ===== src/Server/Closing.antt =====
-- `RemoveClient` of WebAppServer.cpp: what is left of a web client whose connection closes.
use html_terminal.Prelude.{
  ◌==◌, if◌then◌else◌, ℕ, ◌≡◌, refl, ap, ◌∙◌, none, some, List, [], ◌∷◌, ◌++◌, Dict, lookup, map,
}
use html_terminal.Server.Tables.{lookup-remove}
use html_terminal.Server.Sessions.{get_web_app_session, erase_web_app_session}
use html_terminal.Server.State.{Server, WebAppSession, TermCall, post_term}
use html_terminal.Server.Web.{delete_all, remove_client}

-- The call that ends a terminal.
abbrev pub ending : ℕ × ℕ → TermCall
ending (t, h) = TermCall.delete_terminal h t

append_assoc : (xs ys zs : List TermCall) → (xs ++ ys) ++ zs ≡ xs ++ (ys ++ zs)
append_assoc [] ys zs = refl
append_assoc (x ∷ xs) ys zs = ap (λ r. x ∷ r) (append_assoc xs ys zs)

append_nil : (xs : List TermCall) → xs ++ [] ≡ xs
append_nil [] = refl
append_nil (x ∷ xs) = ap (λ r. x ∷ r) (append_nil xs)

delete_all_lem :
    (terminals : Dict ℕ) (s : Server)
    → delete_all terminals s ≡ record s { term_calls = s.term_calls ++ map ending terminals }
unfolding delete_all
delete_all_lem [] s = rw (append_nil s.term_calls) refl
delete_all_lem ((t, h) ∷ terminals) s =
    delete_all_lem terminals (post_term (ending (t, h)) s)
    ∙ ap (λ calls. record s { term_calls = calls })
        (append_assoc s.term_calls (ending (t, h) ∷ []) (map ending terminals))

-- When a client with a session goes, its session goes with it, those of the others stay as they are,
-- nothing is sent, and the end of each terminal of the session, in their order and with its host, is
-- passed on to the thread of the terminals.
pub remove_client_lem :
    (c : ℕ) (x : WebAppSession) (s : Server)
    → lookup c s.web_app_sessions ≡ some x
    → let s' = remove_client c s in
      ((j : ℕ)
        → lookup j s'.web_app_sessions ≡ (if j == c then none else lookup j s.web_app_sessions))
      × (s'.term_calls ≡ s.term_calls ++ map ending x.terminal_ids)
      × (s'.sent ≡ s.sent)
unfolding remove_client get_web_app_session erase_web_app_session
remove_client_lem c x s e =
    rw (e, delete_all_lem x.terminal_ids s) (λ j. lookup-remove j c s.web_app_sessions, refl, refl)
