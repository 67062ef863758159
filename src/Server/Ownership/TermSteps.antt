-- ===== src/Server/Ownership/TermSteps.antt =====
-- The calls on the thread of TerminalServer.cpp, and the agreement with a book.
use html_terminal.Prelude.{
  ℕ, suc, ◌+◌, ◌%◌, ◌^◌, ◌≤◌, ◌<◌, ◌≡◌, subst, Bool, some, [], ◌∷◌, Dict, lookup, All, All-append,
  arith, Bool-cases, Option-cases, inl, inr,
}
use html_terminal.Server.Tables.{
  emplace, remove, assign, All-lookup, All-emplace, All-remove, All-assign,
}
use html_terminal.Server.State.{
  Server, TerminalInfo, Sent, to_host, HostMsg, WebCall, TermCall, send, post_web, post_term,
}
use html_terminal.Server.Terminals.{
  next_id, table_of, add_terminal, create_new_terminal, send_to, resize_terminal, delete_terminal,
  send_key_event, get_app_clinet_id, call_for, handle_terminal_created, handle_terminal_read,
  handle_terminal_end, on_client_closed, run_term,
}
use html_terminal.Server.Ownership.{
  Book, Owns, WebFact, TermFact, SentFact, HostFact, InfoFact, HostMsgFact, AgreesWith, entered,
  entered-Owns, entered-last, AgreesWith-mono,
}

module _ (b : Book) (s : Server) (i : AgreesWith b s) where
  open i use {counter, sessions, transfers, hosts, web, term, sent}

  pub post_web-AgreesWith : (call : WebCall) → WebFact b call → AgreesWith b (post_web call s)
  post_web-AgreesWith call f = record {
    counter = counter;
    sessions = sessions;
    transfers = transfers;
    hosts = hosts;
    web = All-append (WebFact b) s.web_calls (call ∷ []) web (f, tt);
    term = term;
    sent = sent;
  }

  pub post_term-AgreesWith : (call : TermCall) → TermFact b call → AgreesWith b (post_term call s)
  post_term-AgreesWith call f = record {
    counter = counter;
    sessions = sessions;
    transfers = transfers;
    hosts = hosts;
    web = web;
    term = All-append (TermFact b) s.term_calls (call ∷ []) term (f, tt);
    sent = sent;
  }

  pub send-AgreesWith : (msg : Sent) → SentFact b msg → AgreesWith b (send msg s)
  send-AgreesWith msg f = record {
    counter = counter;
    sessions = sessions;
    transfers = transfers;
    hosts = hosts;
    web = web;
    term = term;
    sent = (f, sent);
  }

  hosts-AgreesWith :
      (m : Dict (Dict TerminalInfo))
      → All (HostFact b) m
      → AgreesWith b (record s { remote_hosts = m })
  hosts-AgreesWith m f = record {
    counter = counter;
    sessions = sessions;
    transfers = transfers;
    hosts = f;
    web = web;
    term = term;
    sent = sent;
  }

  table_of-All : (h : ℕ) → All (InfoFact b h) (table_of (lookup h s.remote_hosts))
  table_of-All h = elim (Option-cases (lookup h s.remote_hosts)) [
    | inl e ↦ rw e tt
    | inr (table, e) ↦ rw e (All-lookup (HostFact b) h s.remote_hosts hosts e)
  ]

  add_terminal-AgreesWith :
      (h t : ℕ) (info : TerminalInfo)
      → Owns b info.app_client_id h t
      → AgreesWith b (add_terminal h t info s)
  unfolding add_terminal
  add_terminal-AgreesWith h t info o =
      let table = table_of (lookup h s.remote_hosts) in
      hosts-AgreesWith (assign h (emplace t info table) s.remote_hosts) (
        All-assign (HostFact b) h (emplace t info table) s.remote_hosts
          (All-emplace (InfoFact b h) t info table o (table_of-All h)) hosts)

  send_to-AgreesWith :
      (up : ℕ → Bool) (h : ℕ) (msg : HostMsg)
      → HostMsgFact b h msg
      → AgreesWith b (send_to up h msg s)
  unfolding send_to
  send_to-AgreesWith up h msg f = elim (Bool-cases (up h)) [
    | inl e ↦ rw e (send-AgreesWith (to_host h msg) f)
    | inr e ↦ rw e i
  ]

  -- The client that the table of a host has for a terminal is the one of the book.
  get_app_clinet_id-Owns : (h t c : ℕ) → get_app_clinet_id h t s ≡ some c → Owns b c h t
  unfolding get_app_clinet_id
  get_app_clinet_id-Owns h t c e = elim (Option-cases (lookup h s.remote_hosts)) [
    | inl q ↦ absurd (ground arith)
    | inr (table, q) ↦ elim (Option-cases (lookup t table)) [
      | inl r ↦ absurd (ground arith)
      | inr (info, r) ↦
          let same : info.app_client_id ≡ c = ground arith in
          subst (λ x. Owns b x h t) same
            (All-lookup (InfoFact b h) t table (All-lookup (HostFact b) h s.remote_hosts hosts q) r)
    ]
  ]

  call_for-AgreesWith :
      (h t : ℕ) (call : ℕ → WebCall)
      → ((c : ℕ) → Owns b c h t → WebFact b (call c))
      → AgreesWith b (call_for (get_app_clinet_id h t s) call s)
  call_for-AgreesWith h t call f = elim (Option-cases (get_app_clinet_id h t s)) [
    | inl e ↦ rw e i
    | inr (c, e) ↦ rw e (post_web-AgreesWith (call c) (f c (get_app_clinet_id-Owns h t c e)))
  ]

-- The terminals known after a step: at most one more.
pub data Grown (b : Book) (s : Server) : Type 0 where
  grown : (b' : Book) → AgreesWith b' s → b'.last ≤ suc b.last → Grown b s

pub same_book : (b : Book) (s : Server) → AgreesWith b s → Grown b s
same_book b s i = grown b i (omega arith)

module _ (up : ℕ → Bool) (b : Book) (s : Server) (i : AgreesWith b s)
    (small : suc b.last < 2 ^ 32) where
  create_new_terminal-Grown : (c h : ℕ) → Grown b (create_new_terminal up c h s)
  unfolding create_new_terminal next_id
  create_new_terminal-Grown c h = elim (Bool-cases (up h)) [
    | inl e ↦
        let id : (s.id_counter + 1) % 2 ^ 32 ≡ suc b.last = omega (arith, i.counter) in
        let info : TerminalInfo = record { proxy_client_id = h; app_client_id = c } in
        let b' = entered c h b in
        let o = entered-Owns b c h in
        let s₁ = record s { id_counter = suc b.last } in
        let s₂ = add_terminal h (suc b.last) info s₁ in
        let i₂ = add_terminal-AgreesWith b' s₁ (AgreesWith-mono b c h s i) h (suc b.last) info o in
        rw (e, id)
          (grown b'
            (send-AgreesWith b' s₂ i₂ (to_host h (HostMsg.create_terminal (suc b.last))) (c, o))
            (entered-last b c h))
    | inr e ↦ rw e (same_book b s i)
  ]

  -- Whatever call runs, the terminals keep their client and their host.
  pub run_term-Grown : (call : TermCall) → TermFact b call → Grown b (run_term up call s)
  unfolding run_term create_new_terminal resize_terminal delete_terminal send_key_event
      handle_terminal_created handle_terminal_read handle_terminal_end on_client_closed
  run_term-Grown (TermCall.create_new_terminal c h) f = create_new_terminal-Grown c h
  run_term-Grown (TermCall.resize_terminal h t width height) f = same_book b _ (
      send_to-AgreesWith b s i up h (HostMsg.resize_terminal t (width % 2 ^ 16) (height % 2 ^ 16))
        f)
  run_term-Grown (TermCall.delete_terminal h t) f =
      same_book b _ (send_to-AgreesWith b s i up h (HostMsg.delete_terminal t) f)
  run_term-Grown (TermCall.send_key_event h t key) f =
      same_book b _ (send_to-AgreesWith b s i up h (HostMsg.on_terminal_write t key) f)
  run_term-Grown (TermCall.handle_terminal_created h t success) f =
      same_book b _
        (call_for-AgreesWith b s i h t (λ c. WebCall.on_terminal_created c t h success) (λ c o. o))
  run_term-Grown (TermCall.handle_terminal_read h t output) f =
      same_book b _
        (call_for-AgreesWith b s i h t (λ c. WebCall.on_terminal_output c t output) (λ c o. (h, o)))
  run_term-Grown (TermCall.handle_terminal_end h t) f =
      same_book b _
        (call_for-AgreesWith b s i h t (λ c. WebCall.on_terminal_closed c t h) (λ c o. o))
  run_term-Grown (TermCall.on_client_closed h) f =
      let s₁ = record s { remote_hosts = remove h s.remote_hosts } in
      let i₁ =
        hosts-AgreesWith b s i (remove h s.remote_hosts)
          (All-remove (HostFact b) h s.remote_hosts i.hosts) in
      same_book b _ (post_web-AgreesWith b s₁ i₁ (WebCall.on_terminal_client_closed h) tt)
