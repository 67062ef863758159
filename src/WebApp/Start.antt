-- ===== src/WebApp/Start.antt =====
-- The start of the web client: `init()` of webapp/web.app.js.
use html_terminal.Prelude.{ℕ, ◌+◌, ◌≡◌, ◌≢◌, refl, none, some, [], ◌∷◌, ◌++◌, ok, arith}
use html_terminal.Ui.{connecting, body}
use html_terminal.App.{App, host_list, terminal_manager}
use html_terminal.Reconnect.Countdown.{HasOneTimer}
use html_terminal.TerminalView.Display.{IsOneShown}
use html_terminal.WebApp.{init, create_ws, new_reconnect_node}
use html_terminal.HostList.{new_host_list, add_event_listener}
use html_terminal.TerminalManager.{new_terminal_manager, show_no_terminals_info}
use html_terminal.Dom.{append_child, detach, children_of, empty_node, Edges, flex, hidden}
use html_terminal.Dom.Tree.{without, children_of-append, children_of-detach}
use html_terminal.Reconnect.{new_reconnect_info}

module _ (v : ℕ) where
  no_children : children_of v [] ≡ []
  unfolding children_of
  no_children = refl

  -- A node stays empty while other nodes get children, and while nodes lose theirs.
  stays_empty :
      (p c : ℕ) (es : Edges)
      → v ≢ p
      → children_of v es ≡ []
      → children_of v (detach c es ++ ((p, c) ∷ [])) ≡ []
  unfolding without
  stays_empty p c es ne h =
      rw (children_of-append v p c (detach c es), children_of-detach v c es, h) (ground arith)

  still_empty : (p : ℕ) (es : Edges) → children_of v es ≡ [] → children_of v (empty_node p es) ≡ []
  unfolding children_of empty_node
  still_empty p [] h = refl
  still_empty p ((q, c) ∷ es) h = ground (arith, still_empty p es)

-- On a page whose document holds nothing yet, `init` returns: the host list and then the terminal
-- manager listen, no host and no terminal is known, the view is empty, as its lack of a current
-- terminal says, and is hidden with the host list while the notice shows; no timer of the countdown
-- is pending, and a socket connects.
pub init_lem :
    (s : App)
    → s.ui.dom.edges ≡ []
    → s.listeners ≡ []
    → let (r, s') = init s in
      (r ≡ ok tt)
      × (s'.listeners ≡ host_list ∷ terminal_manager ∷ [])
      × (s'.host_map ≡ [])
      × (s'.current_host ≡ none)
      × (s'.ui.known ≡ [])
      × (s'.ui.current ≡ none)
      × IsOneShown s'.ui
      × (s'.ui.dom.display s'.no_terminals_info ≡ flex)
      × (s'.ui.dom.display s'.ui.view_node ≡ hidden)
      × (s'.ui.dom.display s'.list_node ≡ hidden)
      × HasOneTimer s'.reconnect
      × (s'.ui.socket ≡ some connecting)
unfolding init new_terminal_manager show_no_terminals_info new_host_list add_event_listener
    create_ws append_child new_reconnect_node new_reconnect_info
init_lem s e l =
    let v = s.ui.dom.fresh + 1 + 1 in
    let blank : children_of v s.ui.dom.edges ≡ [] = rw e (no_children v) in
    let manager = s.ui.dom.fresh in
    let info = manager + 1 + 1 + 1 + 1 in
    (
      refl,
      rw l refl,
      refl,
      refl,
      refl,
      refl,
      stays_empty v body _ _ (omega arith) (
          stays_empty v info _ _ (omega arith) (
            stays_empty v info _ _ (omega arith) (
              still_empty v _ _ (
                stays_empty v body _ _ (omega arith) (
                  stays_empty v manager _ _ (omega arith) (
                    still_empty v _ _ (
                      stays_empty v manager _ _ (omega arith)
                        (stays_empty v manager _ _ (omega arith) (blank))))))))),
      ground arith,
      ground arith,
      ground arith,
      refl,
      refl,
    )
