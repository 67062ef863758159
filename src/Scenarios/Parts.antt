-- ===== src/Scenarios/Parts.antt =====
-- The theorems on the countdown, the directory browser, the loader and the listeners, at concrete
-- values.
use Prim.Native.String.{String}
use html_terminal.Ui.{term_fitted, term_focused}
use html_terminal.TerminalNode.Resizing.{
  refit, first_fit, create_term, changes, fire as fire_timer, resize_debounced,
}
use html_terminal.Prelude.{
  ℕ, ◌≡◌, ◌≤◌, ◌<◌, ◌⊎◌, refl, false, List, [], ◌∷◌, codes, ok, ◌>>◌, arith,
}
use html_terminal.App.{host_list, terminal_manager, web_app}
use html_terminal.Reconnect.{ReconnectInfo, new_reconnect_info, enable}
use html_terminal.Reconnect.Countdown.{
  HasOneTimer, IsPending, ticks, here, next, lost, countdown, Reach-HasOneTimer,
}
use html_terminal.FileMode.Path.{child_path, up_path}
use html_terminal.FileMode.Path.Navigation.{up_path-child_path}
use html_terminal.FileMode.Format.{kb, mb, gb, size_text, hundredths}
use html_terminal.FileMode.Format.Sizes.{IsPrinted, size_text_units}
use html_terminal.Decimal.{decimal}
use html_terminal.Loader.{after_loads, new_loader}
use html_terminal.Loader.Order.{new_loader-loads}
use html_terminal.HostList.{add_event_listener}
use html_terminal.WebApp.{is_listener, remove_event_listener}
use html_terminal.WebApp.Listeners.{add-remove_event_listener}
use html_terminal.Scenarios.{demo}

-- The countdown as `init` makes it: three of its ten seconds pass, and then all.
abbrev info : ReconnectInfo
info = new_reconnect_info 5

info-HasOneTimer : HasOneTimer info
unfolding new_reconnect_info
info-HasOneTimer = refl

countdown_example :
    let (r, at_once) = enable info in
    (at_once ≡ false)
    × IsPending 6 (ticks 3 r).0
    × ((ticks 3 r).1 ≡ 0)
    × ((ticks 10 r).1 ≡ 1)
    × ((ticks 10 r).0.timers ≡ [])
unfolding new_reconnect_info
countdown_example = countdown 3 6 info info-HasOneTimer refl

-- The connection is lost twice, without a `disable` between.
Reach-HasOneTimer_example : HasOneTimer (enable (enable info).0).0
Reach-HasOneTimer_example = Reach-HasOneTimer info-HasOneTimer (next (next here lost) lost)

up_path-child_path_example : up_path (child_path (codes "/") (codes "etc")) ≡ codes "/"
up_path-child_path_example =
    up_path-child_path (codes "/") (codes "etc") (λ e. ground arith) (refl, (refl, (refl, tt)))

size_text_units_example :
    ((1536 ≤ kb) × (size_text 1536 ≡ decimal 1536))
    ⊎ (((kb < 1536) × (1536 ≤ mb) × IsPrinted 1536 kb (codes " KB") × (hundredths 1536 kb ≤ 102400))
        ⊎ (((mb < 1536)
              × (1536 ≤ gb)
              × IsPrinted 1536 mb (codes " MB")
              × (hundredths 1536 mb ≤ 102400))
            ⊎ ((gb < 1536) × IsPrinted 1536 gb (codes " GB"))))
size_text_units_example = size_text_units 1536

abbrev names : List String
names = "addons/term.js" ∷ "view.js" ∷ "web.app.js" ∷ []

new_loader-loads_example :
    let l = after_loads 1 (new_loader names) in
    let end = after_loads 3 (new_loader names) in
    (l.included ≡ "addons/term.js" ∷ "view.js" ∷ [])
    × (l.inits ≡ 0)
    × (end.included ≡ names)
    × (end.inits ≡ 1)
new_loader-loads_example = new_loader-loads names 1 (omega arith)

-- The listeners are the host list and the terminal manager.
add-remove_event_listener_example :
    ((add_event_listener web_app >> remove_event_listener web_app)
        (record demo { listeners = host_list ∷ [] })
      ≡ (ok tt, record demo { listeners = host_list ∷ [] }))
    × ((add_event_listener terminal_manager >> remove_event_listener web_app)
          (record demo { listeners = host_list ∷ [] })
        ≡ (ok tt, record demo { listeners = host_list ∷ [] }))
unfolding is_listener
add-remove_event_listener_example =
    add-remove_event_listener web_app terminal_manager (record demo { listeners = host_list ∷ [] })
      refl refl

resize_debounced_example :
    (timer : ℕ) × ((changes 3 create_term).timers ≡ (timer, refit) ∷ (0, first_fit) ∷ [])
    × (let r = fire_timer 5 timer (fire_timer 5 0 (changes 3 create_term)) in
        (r.timers ≡ []) × (r.calls ≡ term_fitted 5 ∷ term_fitted 5 ∷ term_focused 5 ∷ []))
resize_debounced_example = resize_debounced 5 2
