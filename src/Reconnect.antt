-- ===== src/Reconnect.antt =====
-- webapp/reconnect.info.js: `class ReconnectInfo`, the countdown to a new connection. Timers are
-- the browser's: `timers` lists those that `setTimeout` started and that neither fired nor were
-- cleared, each with the counter that its callback holds. A call that makes the program connect
-- again returns true.
pub mod Countdown
use html_terminal.Prelude.{
  ℕ, ◌+◌, ◌-◌, Bool, true, false, Option, none, some, List, [], ◌∷◌, Dict, lookup, erase, ltb,
  if◌then◌else◌,
}

-- `visible` is whether `show` or `hide` was called last, and `label` is the button's text.
pub record ReconnectInfo : Type 0 where
  pub node : ℕ
  pub counter : ℕ
  pub label : ℕ
  pub visible : Bool
  pub reconnect_timeout : Option ℕ
  pub timers : Dict ℕ
  pub next_timer : ℕ

-- `constructor()` and `createNode()`
unfoldable pub new_reconnect_info : ℕ → ReconnectInfo
new_reconnect_info node = record {
  node = node;
  counter = 10;
  label = 10;
  visible = false;
  reconnect_timeout = none;
  timers = [];
  next_timer = 1;
}

unfoldable pub release : Option ℕ → ReconnectInfo → ReconnectInfo
release none r = r
release (some t) r = record r { timers = erase t r.timers; reconnect_timeout = none }

-- `releseTimeout()`
unfoldable pub relese_timeout : ReconnectInfo → ReconnectInfo
unfolding release
relese_timeout r = release r.reconnect_timeout r

-- `setTimeout(function() { thisObj.updateReconnectionCounter(counter); }, 1000)`
unfoldable pub start_timer : ℕ → ReconnectInfo → ReconnectInfo
start_timer counter r = record r {
  label = counter;
  timers = (r.next_timer, counter - 1) ∷ r.timers;
  reconnect_timeout = some r.next_timer;
  next_timer = r.next_timer + 1;
}

-- `updateReconnectionCounter(counter)`
unfoldable pub update_reconnection_counter : ℕ → ReconnectInfo → ReconnectInfo × Bool
unfolding relese_timeout start_timer
update_reconnection_counter counter r =
    if ltb 0 counter
    then (start_timer counter (relese_timeout r), false)
    else (relese_timeout r, true)

-- `enable()`
unfoldable pub enable : ReconnectInfo → ReconnectInfo × Bool
unfolding update_reconnection_counter
enable r = update_reconnection_counter r.counter (record r { visible = true })

-- `disable()`
unfoldable pub disable : ReconnectInfo → ReconnectInfo
unfolding relese_timeout
disable r = record (relese_timeout r) { visible = false }

unfoldable pub fire_found : Option ℕ → ℕ → ReconnectInfo → ReconnectInfo × Bool
unfolding update_reconnection_counter
fire_found none t r = (r, false)
fire_found (some counter) t r =
    update_reconnection_counter counter (record r { timers = erase t r.timers })

-- The browser fires a timer: it is pending no more, and its callback runs.
unfoldable pub fire : ℕ → ReconnectInfo → ReconnectInfo × Bool
unfolding fire_found
fire t r = fire_found (lookup t r.timers) t r
