-- ===== src/Scenarios.antt =====
-- A page of the web client, at which the theorems are applied in the modules below this one.
mod Hosts
mod Parts
mod Servers
mod Clients
mod Links
mod Lines
use html_terminal.Prelude.{
  ℕ, zero, suc, ◌+◌, ◌≡◌, ◌≢◌, ◌≤◌, ◌<◌, refl, Bool, true, false, Option, none, some, List, [], ◌∷◌,
  Text, codes, arith, is_some,
}
use html_terminal.Dom.{Dom, initial, children_of}
use html_terminal.Ui.{Ui, TerminalNode, FileModeNode, Entry}
use html_terminal.Reconnect.{new_reconnect_info}
use html_terminal.App.{App, RemoteHost, TermButton, idle, terminal, host_list, terminal_manager}
use html_terminal.TerminalView.Display.{IsOneShown, InPage}
use html_terminal.RemoteHost.Row.{Represents}

abbrev pub blank_dom : Dom
blank_dom = record {
  fresh = 1;
  edges = [];
  display = λ n. initial;
  background = λ n. "";
  classes = λ n. [];
  ident = λ n. "";
  inner = λ n. [];
}

abbrev pub no_file_mode : FileModeNode
no_file_mode = record {
  id = 0;
  node = 0;
  header = 0;
  contnet = 0;
  current_elem = none;
  current_path = none;
}

abbrev pub blank_ui : Ui
blank_ui = record {
  dom = blank_dom;
  terminals = λ t. record {
    id = 0;
    node = none;
    terminal_container = 0;
    file_mode_node = no_file_mode;
    file_mode_activated = false;
  };
  next_terminal = 0;
  entries = λ e. record { name = []; display_name = []; is_dir = false; size = 0; last_mod = 0 };
  next_entry = 0;
  clicks = λ n. none;
  known = [];
  current = none;
  view_node = 0;
  socket = none;
  calls = [];
  local_time = λ t. record { date = codes "01/01/1970"; hours = 0; minutes = 0; seconds = 0 };
}

-- Before `init`.
abbrev pub blank : App
blank = record {
  ui = blank_ui;
  hosts = λ h. record {
    id = 0;
    ip = [];
    user_name = [];
    name = [];
    node = 0;
    buttons_panel = 0;
    active_terminal = none;
    buttons = [];
    selected_bt = none;
    connecting_bt = none;
  };
  next_host = 0;
  buttons = λ b. record {
    state = idle;
    selected = false;
    activated = false;
    terminal = none;
    remote_host = 0;
    node = 0;
    circle_box = 0;
    add_button_view = 0;
    promt_button_view = 0;
    promt_line = 0;
    files_button_view = 0;
  };
  next_button = 0;
  host_map = [];
  current_host = none;
  list_node = 0;
  manager_node = 0;
  no_terminals_info = 0;
  reconnect = new_reconnect_info 0;
  listeners = [];
}

abbrev pub no_button : TermButton
no_button = blank.buttons 0

-- Host 0 shows the terminals 0 and 1 by the buttons 0 and 1; button 2 waits. Terminal 2 is known.
-- The nodes: 1 is the view's, 2 the panel's, 3 the list's, 4 the host's, 10 + t that of terminal t,
-- 30 + t and 40 + t those of its parts, and 20 + b that of button b.
abbrev pub page : Dom
page = record blank_dom { fresh = 100; edges = (3, 4) ∷ (2, 20) ∷ (2, 21) ∷ (2, 22) ∷ (1, 10) ∷ [] }

abbrev pub terminal_at : ℕ → TerminalNode
terminal_at t = record (blank_ui.terminals 0) {
  id = 100 + t;
  node = some (10 + t);
  terminal_container = 30 + t;
  file_mode_node = record no_file_mode { node = 40 + t };
}

abbrev pub demo_ui : Ui
demo_ui = record blank_ui {
  dom = page;
  terminals = terminal_at;
  next_terminal = 3;
  known = (100, 0) ∷ (101, 1) ∷ (102, 2) ∷ [];
  current = some 0;
  view_node = 1;
}

abbrev pub button_at : ℕ → TermButton
button_at zero = record no_button {
  state = terminal;
  terminal = some 0;
  node = 20;
  selected = true;
}
button_at (suc zero) = record no_button { state = terminal; terminal = some 1; node = 21 }
button_at b = record no_button { node = 20 + b }

abbrev pub host_with : ℕ → RemoteHost
host_with b = record (blank.hosts 0) {
  id = 7;
  node = 4;
  buttons_panel = 2;
  active_terminal = some b;
  buttons = 0 ∷ 1 ∷ 2 ∷ [];
  selected_bt = some b;
  connecting_bt = some 2;
}

-- The page with button `b` selected.
abbrev pub demo_of : ℕ → App
demo_of b = record blank {
  ui = demo_ui;
  hosts = λ h. host_with b;
  next_host = 1;
  buttons = button_at;
  next_button = 3;
  host_map = (7, 0) ∷ [];
  list_node = 3;
  listeners = host_list ∷ terminal_manager ∷ [];
}

abbrev pub demo : App
demo = demo_of 0

-- Whichever button is selected, if it shows a terminal.
pub demo-Represents :
    (b : ℕ)
    → is_some (button_at b).terminal ≡ true
    → b < 3
    → Represents (demo_of b) 0 (0 ∷ 1 ∷ []) (0 ∷ 1 ∷ [])
demo-Represents b has lt = record {
  shows = ((refl, refl), omega arith, ((refl, refl), omega arith, tt));
  row = (refl, omega arith, (refl, refl), omega arith);
  opened = (has, lt);
}

pub demo-IsOneShown : IsOneShown demo_ui
unfolding children_of
demo-IsOneShown = (10, refl, refl)

pub demo-InPage : InPage 2 demo_ui
unfolding children_of
demo-InPage = (omega arith, omega arith, (omega arith, tt))
