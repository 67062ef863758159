-- ===== src/App.antt =====
-- The whole state of the web client, for the classes above the terminals: hosts, their buttons, the
-- host list, the terminal manager and the listeners of `class WebApp`.
use html_terminal.Prelude.{ℕ, Bool, true, false, Option, List, Text, Dict, M, update, ok, ◌==◌}
use html_terminal.Dom.{Dom}
use html_terminal.Ui.{Ui, on_dom}
use html_terminal.Reconnect.{ReconnectInfo}

-- `RemoteHostTermButton.State`
pub data ButtonState : Type 0 where
  idle activating terminal file_list : ButtonState

pub record TermButton : Type 0 where
  pub state : ButtonState
  pub selected : Bool
  pub activated : Bool
  pub terminal : Option ℕ
  pub remote_host : ℕ
  pub node : ℕ
  pub circle_box : ℕ
  pub add_button_view : ℕ
  pub promt_button_view : ℕ
  pub promt_line : ℕ
  pub files_button_view : ℕ

pub record RemoteHost : Type 0 where
  pub id : ℕ
  pub ip : Text
  pub user_name : Text
  pub name : Text
  pub node : ℕ
  pub buttons_panel : ℕ
  pub active_terminal : Option ℕ
  pub buttons : List ℕ
  pub selected_bt : Option ℕ
  pub connecting_bt : Option ℕ

-- The objects that push events or listen to them.
pub data Party : Type 0 where
  web_app host_list terminal_manager : Party
  remote_host : ℕ → Party

-- `listener == sender`
abbrev pub same_party : Party → Party → Bool
same_party web_app web_app = true
same_party host_list host_list = true
same_party terminal_manager terminal_manager = true
same_party (remote_host a) (remote_host b) = a == b
same_party _ _ = false

-- `hosts` and `buttons` are stores of objects. `host_map` and `current_host` are the fields `hosts`
-- and `currentHost` of `RemoteHostList`.
pub record App : Type 0 where
  pub ui : Ui
  pub hosts : ℕ → RemoteHost
  pub next_host : ℕ
  pub buttons : ℕ → TermButton
  pub next_button : ℕ
  pub host_map : Dict ℕ
  pub current_host : Option ℕ
  pub list_node : ℕ
  pub manager_node : ℕ
  pub no_terminals_info : ℕ
  pub reconnect : ReconnectInfo
  pub listeners : List Party

abbrev pub on_ui : {A : Type 0} → M Ui A → M App A
on_ui m s = let (r, u) = m s.ui in (r, record s { ui = u })

abbrev pub on_page : {A : Type 0} → M Dom A → M App A
on_page m = on_ui (on_dom m)

abbrev pub put_host : ℕ → RemoteHost → M App (Unit {0})
put_host h v s = (ok tt, record s { hosts = update s.hosts h v })

abbrev pub put_button : ℕ → TermButton → M App (Unit {0})
put_button b v s = (ok tt, record s { buttons = update s.buttons b v })
