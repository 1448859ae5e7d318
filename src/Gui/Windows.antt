-- ===== src/Gui/Windows.antt =====
-- WndManager (celovpn/wndmanager.cpp): which of the screens are visible, without their places.
pub mod Single
use celo_desktop_app.Base.{
  ℕ, ◌+◌, Bool, true, false, Option, none, some, List, [], ◌∷◌, if◌then◌else◌, ◌==◌,
}
use celo_desktop_app.Base.Int.{ℤ, pos, eqb_ℤ}

pub data Screen : Type 0 where
  connection login_window logs map_screen settings : Screen

pub record Windows : Type 0 where
  pub connection : Bool
  pub login_window : Bool
  pub logs : Bool
  pub map_screen : Bool
  pub settings : Bool
  -- _DlgPort is open.
  pub port_dialog : Bool

abbrev pub set_visible : Bool → Screen → Windows → Windows
set_visible b Screen.connection w = record w { connection = b }
set_visible b Screen.login_window w = record w { login_window = b }
set_visible b Screen.logs w = record w { logs = b }
set_visible b Screen.map_screen w = record w { map_screen = b }
set_visible b Screen.settings w = record w { settings = b }

abbrev pub last_of : Bool → Screen → Option Screen → Option Screen
last_of b s o = if b then some s else o

-- ScrVisible: the last one of the tests that succeeds.
unfoldable pub scr_visible : Windows → Option Screen
scr_visible w = last_of w.settings Screen.settings (
    last_of w.map_screen Screen.map_screen (
      last_of w.logs Screen.logs
        (last_of w.login_window Screen.login_window (last_of w.connection Screen.connection none))))

-- CloseAll.
unfoldable pub close_all : Windows → Windows
close_all w = record w {
  connection = false;
  login_window = false;
  logs = false;
  map_screen = false;
  settings = false;
}

-- ToFront and HideThis of a screen.
unfoldable pub to_front : Screen → Windows → Windows
to_front s w = set_visible true s w

unfoldable pub hide_this : Screen → Windows → Windows
hide_this s w = set_visible false s w

abbrev pub screen_number : Screen → ℕ
screen_number Screen.connection = 0
screen_number Screen.login_window = 1
screen_number Screen.logs = 2
screen_number Screen.map_screen = 3
screen_number Screen.settings = 4

-- trans: `from != to` hides the screen that is left.
unfoldable pub trans : Option Screen → Screen → Windows → Windows
trans none to w = to_front to (close_all w)
trans (some from) to w =
    to_front to (if screen_number from == screen_number to then w else hide_this from w)

-- ToSettings and ToLogs; ToLogin and ToConnect, which bring their screen to the front where it is
-- the visible one.
unfoldable pub to_screen : Screen → Windows → Windows
to_screen s w = trans (scr_visible w) s w

-- ToPrimary and ToMap, by AuthManager::loggedIn().
unfoldable pub to_primary : Bool → Windows → Windows
to_primary logged_in w = to_screen (if logged_in then Screen.connection else Screen.login_window) w

unfoldable pub to_map : Bool → Windows → Windows
to_map logged_in w = to_screen (if logged_in then Screen.map_screen else Screen.login_window) w

abbrev pub if_any : Option Screen → Windows → Windows → Windows
if_any none v w = w
if_any (some s) v w = v

-- WndManager::stateChanged.
unfoldable pub wnd_state_changed : Bool → ℤ → Windows → Windows
wnd_state_changed logged_in st w =
    if eqb_ℤ st (pos 1)
    then if_any (scr_visible w) (to_primary logged_in w) w
    else if eqb_ℤ st (pos 2)
    then record w { port_dialog = false }
    else w

unfoldable pub show_port_dialog : Bool → Windows → Windows
show_port_dialog logged_in w = record (to_primary logged_in w) { port_dialog = true }

-- What the parts of the GUI ask of the manager, once the login window is made. `fronts` is ToFront
-- of the login window by loginError.
pub data WndEvent : Type 0 where
  opens : Screen → WndEvent
  opens_primary opens_map asks_port : Bool → WndEvent
  changes : Bool → ℤ → WndEvent
  hides : Screen → WndEvent
  closes : WndEvent
  fronts : WndEvent

unfoldable pub wnd_step : WndEvent → Windows → Windows
wnd_step (opens s) w = to_screen s w
wnd_step (opens_primary l) w = to_primary l w
wnd_step (opens_map l) w = to_map l w
wnd_step (asks_port l) w = show_port_dialog l w
wnd_step (changes l st) w = wnd_state_changed l st w
wnd_step (hides s) w = hide_this s w
wnd_step closes w = close_all w
wnd_step fronts w = to_front Screen.login_window w

unfoldable pub wnd_run : List WndEvent → Windows → Windows
wnd_run [] w = w
wnd_run (e ∷ es) w = wnd_run es (wnd_step e w)
