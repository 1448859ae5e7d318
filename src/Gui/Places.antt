-- ===== src/Gui/Places.antt =====
-- WndManager (celovpn/wndmanager.cpp): the places of the screens. The manager keeps the corner of a
-- screen as wide as the primary one, and moves a screen of another width to the same middle.
pub mod Spot
pub mod Visible
pub mod Requests
pub mod Dragged
use celo_desktop_app.Base.{
  ℕ, ◌+◌, Bool, true, false, Option, none, some, List, [], ◌∷◌, if◌then◌else◌, ◌==◌, ◌/◌,
}
use celo_desktop_app.Base.Int.{ℤ, pos, sub_ℕ, pos_part, neg_part, eqb_ℤ, ◌+ℤ◌}
use celo_desktop_app.Gui.Windows.{
  Screen, Windows, scr_visible, to_front, hide_this, screen_number, WndEvent, opens, opens_primary,
  opens_map, asks_port, changes, hides, closes, fronts,
}

abbrev pub minus : ℤ → ℕ → ℤ
minus a n = sub_ℕ (pos_part a) (neg_part a + n)

pub record Frame : Type 0 where
  pub x : ℤ
  pub y : ℤ
  pub width : ℕ

-- `x` and `y` are _x and _y.
pub record Placed : Type 0 where
  pub windows : Windows
  pub frames : Screen → Frame
  pub x : ℤ
  pub y : ℤ

abbrev pub same_screen : Screen → Screen → Bool
same_screen s t = screen_number s == screen_number t

unfoldable pub is_visible : Screen → Windows → Bool
is_visible Screen.connection w = w.connection
is_visible Screen.login_window w = w.login_window
is_visible Screen.logs w = w.logs
is_visible Screen.map_screen w = w.map_screen
is_visible Screen.settings w = w.settings

-- What SaveCoords takes from a frame: 187 is half of the primary screen's width.
unfoldable pub corner : Frame → ℤ × ℤ
corner f = (minus (f.x +ℤ pos (f.width / 2)) 187, f.y)

unfoldable pub save_coords : Screen → Placed → Placed
save_coords s p =
    if is_visible s p.windows
    then record p { x = (corner (p.frames s)).0; y = (corner (p.frames s)).1 }
    else p

abbrev pub set_frame : Screen → Frame → Placed → Placed
set_frame s f p = record p { frames = λ t. if same_screen t s then f else p.frames t }

-- What ApplyCoords makes of a frame.
unfoldable pub moved : ℤ → ℤ → Frame → Frame
moved x y f = record f { x = minus (x +ℤ pos 187) (f.width / 2); y = y }

unfoldable pub apply_coords : Screen → Placed → Placed
apply_coords s p = set_frame s (moved p.x p.y (p.frames s)) p

unfoldable pub save_and_hide : Screen → Placed → Placed
save_and_hide s p = let q = save_coords s p in record q { windows = hide_this s q.windows }

unfoldable pub front : Screen → Placed → Placed
front s p = record p { windows = to_front s p.windows }

unfoldable pub do_trans : Screen → Placed → Placed
do_trans s p = front s (apply_coords s p)

unfoldable pub close_one : Screen → Placed → Placed
close_one s p = if is_visible s p.windows then save_and_hide s p else p

unfoldable pub close_each : List Screen → Placed → Placed
close_each [] p = p
close_each (s ∷ ss) p = close_each ss (close_one s p)

abbrev pub screens : List Screen
screens =
    Screen.connection ∷ Screen.login_window ∷ Screen.logs ∷ Screen.map_screen ∷ Screen.settings ∷ []

-- CloseAll.
unfoldable pub close_screens : Placed → Placed
close_screens p = close_each screens p

unfoldable pub trans_placed : Option Screen → Screen → Placed → Placed
trans_placed none to p = do_trans to (close_screens p)
trans_placed (some from) to p =
    do_trans to (if same_screen from to then p else save_and_hide from p)

abbrev pub shows : Screen → Option Screen → Bool
shows s none = false
shows s (some t) = same_screen t s

-- ToConnect and ToLogin only bring to the front what is the visible one.
abbrev pub is_primary : Screen → Bool
is_primary Screen.connection = true
is_primary Screen.login_window = true
is_primary _ = false

-- ToConnect, ToLogin, ToSettings, ToLogs, and ToMap after the login.
unfoldable pub show_screen : Screen → Placed → Placed
show_screen s p =
    if is_primary s
    then if shows s (scr_visible p.windows)
      then front s p
      else trans_placed (scr_visible p.windows) s p
    else trans_placed (scr_visible p.windows) s p

abbrev pub primary : Bool → Screen
primary logged_in = if logged_in then Screen.connection else Screen.login_window

abbrev pub show_if_any : Option Screen → Screen → Placed → Placed
show_if_any none s p = p
show_if_any (some _) s p = show_screen s p

abbrev pub set_port_dialog : Bool → Placed → Placed
set_port_dialog b p = record p { windows = record p.windows { port_dialog = b } }

-- WndManager::stateChanged.
unfoldable pub placed_state_changed : Bool → ℤ → Placed → Placed
placed_state_changed logged_in st p =
    if eqb_ℤ st (pos 1)
    then show_if_any (scr_visible p.windows) (primary logged_in) p
    else if eqb_ℤ st (pos 2)
    then set_port_dialog false p
    else p

-- A request to the manager, or the user drags a visible screen by so much.
pub data PlaceEvent : Type 0 where
  asks : WndEvent → PlaceEvent
  drags : Screen → ℤ → ℤ → PlaceEvent

unfoldable pub request : WndEvent → Placed → Placed
request (opens s) p = show_screen s p
request (opens_primary l) p = show_screen (primary l) p
request (opens_map l) p = show_screen (if l then Screen.map_screen else Screen.login_window) p
request (asks_port l) p = set_port_dialog true (show_screen (primary l) p)
request (changes l st) p = placed_state_changed l st p
request (hides s) p = save_and_hide s p
request closes p = close_screens p
request fronts p = front Screen.login_window p

unfoldable pub place_step : PlaceEvent → Placed → Placed
place_step (asks e) p = request e p
place_step (drags s dx dy) p =
    if is_visible s p.windows
    then set_frame s (record (p.frames s) { x = (p.frames s).x +ℤ dx; y = (p.frames s).y +ℤ dy }) p
    else p

unfoldable pub place_run : List PlaceEvent → Placed → Placed
place_run [] p = p
place_run (e ∷ es) p = place_run es (place_step e p)
