-- ===== src/Gui/Windows/Single.antt =====
-- At most one screen is visible.
use celo_desktop_app.Base.{
  ℕ, ◌+◌, ◌≤◌, ◌≡◌, Bool, true, false, Option, none, some, List, [], ◌∷◌, if◌then◌else◌, arith, All,
}
use celo_desktop_app.Base.Int.{ℤ, pos, eqb_ℤ}
use celo_desktop_app.Gui.Windows.{
  Screen, Windows, scr_visible, close_all, to_front, hide_this, trans, to_screen, to_primary,
  to_map, if_any, wnd_state_changed, show_port_dialog, WndEvent, opens, opens_primary, opens_map,
  asks_port, changes, hides, closes, fronts, wnd_step, wnd_run,
}

abbrev pub one_if : Bool → ℕ
one_if b = if b then 1 else 0

-- The `visible` of ScrVisible and CloseAll.
abbrev pub visible : Windows → ℕ
visible w =
    one_if w.connection
    + one_if w.login_window
    + one_if w.logs
    + one_if w.map_screen
    + one_if w.settings

to_screen-visible : (s : Screen) (w : Windows) → visible w ≤ 1 → visible (to_screen s w) ≤ 1
unfolding to_screen scr_visible trans to_front hide_this close_all
to_screen-visible Screen.connection w h = ground arith
to_screen-visible Screen.login_window w h = ground arith
to_screen-visible Screen.logs w h = ground arith
to_screen-visible Screen.map_screen w h = ground arith
to_screen-visible Screen.settings w h = ground arith

to_primary-visible : (l : Bool) (w : Windows) → visible w ≤ 1 → visible (to_primary l w) ≤ 1
unfolding to_primary
to_primary-visible l w h =
    to_screen-visible (if l then Screen.connection else Screen.login_window) w h

to_map-visible : (l : Bool) (w : Windows) → visible w ≤ 1 → visible (to_map l w) ≤ 1
unfolding to_map
to_map-visible l w h = to_screen-visible (if l then Screen.map_screen else Screen.login_window) w h

pub hide_this-visible : (s : Screen) (w : Windows) → visible w ≤ 1 → visible (hide_this s w) ≤ 1
unfolding hide_this
hide_this-visible Screen.connection w h = ground arith
hide_this-visible Screen.login_window w h = ground arith
hide_this-visible Screen.logs w h = ground arith
hide_this-visible Screen.map_screen w h = ground arith
hide_this-visible Screen.settings w h = ground arith

close_all-visible : (w : Windows) → visible (close_all w) ≤ 1
unfolding close_all
close_all-visible w = omega arith

if_any-visible :
    (o : Option Screen) (v w : Windows) → visible v ≤ 1 → visible w ≤ 1 → visible (if_any o v w) ≤ 1
if_any-visible none v w hv hw = hw
if_any-visible (some _) v w hv hw = hv

if-visible :
    (b : Bool) (v w : Windows) → visible v ≤ 1 → visible w ≤ 1 → visible (if b then v else w) ≤ 1
if-visible true v w hv hw = hv
if-visible false v w hv hw = hw

wnd_state_changed-visible :
    (l : Bool) (st : ℤ) (w : Windows) → visible w ≤ 1 → visible (wnd_state_changed l st w) ≤ 1
unfolding wnd_state_changed
wnd_state_changed-visible l st w h =
    if-visible (eqb_ℤ st (pos 1)) (if_any (scr_visible w) (to_primary l w) w) _
      (if_any-visible (scr_visible w) (to_primary l w) w (to_primary-visible l w h) h)
      (if-visible (eqb_ℤ st (pos 2)) (record w { port_dialog = false }) w h h)

-- The event is not ToFront of the login window.
unfoldable pub IsTidy : WndEvent → Type 0
IsTidy (opens _) = Unit
IsTidy (opens_primary _) = Unit
IsTidy (opens_map _) = Unit
IsTidy (asks_port _) = Unit
IsTidy (changes _ _) = Unit
IsTidy (hides _) = Unit
IsTidy closes = Unit
IsTidy fronts = ⊥

pub wnd_step-visible :
    (e : WndEvent) → IsTidy e → (w : Windows) → visible w ≤ 1 → visible (wnd_step e w) ≤ 1
unfolding wnd_step show_port_dialog IsTidy
wnd_step-visible (opens s) t w h = to_screen-visible s w h
wnd_step-visible (opens_primary l) t w h = to_primary-visible l w h
wnd_step-visible (opens_map l) t w h = to_map-visible l w h
wnd_step-visible (asks_port l) t w h = to_primary-visible l w h
wnd_step-visible (changes l st) t w h = wnd_state_changed-visible l st w h
wnd_step-visible (hides s) t w h = hide_this-visible s w h
wnd_step-visible closes t w h = close_all-visible w
wnd_step-visible fronts t w h = absurd t

to_screen-scr_visible :
    (s : Screen) (w : Windows) → visible w ≤ 1 → scr_visible (to_screen s w) ≡ some s
unfolding to_screen scr_visible trans to_front hide_this close_all
to_screen-scr_visible Screen.connection w h = ground arith
to_screen-scr_visible Screen.login_window w h = ground arith
to_screen-scr_visible Screen.logs w h = ground arith
to_screen-scr_visible Screen.map_screen w h = ground arith
to_screen-scr_visible Screen.settings w h = ground arith

wnd_run-visible :
    (es : List WndEvent)
    → All IsTidy es
    → (w : Windows) → visible w ≤ 1
    → visible (wnd_run es w) ≤ 1
unfolding wnd_run
wnd_run-visible [] t w h = h
wnd_run-visible (e ∷ es) (te, t) w h =
    wnd_run-visible es t (wnd_step e w) (wnd_step-visible e te w h)

-- Where at most one screen is visible, at most one is visible after any sequence of requests to the
-- manager without loginError's ToFront of the login window, and a request for a screen then leaves
-- that screen the visible one.
pub wnd_run_lem :
    (es : List WndEvent)
    → All IsTidy es
    → (w : Windows) → visible w ≤ 1
    → (s : Screen)
    → (visible (wnd_run es w) ≤ 1) × (scr_visible (to_screen s (wnd_run es w)) ≡ some s)
wnd_run_lem es t w h s =
    (wnd_run-visible es t w h, to_screen-scr_visible s (wnd_run es w) (wnd_run-visible es t w h))
