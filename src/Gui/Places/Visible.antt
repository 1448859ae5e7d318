-- ===== src/Gui/Places/Visible.antt =====
-- The visible screens are those of the manager without places.
use celo_desktop_app.Base.{
  ◌≡◌, refl, sym, ap, inl, inr, Bool-cases, Bool, true, false, Option, none, some, List, [], ◌∷◌,
  if◌then◌else◌, ◌∙◌,
}
use celo_desktop_app.Base.Int.{pos, eqb_ℤ}
use celo_desktop_app.Gui.Windows.{
  Screen, Windows, scr_visible, close_all, to_front, hide_this, trans, to_screen, to_primary,
  to_map, WndEvent, opens, opens_primary, opens_map, asks_port, changes, hides, closes, fronts,
  wnd_step, if_any, wnd_state_changed, show_port_dialog,
}
use celo_desktop_app.Gui.Places.{
  Placed, same_screen, is_visible, save_coords, apply_coords, save_and_hide, front, do_trans,
  close_one, close_each, screens, close_screens, trans_placed, shows, is_primary, show_screen,
  primary, show_if_any, set_port_dialog, placed_state_changed, request,
}
use celo_desktop_app.Gui.Places.Spot.{hidden}

if-windows :
    (b : Bool) (p q : Placed) (w : Windows)
    → p.windows ≡ w
    → q.windows ≡ w
    → (if b then p else q).windows ≡ w
if-windows true p q w h k = h
if-windows false p q w h k = k

pub windows-save_and_hide :
    (s : Screen) (p : Placed) → (save_and_hide s p).windows ≡ hide_this s p.windows
unfolding save_and_hide save_coords
windows-save_and_hide s p =
    ap (hide_this s) (if-windows (is_visible s p.windows) _ _ p.windows refl refl)

pub windows-close_one : (s : Screen) (p : Placed) → (close_one s p).windows ≡ hide_this s p.windows
unfolding close_one
windows-close_one s p = elim (Bool-cases (is_visible s p.windows)) [
  | inl h ↦ rw h (windows-save_and_hide s p)
  | inr h ↦ rw h (sym (hidden s p.windows h))
]

hide_each : List Screen → Windows → Windows
hide_each [] w = w
hide_each (s ∷ ss) w = hide_each ss (hide_this s w)

windows-close_each :
    (ss : List Screen) (p : Placed) → (close_each ss p).windows ≡ hide_each ss p.windows
unfolding close_each hide_each
windows-close_each [] p = refl
windows-close_each (s ∷ ss) p =
    windows-close_each ss (close_one s p) ∙ ap (hide_each ss) (windows-close_one s p)

pub windows-close_screens : (p : Placed) → (close_screens p).windows ≡ close_all p.windows
unfolding close_screens close_all hide_this hide_each
windows-close_screens p = windows-close_each screens p

if-each :
    (b : Bool) (p q : Placed) {v w : Windows}
    → p.windows ≡ v
    → q.windows ≡ w
    → (if b then p else q).windows ≡ (if b then v else w)
if-each true p q h k = h
if-each false p q h k = k

if-hidden :
    (b : Bool) (t : Screen) (p : Placed)
    → (if b then p else save_and_hide t p).windows
      ≡ (if b then p.windows else hide_this t p.windows)
if-hidden true t p = refl
if-hidden false t p = windows-save_and_hide t p

windows-trans_placed :
    (o : Option Screen) (s : Screen) (p : Placed)
    → (trans_placed o s p).windows ≡ trans o s p.windows
unfolding trans_placed trans do_trans apply_coords front
windows-trans_placed none s p = ap (to_front s) (windows-close_screens p)
windows-trans_placed (some t) s p = ap (to_front s) (if-hidden (same_screen t s) t p)

trans_same :
    (o : Option Screen) (s : Screen) (w : Windows) → shows s o ≡ true → to_front s w ≡ trans o s w
unfolding trans
trans_same none s w h = cc
trans_same (some t) s w h = rw h refl

pub windows-show_screen :
    (s : Screen) (p : Placed) → (show_screen s p).windows ≡ to_screen s p.windows
unfolding show_screen to_screen front
windows-show_screen s p =
    if-windows (is_primary s) _ (trans_placed (scr_visible p.windows) s p) _
      (elim (Bool-cases (shows s (scr_visible p.windows))) [
        | inl h ↦ rw h (trans_same (scr_visible p.windows) s p.windows h)
        | inr h ↦ rw h (windows-trans_placed (scr_visible p.windows) s p)
      ])
      (windows-trans_placed (scr_visible p.windows) s p)

windows-show_if_any :
    (o : Option Screen) (s : Screen) (p : Placed)
    → (show_if_any o s p).windows ≡ if_any o (to_screen s p.windows) p.windows
windows-show_if_any none s p = refl
windows-show_if_any (some _) s p = windows-show_screen s p

pub windows-request : (e : WndEvent) (p : Placed) → (request e p).windows ≡ wnd_step e p.windows
unfolding request wnd_step to_primary to_map show_port_dialog front placed_state_changed
    wnd_state_changed
windows-request (opens s) p = windows-show_screen s p
windows-request (opens_primary l) p = windows-show_screen (primary l) p
windows-request (opens_map l) p =
    windows-show_screen (if l then Screen.map_screen else Screen.login_window) p
windows-request (asks_port l) p =
    ap {A = Windows} (λ w. record w { port_dialog = true }) (windows-show_screen (primary l) p)
windows-request (changes l st) p =
    if-each (eqb_ℤ st (pos 1)) _ _ (windows-show_if_any (scr_visible p.windows) (primary l) p)
      (if-each (eqb_ℤ st (pos 2)) (set_port_dialog false p) p refl refl)
windows-request (hides s) p = windows-save_and_hide s p
windows-request closes p = windows-close_screens p
windows-request fronts p = refl
