-- ===== src/Gui/Places/Requests.antt =====
-- A request to the manager keeps the place of what the user sees.
use celo_desktop_app.Base.{
  ◌≤◌, ◌≡◌, refl, sym, ap, subst, inl, inr, Bool-cases, Bool, true, false, Option, none, some, List,
  [], ◌∷◌, if◌then◌else◌, ◌∙◌,
}
use celo_desktop_app.Base.Int.{ℤ}
use celo_desktop_app.Gui.Windows.{Screen, Windows, scr_visible, close_all}
use celo_desktop_app.Gui.Windows.Single.{visible, hide_this-visible}
use celo_desktop_app.Gui.Places.{
  Placed, is_visible, save_and_hide, front, do_trans, close_one, close_each, screens, close_screens,
  trans_placed, shows, is_primary, show_screen,
}
use celo_desktop_app.Gui.Places.Spot.{
  Spot, at, spot, seen, is_visible-shows, scr_visible-hide_this, same_screen_refl,
  visible-scr_visible, scr_visible-to_front, scr_visible-to_front_same, left, hide_spot, leave_all,
  show_spot, save_and_hide-left, do_trans-spot,
}
use celo_desktop_app.Gui.Places.Visible.{
  windows-save_and_hide, windows-close_one, windows-close_screens,
}

-- A screen that hides leaves its place behind.
pub save_and_hide-spot :
    (s : Screen) (p : Placed)
    → visible p.windows ≤ 1
    → is_visible s p.windows ≡ true
    → spot (save_and_hide s p) ≡ hide_spot s (spot p)
save_and_hide-spot s p h k =
    save_and_hide-left s p h k
    ∙ ap (λ b. if b then left (spot p) else spot p) (sym k ∙ is_visible-shows s p.windows h)

close_one-spot :
    (s : Screen) (p : Placed) → visible p.windows ≤ 1 → spot (close_one s p) ≡ hide_spot s (spot p)
unfolding close_one
close_one-spot s p h = elim (Bool-cases (is_visible s p.windows)) [
  | inl k ↦ rw k (save_and_hide-spot s p h k)
  | inr k ↦
      rw k (ap (λ b. if b then left (spot p) else spot p) (sym k ∙ is_visible-shows s p.windows h))
]

hide_spots : List Screen → Spot → Spot
hide_spots [] a = a
hide_spots (s ∷ ss) a = hide_spots ss (hide_spot s a)

close_each-spot :
    (ss : List Screen) (p : Placed)
    → visible p.windows ≤ 1
    → spot (close_each ss p) ≡ hide_spots ss (spot p)
unfolding close_each hide_spots
close_each-spot [] p h = refl
close_each-spot (s ∷ ss) p h =
    close_each-spot ss (close_one s p)
      (subst (λ w. visible w ≤ 1) (sym (windows-close_one s p)) (hide_this-visible s p.windows h))
    ∙ ap (hide_spots ss) (close_one-spot s p h)

hide_spots-screens :
    (o : Option Screen) (a b : ℤ × ℤ)
    → hide_spots screens (record { shown = o; here = a; saved = b })
      ≡ leave_all o (record { shown = o; here = a; saved = b })
unfolding hide_spots
hide_spots-screens none a b = refl
hide_spots-screens (some Screen.connection) a b = refl
hide_spots-screens (some Screen.login_window) a b = refl
hide_spots-screens (some Screen.logs) a b = refl
hide_spots-screens (some Screen.map_screen) a b = refl
hide_spots-screens (some Screen.settings) a b = refl

pub close_screens-spot :
    (p : Placed)
    → visible p.windows ≤ 1
    → spot (close_screens p) ≡ leave_all (scr_visible p.windows) (spot p)
unfolding close_screens
close_screens-spot p h =
    close_each-spot screens p h
    ∙ hide_spots-screens (scr_visible p.windows) (at (scr_visible p.windows) p) (p.x, p.y)

enter : Screen → Spot → Spot
enter s a = record { shown = some s; here = a.saved; saved = a.saved }

do_trans-enter :
    (s : Screen) (p : Placed)
    → scr_visible p.windows ≡ none
    → spot (do_trans s p) ≡ enter s (spot p)
unfolding enter
do_trans-enter s p h = do_trans-spot s p (scr_visible-to_front s p.windows h)

-- The screen that is shown is requested.
show_screen-shown :
    (s : Screen) (p : Placed)
    → scr_visible p.windows ≡ some s
    → spot (show_screen s p) ≡ show_spot s (spot p)
unfolding show_screen trans_placed front
show_screen-shown s p e = rw e (
    rw (same_screen_refl s) (elim (Bool-cases (is_primary s)) [
      | inl b ↦ rw b (rw (scr_visible-to_front_same s p.windows e) (rw e refl))
      | inr b ↦ rw b (do_trans-spot s p (rw (scr_visible-to_front_same s p.windows e) e))
    ]))

scr_visible-close_all : (w : Windows) → scr_visible (close_all w) ≡ none
unfolding close_all scr_visible
scr_visible-close_all w = refl

pub is_visible-shown :
    (s : Screen) (w : Windows) → visible w ≤ 1 → scr_visible w ≡ some s → is_visible s w ≡ true
is_visible-shown s w h e = is_visible-shows s w h ∙ (ap (shows s) e ∙ same_screen_refl s)

-- Another screen is requested.
trans_placed-spot :
    (o : Option Screen) (s : Screen) (p : Placed)
    → visible p.windows ≤ 1
    → scr_visible p.windows ≡ o
    → shows s o ≡ false
    → spot (trans_placed o s p) ≡ record { shown = some s; here = at o p; saved = at o p }
unfolding trans_placed enter
trans_placed-spot none s p h e k =
    do_trans-enter s (close_screens p)
      (ap scr_visible (windows-close_screens p) ∙ scr_visible-close_all p.windows)
    ∙ (ap (enter s) (close_screens-spot p h) ∙ ap (λ o. enter s (leave_all o (spot p))) e)
trans_placed-spot (some t) s p h e k = rw k (
    do_trans-enter s (save_and_hide t p) (
      ap scr_visible (windows-save_and_hide t p)
      ∙ scr_visible-hide_this t p.windows h (is_visible-shown t p.windows h e))
    ∙ (ap (enter s) (save_and_hide-left t p h (is_visible-shown t p.windows h e))
        ∙ ap (λ o. enter s (left (seen o p))) e))

pub if-spot : (b : Bool) (p : Placed) (a : Spot) → spot p ≡ a → spot (if b then p else p) ≡ a
if-spot true p a h = h
if-spot false p a h = h

pub show_screen-spot :
    (s : Screen) (p : Placed)
    → visible p.windows ≤ 1
    → spot (show_screen s p) ≡ show_spot s (spot p)
unfolding show_screen
show_screen-spot s p h = elim (Bool-cases (shows s (scr_visible p.windows))) [
  | inl k ↦
      show_screen-shown s p (visible-scr_visible s p.windows h (is_visible-shows s p.windows h ∙ k))
  | inr k ↦
      rw k (if-spot (is_primary s) _ _ (trans_placed-spot (scr_visible p.windows) s p h refl k))
]
