-- ===== src/Gui/Places/Spot.antt =====
-- The place of the visible screen, whatever its width.
use celo_desktop_app.Base.{
  ℕ, ◌/◌, ◌≤◌, ◌≡◌, sym, ap, true, false, Option, none, some, if◌then◌else◌, ==_refl, ◌∙◌, arith,
}
use celo_desktop_app.Base.Int.{ℤ, pos, negsuc, ◌+ℤ◌}
use celo_desktop_app.Gui.Windows.{Screen, Windows, scr_visible, to_front, hide_this, screen_number}
use celo_desktop_app.Gui.Windows.Single.{visible}
use celo_desktop_app.Gui.Places.{
  minus, Frame, Placed, same_screen, is_visible, corner, save_coords, moved, apply_coords,
  save_and_hide, front, do_trans, shows, is_primary,
}

-- What the user sees: the visible screen, where it is, and where the next one will be.
pub record Spot : Type 0 where
  pub shown : Option Screen
  pub here : ℤ × ℤ
  pub saved : ℤ × ℤ

abbrev pub at : Option Screen → Placed → ℤ × ℤ
at none p = (p.x, p.y)
at (some s) p = corner (p.frames s)

abbrev pub spot : Placed → Spot
spot p = record {
  shown = scr_visible p.windows;
  here = at (scr_visible p.windows) p;
  saved = (p.x, p.y);
}

minus_plus : (x : ℤ) (n : ℕ) → minus x n +ℤ pos n ≡ x
minus_plus (pos m) n = ground arith
minus_plus (negsuc m) n = ground arith

plus_minus : (x : ℤ) (n : ℕ) → minus (x +ℤ pos n) n ≡ x
plus_minus (pos m) n = ground arith
plus_minus (negsuc m) n = ground arith

-- A moved frame has the corner that it was moved to.
corner-moved : (x y : ℤ) (f : Frame) → corner (moved x y f) ≡ (x, y)
unfolding corner moved
corner-moved x y f =
    ap (λ z. (z, y)) (rw (minus_plus (x +ℤ pos 187) (f.width / 2)) (plus_minus x 187))

pub is_visible-shows :
    (s : Screen) (w : Windows) → visible w ≤ 1 → is_visible s w ≡ shows s (scr_visible w)
unfolding is_visible scr_visible
is_visible-shows Screen.connection w h = ground arith
is_visible-shows Screen.login_window w h = ground arith
is_visible-shows Screen.logs w h = ground arith
is_visible-shows Screen.map_screen w h = ground arith
is_visible-shows Screen.settings w h = ground arith

pub hidden : (s : Screen) (w : Windows) → is_visible s w ≡ false → hide_this s w ≡ w
unfolding is_visible hide_this
hidden Screen.connection w h = ap (λ b. record w { connection = b }) (sym h)
hidden Screen.login_window w h = ap (λ b. record w { login_window = b }) (sym h)
hidden Screen.logs w h = ap (λ b. record w { logs = b }) (sym h)
hidden Screen.map_screen w h = ap (λ b. record w { map_screen = b }) (sym h)
hidden Screen.settings w h = ap (λ b. record w { settings = b }) (sym h)

pub scr_visible-hide_this :
    (s : Screen) (w : Windows)
    → visible w ≤ 1
    → is_visible s w ≡ true
    → scr_visible (hide_this s w) ≡ none
unfolding is_visible hide_this scr_visible
scr_visible-hide_this Screen.connection w h k = ground arith
scr_visible-hide_this Screen.login_window w h k = ground arith
scr_visible-hide_this Screen.logs w h k = ground arith
scr_visible-hide_this Screen.map_screen w h k = ground arith
scr_visible-hide_this Screen.settings w h k = ground arith

pub same_screen_refl : (s : Screen) → same_screen s s ≡ true
same_screen_refl s = ==_refl (screen_number s)

pub visible-scr_visible :
    (s : Screen) (w : Windows) → visible w ≤ 1 → is_visible s w ≡ true → scr_visible w ≡ some s
unfolding is_visible scr_visible
visible-scr_visible Screen.connection w h k = ground arith
visible-scr_visible Screen.login_window w h k = ground arith
visible-scr_visible Screen.logs w h k = ground arith
visible-scr_visible Screen.map_screen w h k = ground arith
visible-scr_visible Screen.settings w h k = ground arith

pub scr_visible-to_front :
    (s : Screen) (w : Windows) → scr_visible w ≡ none → scr_visible (to_front s w) ≡ some s
unfolding to_front scr_visible
scr_visible-to_front Screen.connection w h = ground arith
scr_visible-to_front Screen.login_window w h = ground arith
scr_visible-to_front Screen.logs w h = ground arith
scr_visible-to_front Screen.map_screen w h = ground arith
scr_visible-to_front Screen.settings w h = ground arith

pub scr_visible-to_front_same :
    (s : Screen) (w : Windows) → scr_visible w ≡ some s → to_front s w ≡ w
unfolding to_front scr_visible
scr_visible-to_front_same Screen.connection w h = ground arith
scr_visible-to_front_same Screen.login_window w h = ground arith
scr_visible-to_front_same Screen.logs w h = ground arith
scr_visible-to_front_same Screen.map_screen w h = ground arith
scr_visible-to_front_same Screen.settings w h = ground arith

-- What the requests do to what the user sees.
abbrev pub left : Spot → Spot
left a = record { shown = none; here = a.here; saved = a.here }

abbrev pub hide_spot : Screen → Spot → Spot
hide_spot s a = if shows s a.shown then left a else a

abbrev pub leave_all : Option Screen → Spot → Spot
leave_all none a = a
leave_all (some _) a = left a

abbrev pub show_spot : Screen → Spot → Spot
show_spot s a =
    if shows s a.shown
    then if is_primary s then a else record a { here = a.saved }
    else record { shown = some s; here = a.here; saved = a.here }

abbrev pub seen : Option Screen → Placed → Spot
seen o p = record { shown = o; here = at o p; saved = (p.x, p.y) }

pub spot_of : (o : Option Screen) (p : Placed) → scr_visible p.windows ≡ o → spot p ≡ seen o p
spot_of o p h = ap (λ r. seen r p) h

pub save_and_hide-left :
    (s : Screen) (p : Placed)
    → visible p.windows ≤ 1
    → is_visible s p.windows ≡ true
    → spot (save_and_hide s p) ≡ left (spot p)
unfolding save_and_hide save_coords
save_and_hide-left s p h k =
    ap
      (λ b. spot (
        let q =
          if b then record p { x = (corner (p.frames s)).0; y = (corner (p.frames s)).1 } else p in
        record q { windows = hide_this s q.windows }))
      k
    ∙ (ap
          (λ o. record {
            shown = o;
            here = at o (record p {
              x = (corner (p.frames s)).0;
              y = (corner (p.frames s)).1;
              windows = hide_this s p.windows;
            });
            saved = corner (p.frames s);
          })
          (scr_visible-hide_this s p.windows h k)
        ∙ sym (ap left (spot_of (some s) p (visible-scr_visible s p.windows h k))))

pub do_trans-spot :
    (s : Screen) (p : Placed)
    → scr_visible (to_front s p.windows) ≡ some s
    → spot (do_trans s p) ≡ record { shown = some s; here = (p.x, p.y); saved = (p.x, p.y) }
unfolding do_trans apply_coords front
do_trans-spot s p h =
    spot_of (some s) (do_trans s p) h
    ∙ (ap
          (λ b. record {
            shown = some s;
            here = corner (if b then moved p.x p.y (p.frames s) else p.frames s);
            saved = (p.x, p.y);
          })
          (same_screen_refl s)
        ∙ ap (λ c. record { shown = some s; here = c; saved = (p.x, p.y) })
            (corner-moved p.x p.y (p.frames s)))
