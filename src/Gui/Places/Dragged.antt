-- ===== src/Gui/Places/Dragged.antt =====
-- The screens keep their place, and follow the user, through any sequence of requests.
use celo_desktop_app.Base.{
  ℕ, ◌+◌, ◌/◌, ◌≤◌, ◌≡◌, refl, sym, ap, subst, inl, inr, Bool-cases, Bool, true, false, Option,
  none, some, List, [], ◌∷◌, if◌then◌else◌, ◌∙◌, arith,
}
use celo_desktop_app.Base.Int.{ℤ, pos, sub_ℕ, pos_part, neg_part, eqb_ℤ, ◌+ℤ◌}
use celo_desktop_app.Gui.Windows.{
  Screen, Windows, scr_visible, WndEvent, opens, opens_primary, opens_map, asks_port, changes,
  hides, closes, fronts, wnd_run,
}
use celo_desktop_app.Gui.Windows.Single.{visible, IsTidy, wnd_step-visible}
use celo_desktop_app.Gui.Places.{
  minus, Frame, Placed, is_visible, corner, save_coords, save_and_hide, shows, show_screen, primary,
  show_if_any, set_port_dialog, placed_state_changed, PlaceEvent, asks, drags, request, place_step,
  place_run,
}
use celo_desktop_app.Gui.Places.Spot.{
  Spot, at, spot, is_visible-shows, hidden, same_screen_refl, visible-scr_visible, left, hide_spot,
  leave_all, show_spot,
}
use celo_desktop_app.Gui.Places.Visible.{windows-request}
use celo_desktop_app.Gui.Places.Requests.{save_and_hide-spot, close_screens-spot, show_screen-spot}

abbrev pub shift : ℤ × ℤ → ℤ → ℤ → ℤ × ℤ
shift a dx dy = (a.0 +ℤ dx, a.1 +ℤ dy)

abbrev pub if_shown : Option Screen → Spot → Spot → Spot
if_shown none b a = a
if_shown (some _) b a = b

-- The requests, for what the user sees.
unfoldable pub spot_request : WndEvent → Spot → Spot
spot_request (opens s) a = show_spot s a
spot_request (opens_primary l) a = show_spot (primary l) a
spot_request (opens_map l) a = show_spot (if l then Screen.map_screen else Screen.login_window) a
spot_request (asks_port l) a = show_spot (primary l) a
spot_request (changes l st) a =
    if eqb_ℤ st (pos 1) then if_shown a.shown (show_spot (primary l) a) a else a
spot_request (hides s) a = hide_spot s a
spot_request closes a = leave_all a.shown a
spot_request fronts a = a

unfoldable pub spot_step : PlaceEvent → Spot → Spot
spot_step (asks e) a = spot_request e a
spot_step (drags s dx dy) a = if shows s a.shown then record a { here = shift a.here dx dy } else a

unfoldable pub spot_run : List PlaceEvent → Spot → Spot
spot_run [] a = a
spot_run (e ∷ es) a = spot_run es (spot_step e a)

abbrev pub requests : List PlaceEvent → List WndEvent
requests [] = []
requests (asks e ∷ es) = e ∷ requests es
requests (drags _ _ _ ∷ es) = requests es

-- No request is ToFront of the login window.
unfoldable pub AllTidy : List PlaceEvent → Type 0
AllTidy [] = Unit
AllTidy (asks e ∷ es) = IsTidy e × AllTidy es
AllTidy (drags _ _ _ ∷ es) = AllTidy es

sub_ℕ-parts : (a b : ℕ) → pos_part (sub_ℕ a b) + b ≡ a + neg_part (sub_ℕ a b)
sub_ℕ-parts a b = ground arith

sub_ℕ-same : (a b c d : ℕ) → a + d ≡ c + b → sub_ℕ a b ≡ sub_ℕ c d
sub_ℕ-same a b c d h = ground arith

differences :
    (px pd nx nd n m pa na pb nb pc nc pe ne : ℕ)
    → pa + (nx + nd) ≡ (px + pd) + na
    → pb + (na + 0) ≡ (pa + n) + nb
    → pc + (nx + 0) ≡ (px + n) + nc
    → pe + (nc + m) ≡ pc + ne
    → pb + (ne + nd) ≡ (pe + pd) + (nb + m)
differences px pd nx nd n m pa na pb nb pc nc pe ne h1 h2 h3 h4 = omega arith

minus-shift : (x d : ℤ) (n m : ℕ) → minus ((x +ℤ d) +ℤ pos n) m ≡ minus (x +ℤ pos n) m +ℤ d
minus-shift x d n m = sub_ℕ-same _ _ _ _ (
    differences _ _ _ _ n m _ _ _ _ _ _ _ _ (sub_ℕ-parts (pos_part x + pos_part d) _)
      (sub_ℕ-parts (pos_part (x +ℤ d) + n) _) (sub_ℕ-parts (pos_part x + n) _)
      (sub_ℕ-parts (pos_part (x +ℤ pos n)) _))

corner-shift :
    (f : Frame) (dx dy : ℤ)
    → corner (record f { x = f.x +ℤ dx; y = f.y +ℤ dy }) ≡ shift (corner f) dx dy
unfolding corner
corner-shift f dx dy = ap (λ z. (z, f.y +ℤ dy)) (minus-shift f.x dx (f.width / 2) 187)

save_and_hide-hidden :
    (s : Screen) (p : Placed) → is_visible s p.windows ≡ false → save_and_hide s p ≡ p
unfolding save_and_hide save_coords
save_and_hide-hidden s p k =
    rw k (ap {A = Windows} (λ w. record p { windows = w }) (hidden s p.windows k))

drag-spot :
    (s : Screen) (dx dy : ℤ) (p : Placed)
    → visible p.windows ≤ 1
    → spot (place_step (drags s dx dy) p) ≡ spot_step (drags s dx dy) (spot p)
unfolding place_step spot_step
drag-spot s dx dy p h =
    rw (sym (is_visible-shows s p.windows h)) (elim (Bool-cases (is_visible s p.windows)) [
      | inl k ↦ rw k (
          rw (visible-scr_visible s p.windows h k) (
            rw (same_screen_refl s) (
              ap (λ c. record { shown = some s; here = c; saved = (p.x, p.y) })
                (corner-shift (p.frames s) dx dy))))
      | inr k ↦ rw k refl
    ])

hides-spot :
    (s : Screen) (p : Placed)
    → visible p.windows ≤ 1
    → spot (save_and_hide s p) ≡ hide_spot s (spot p)
hides-spot s p h = elim (Bool-cases (is_visible s p.windows)) [
  | inl k ↦ save_and_hide-spot s p h k
  | inr k ↦
      ap spot (save_and_hide-hidden s p k)
      ∙ ap (λ b. if b then left (spot p) else spot p) (sym k ∙ is_visible-shows s p.windows h)
]

show_if_any-spot :
    (o : Option Screen) (s : Screen) (p : Placed)
    → visible p.windows ≤ 1
    → spot (show_if_any o s p) ≡ if_shown o (show_spot s (spot p)) (spot p)
show_if_any-spot none s p h = refl
show_if_any-spot (some _) s p h = show_screen-spot s p h

if-spots :
    (b : Bool) (p q : Placed) {a c : Spot}
    → spot p ≡ a
    → spot q ≡ c
    → spot (if b then p else q) ≡ (if b then a else c)
if-spots true p q h k = h
if-spots false p q h k = k

at-port_dialog : (o : Option Screen) (c : Bool) (p : Placed) → at o (set_port_dialog c p) ≡ at o p
at-port_dialog none c p = refl
at-port_dialog (some s) c p = refl

port_dialog-spot : (b c : Bool) (p : Placed) → spot (if b then set_port_dialog c p else p) ≡ spot p
unfolding scr_visible
port_dialog-spot true c p =
    ap (λ h. record { shown = scr_visible p.windows; here = h; saved = (p.x, p.y) })
      (at-port_dialog (scr_visible p.windows) c p)
port_dialog-spot false c p = refl

request-spot :
    (e : WndEvent)
    → IsTidy e
    → (p : Placed) → visible p.windows ≤ 1
    → spot (request e p) ≡ spot_request e (spot p)
unfolding request spot_request IsTidy placed_state_changed
request-spot (opens s) t p h = show_screen-spot s p h
request-spot (opens_primary l) t p h = show_screen-spot (primary l) p h
request-spot (opens_map l) t p h =
    show_screen-spot (if l then Screen.map_screen else Screen.login_window) p h
request-spot (asks_port l) t p h =
    port_dialog-spot true true (show_screen (primary l) p) ∙ show_screen-spot (primary l) p h
request-spot (changes l st) t p h =
    if-spots (eqb_ℤ st (pos 1)) _ _ (show_if_any-spot (scr_visible p.windows) (primary l) p h)
      (port_dialog-spot (eqb_ℤ st (pos 2)) false p)
request-spot (hides s) t p h = hides-spot s p h
request-spot closes t p h = close_screens-spot p h
request-spot fronts t p h = absurd t

windows-drag :
    (s : Screen) (dx dy : ℤ) (p : Placed) → (place_step (drags s dx dy) p).windows ≡ p.windows
unfolding place_step
windows-drag s dx dy p = elim (Bool-cases (is_visible s p.windows)) [
  | inl k ↦ rw k refl
  | inr k ↦ rw k refl
]

-- Where at most one screen is visible, for any sequence of requests without loginError's ToFront of
-- the login window, with the visible screen dragged in between: the same screens are visible as in
-- the manager without places, and what the user sees follows its own rules, whatever the widths. A
-- request for another screen shows it at the place of the one before, a screen that hides leaves its
-- place for the next, a drag moves the place as far, and a request for the settings, the logs or the
-- map while that screen is visible moves it back to the place saved before it was shown.
pub place_run_lem :
    (es : List PlaceEvent)
    → AllTidy es
    → (p : Placed) → visible p.windows ≤ 1
    → (spot (place_run es p) ≡ spot_run es (spot p))
      × ((place_run es p).windows ≡ wnd_run (requests es) p.windows)
unfolding place_run spot_run wnd_run AllTidy place_step spot_step
place_run_lem [] t p h = (refl, refl)
place_run_lem (asks e ∷ es) (te, t) p h =
    let w = windows-request e p in
    let r =
      place_run_lem es t (request e p)
        (subst (λ v. visible v ≤ 1) (sym w) (wnd_step-visible e te p.windows h)) in
    (r.0 ∙ ap (spot_run es) (request-spot e te p h), r.1 ∙ ap (wnd_run (requests es)) w)
place_run_lem (drags s dx dy ∷ es) t p h =
    let w = windows-drag s dx dy p in
    let r =
      place_run_lem es t (place_step (drags s dx dy) p) (subst (λ v. visible v ≤ 1) (sym w) h) in
    (r.0 ∙ ap (spot_run es) (drag-spot s dx dy p h), r.1 ∙ ap (wnd_run (requests es)) w)
