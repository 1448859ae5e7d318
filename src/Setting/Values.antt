-- ===== src/Setting/Values.antt =====
-- The local port, the forwarded ports and the day of the last message about an update.
use celo_desktop_app.Base.{
  ℕ, ◌+◌, ◌-◌, ◌%◌, Bool, true, not, Option, none, some, List, [], ◌∷◌, if◌then◌else◌, leb, ltb,
  is_empty,
}
use celo_desktop_app.Base.Int.{ℤ, pos, leb_ℤ}
use celo_desktop_app.Base.State.{skip}
use celo_desktop_app.Base.Text.{Text, codes, ◌=text◌, split}
use celo_desktop_app.Common.{Qt, int_of, is_valid_port}
use celo_desktop_app.Setting.Store.{text_value, Conversions, Preferences, P, value, set_value}

-- std::sort.
unfoldable pub insert_sorted : ℤ → List ℤ → List ℤ
insert_sorted x [] = x ∷ []
insert_sorted x (y ∷ ys) =
    let rest = insert_sorted x ys in if leb_ℤ x y then x ∷ y ∷ ys else y ∷ rest

unfoldable pub sort : List ℤ → List ℤ
sort [] = []
sort (x ∷ xs) = insert_sorted x (sort xs)

module _ (qt : Qt) (cv : Conversions) where
  unfoldable pub local_port : Preferences → Text
  local_port p =
      let s = cv.to_text (value (codes "e_LocalPort") (text_value (codes "11")) p) in
      if is_empty s then codes "6842" else s

  unfoldable pub set_local_port : Text → P (Unit {0})
  set_local_port s =
      if is_valid_port qt s then set_value (codes "e_LocalPort") (text_value s) else skip

  -- The loop of forwardPorts: `none` where it meets a part that is no port.
  unfoldable pub valid_ports : List Text → Option (List ℤ)
  valid_ports [] = some []
  valid_ports (w ∷ ws) = elim (valid_ports ws) [
    | none ↦ none
    | some rest ↦ if is_valid_port qt w then some (int_of (qt.to_int w) ∷ rest) else none
  ]

  abbrev pub or_none : Option (List ℤ) → List ℤ
  or_none none = []
  or_none (some v) = v

  unfoldable pub forward_ports : Preferences → List ℤ
  forward_ports p =
      sort (
        or_none (valid_ports (split b',' (cv.to_text (value (codes "e_Ports") (text_value []) p)))))

  unfoldable pub set_forward_ports : Text → P (Unit {0})
  set_forward_ports s = set_value (codes "e_Ports") (text_value s)

  -- `int d = curr - old` on unsigned 32-bit numbers: less than a day, or negative as an `int`.
  abbrev pub within_day : ℕ → ℕ → Bool
  within_day curr old =
      let d = (curr + 4294967296 - old) % 4294967296 in
      if ltb d 86400 then true else leb 2147483648 d

  abbrev pub check_age : ℕ → Option ℕ → Bool
  check_age curr none = true
  check_age curr (some old) = not (within_day curr old)

  -- checkForUpdates at the time `curr`.
  unfoldable pub check_for_updates : ℕ → Preferences → Bool
  check_for_updates curr p =
      let saved = cv.to_text (value (codes "LastUpdMsg") (text_value (codes "undefined")) p) in
      if saved =text codes "undefined" then true else check_age curr (cv.to_uint saved)

  unfoldable pub update_message_shown : ℕ → P (Unit {0})
  update_message_shown t = set_value (codes "LastUpdMsg") (text_value (qt.number (pos t)))
