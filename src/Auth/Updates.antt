-- ===== src/Auth/Updates.antt =====
-- checkUpdates, processUpdatesXml (celovpn/authmanager.cpp), and the check at the start of the login
-- window (celovpn/loginwindow.cpp).
pub mod Rest
use celo_desktop_app.Base.{
  ℕ, Bool, true, false, ◌||◌, Option, none, some, List, [], ◌∷◌, if◌then◌else◌, is_empty,
}
use celo_desktop_app.Base.Int.{ℤ, pos, ltb_ℤ}
use celo_desktop_app.Base.State.{State, get, modify, skip, ◌>>=◌, ◌>>◌}
use celo_desktop_app.Base.Text.{Text, codes}
use celo_desktop_app.Common.{Qt}
use celo_desktop_app.Auth.Servers.{Reply, failed, bytes}
use celo_desktop_app.Setting.Store.{Conversions, Preferences, P}
use celo_desktop_app.Setting.Values.{check_for_updates, update_message_shown}

pub data UpdateAction : Type 0 where
  -- The request, the message "New version ... available. Update?" at a time, and the web page.
  fetch_updates : Text → UpdateAction
  confirm : ℕ → Text → UpdateAction
  launch_update_url : UpdateAction

-- The settings, and what was done, latest first.
pub record Updates : Type 0 where
  pub preferences : Preferences
  pub trace : List UpdateAction

-- The parameters: UPDATE_URL, Setting::testing(), and the texts of the elements "build" of a document,
-- or none where QDomDocument does not read it.
pub record UpdateEnv : Type 0 where
  pub qt : Qt
  pub cv : Conversions
  pub update_url : Text
  pub testing : Bool
  pub builds : Text → Option (List Text)

abbrev pub U : Type 0 → Type 0
U B = State Updates B

unfoldable pub do_update : UpdateAction → U (Unit {0})
do_update a = modify (λ u. record u { trace = a ∷ u.trace })

unfoldable pub on_preferences : P (Unit {0}) → U (Unit {0})
on_preferences op = modify (λ u. record u { preferences = (op u.preferences).1 })

-- BUILD_NUM of version.h.
abbrev pub build_num : ℤ
build_num = pos 4

-- A start of the program: its time, the reply if it asks for one, the time of the message, and the
-- user's answer to it.
pub record Start : Type 0 where
  pub time : ℕ
  pub reply : Reply
  pub answered : ℕ
  pub accepts : Bool

module _ (env : UpdateEnv) where
  unfoldable pub check_updates : U (Unit {0})
  check_updates = if is_empty env.update_url then skip else do_update (fetch_updates env.update_url)

  -- The text of the first "build", if there is one.
  abbrev pub first_build : Option (List Text) → Option Text
  first_build none = none
  first_build (some []) = none
  first_build (some (b ∷ bs)) = if is_empty b then none else some b

  abbrev pub is_newer : Option ℤ → Bool
  is_newer none = false
  is_newer (some v) = ltb_ℤ build_num v

  unfoldable pub offer_update : ℕ → Bool → Option Text → U (Unit {0})
  offer_update now accepts none = skip
  offer_update now accepts (some b) =
      if is_newer (env.qt.to_int b)
      then (do
        do_update (confirm now b)
        on_preferences (update_message_shown env.qt env.cv now)
        if accepts then do_update launch_update_url else skip)
      else skip

  -- processUpdatesXml at the time `now`.
  unfoldable pub process_updates_xml : ℕ → Bool → Reply → U (Unit {0})
  process_updates_xml now accepts (failed e) = skip
  process_updates_xml now accepts (bytes s) =
      if is_empty s then skip else offer_update now accepts (first_build (env.builds s))

  -- The check of Timer_Constructed, with the reply that comes for its request.
  unfoldable pub start_update : Start → U (Unit {0})
  start_update v = do
    u ← get
    if check_for_updates env.qt env.cv v.time u.preferences || env.testing
        then (do check_updates; process_updates_xml v.answered v.accepts v.reply)
        else skip

  unfoldable pub start_updates : List Start → U (Unit {0})
  start_updates [] = skip
  start_updates (v ∷ vs) = do start_update v; start_updates vs
