-- ===== src/Desktop/Early.antt =====
-- The tray's actions and the login flag: what the user can start before a login is over and after a
-- logout.
use celo_desktop_app.Base.{◌≡◌, refl, ap, ◌∙◌, Bool, true, false, ◌||◌, if◌then◌else◌, is_empty}
use celo_desktop_app.Base.Int.{pos}
use celo_desktop_app.Base.State.{◌>>◌, skip}
use celo_desktop_app.Auth.Types.{act, on_account}
use celo_desktop_app.Auth.Servers.{login}
use celo_desktop_app.Desktop.Types.{Desk, DeskEnv, on_gui, on_form, on_tray}
use celo_desktop_app.Desktop.Tray.{
  disable_actions_on_logout, update_actions_enabled, set_icon, state_changed, send_connect,
}
use celo_desktop_app.Desktop.Slots.{
  enable_buttons, deliver, deliver_all, on_auth, login_clicked, connect_triggered,
}

module _ (env : DeskEnv) where
  -- The flag stands while the reply is waited for.
  clicked : Desk → Desk
  clicked d =
      (on_auth env (login d.form.name d.form.password)
        (record d { form = record d.form { cancel_login = false; buttons = false } })).1

  login_clicked-clicked :
      (d : Desk)
      → (d.auth.account.logged_in || is_empty d.form.name) ≡ false
      → (login_clicked env d).1 ≡ clicked d
  unfolding login_clicked clicked enable_buttons on_form
  login_clicked-clicked d h =
      ap
        (λ (b : Bool).
          ((if b
              then skip
              else on_form (λ f. record f { cancel_login = false })
                >> (enable_buttons false >> on_auth env (login d.form.name d.form.password)))
            d).1)
        h

  clicked-logged_in : (d : Desk) → (clicked d).auth.account.logged_in ≡ true
  unfolding clicked on_auth login act on_account deliver_all deliver on_gui
  clicked-logged_in d = refl

  connect_triggered-in :
      (d : Desk) → d.auth.account.logged_in ≡ true → connect_triggered env d ≡ send_connect env d
  unfolding connect_triggered
  connect_triggered-in d h =
      ap (λ (b : Bool). (if b then send_connect env else login_clicked env) d) h

  -- When no login is on and the name is not empty, the tray's Connect that follows a click on the login's button asks
  -- the service for a connection, before any reply.
  pub login_clicked-connect_triggered :
      (d : Desk)
      → (d.auth.account.logged_in || is_empty d.form.name) ≡ false
      → (login_clicked env >> connect_triggered env) d ≡ (login_clicked env >> send_connect env) d
  login_clicked-connect_triggered d h =
      connect_triggered-in (login_clicked env d).1
        (ap (λ k. k.auth.account.logged_in) (login_clicked-clicked d h) ∙ clicked-logged_in d)

-- The status that follows a logout switches the jump on again.
pub state_changed-jump :
    (d : Desk)
    → d.auth.account.logged_in ≡ false
    → let k = ((disable_actions_on_logout >> state_changed (pos 0)) d).1 in
      (k.tray.jump ≡ true) × (k.tray.logout ≡ false) × (k.tray.switch_country ≡ false)
unfolding disable_actions_on_logout state_changed update_actions_enabled set_icon on_tray
state_changed-jump d h = (refl, refl, rw h refl)
