-- ===== src/Desktop/Session.antt =====
-- What the slots of a login keep: a predicate on the tray, the login flag and the crash.
use celo_desktop_app.Base.{
  ◌≡◌, refl, sym, subst, Bool, true, false, not, ◌&&◌, some, List, [], ◌∷◌, Bool-cases, inl, inr,
  is_empty,
}
use celo_desktop_app.Base.Int.{ℤ, pos, ltb_ℤ}
use celo_desktop_app.Base.State.{Keeps, Keeps-if, Keeps-skip, Keeps-bind, keeps_rules}
use celo_desktop_app.Base.Text.{Text, codes, ◌=text◌}
use celo_desktop_app.Auth.Types.{
  Account, AuthAction, login_completed, logout_completed, server_lists_loaded, login_error,
  old_ip_loaded, new_ip_loaded, send_credentials, fetch_servers, abort_reply, fetch_old_ip,
  start_ping,
}
use celo_desktop_app.Auth.Servers.{server_ix_from_name, get_server, current_encryption_servers}
use celo_desktop_app.Gui.Manager.{GuiEnv, G}
use celo_desktop_app.Setting.Load.{load_server, saved_ix, select_saved}
use celo_desktop_app.Setting.Protocols.{tcp_or_udp}
use celo_desktop_app.Setting.Store.{Preferences}
use celo_desktop_app.Desktop.Types.{
  LoginForm, Window, Tray, Desk, DeskEnv, gui_env, on_gui, on_form, on_tray, show,
}
use celo_desktop_app.Desktop.Tray.{
  disable_actions_on_logout, enable_buttons_on_login, clear_connect_to_menu,
  construct_connect_to_menu, send_connect,
}
use celo_desktop_app.Desktop.Slots.{
  enable_buttons, save_credentials, desk_load_server, open_session, start_session, window_logged_in,
  window_login_error, deliver, deliver_all,
}

-- The lookup of the saved server leaves the login alone.
saved_ix-logged_in :
    (saved : ℤ) (name : Text) (a : Account) → (saved_ix saved name a).1.logged_in ≡ a.logged_in
unfolding saved_ix server_ix_from_name
saved_ix-logged_in saved name a =
    let here = get_server a saved in
    elim (Bool-cases (ltb_ℤ saved (pos 0))) [
      | inl t ↦ rw t refl
      | inr f ↦ rw f (elim (Bool-cases (not (is_empty here.name) && (here.name =text name))) [
        | inl t ↦ rw t refl
        | inr g ↦ rw g (elim (Bool-cases (name =text codes "undefined")) [
          | inl t ↦ rw t refl
          | inr h ↦ rw h refl
        ])
      ])
    ]

load_server-logged_in :
    (env : DeskEnv) (g : GuiEnv) (pings : List ℤ) (a : Account) (p : Preferences)
    → (load_server g.qt g.cv env.sort pings (env.rand 0) (env.rand 1) a p).0.logged_in ≡ a.logged_in
unfolding load_server select_saved
load_server-logged_in env g pings a p =
    elim (Bool-cases (is_empty (current_encryption_servers a (tcp_or_udp g.cv g.qt p).0))) [
      | inl t ↦ rw t refl
      | inr f ↦ rw f (saved_ix-logged_in _ _ a)
    ]

module _ (env : DeskEnv) (P : Tray → Bool → Bool → Type 0)
    (filled : (t : Tray) (l c : Bool) (items : List (Text × ℤ))
      → env.testing ≡ false
      → P t l c
      → P (record t { menu = some items; menu_enabled = true }) l c) where
  abbrev pub Of : Desk → Type 0
  Of d = P d.tray d.auth.account.logged_in d.crashed

  on_gui-Of : {B : Type 0} (op : GuiEnv → G B) → Keeps Of (on_gui env op)
  unfolding on_gui
  on_gui-Of op = record { at = λ d h. h }

  on_form-Of : (f : LoginForm → LoginForm) → Keeps Of (on_form f)
  unfolding on_form
  on_form-Of f = record { at = λ d h. h }

  show-Of : (w : Window) → Keeps Of (show w)
  unfolding show
  show-Of w = record { at = λ d h. h }

  enable_buttons-Of : (b : Bool) → Keeps Of (enable_buttons b)
  unfolding enable_buttons
  enable_buttons-Of b = on_form-Of _

  send_connect-Of : Keeps Of (send_connect env)
  unfolding send_connect
  send_connect-Of = on_gui-Of _

  save_credentials-Of : Keeps Of (save_credentials env)
  unfolding save_credentials
  save_credentials-Of = search (keeps_rules, on_gui-Of) depth 14

  load-Of : Keeps Of (desk_load_server env)
  unfolding desk_load_server
  load-Of = record {
    at = λ d h.
        subst (λ l. P d.tray l d.crashed)
          (sym (
            load_server-logged_in env (gui_env env d) d.auth.pings.pings d.auth.account
              d.gui.preferences))
          h;
  }

  pub open_session-Of : Keeps Of (open_session env)
  unfolding open_session
  open_session-Of = search (keeps_rules, save_credentials-Of, load-Of, show-Of) depth 14

  pub start_session-Of : Keeps Of (start_session env)
  unfolding start_session
  start_session-Of = search (keeps_rules, send_connect-Of, enable_buttons-Of, on_form-Of) depth 14

  pub construct-Of : Keeps Of (construct_connect_to_menu env)
  unfolding construct_connect_to_menu clear_connect_to_menu on_tray on_gui
  construct-Of = record {
    at = λ d h. elim (Bool-cases env.testing) [
      | inl t ↦ rw t h
      | inr f ↦ rw f (
          (Keeps-if {P = Of} d.auth.account.logged_in
              (record { at = λ k z. filled k.tray k.auth.account.logged_in k.crashed _ f z })
              Keeps-skip).at
            d h)
    ];
  }

  pub window_logged_in-Of : Keeps Of (window_logged_in env)
  unfolding window_logged_in
  window_logged_in-Of =
      search (keeps_rules, open_session-Of, construct-Of, start_session-Of) depth 14

  -- What the slots of every signal keep.
  module _
      (flags : (t : Tray) (l c b : Bool)
        → P t l c
        → P (record t { logout = b; jump = b; switch_country = b }) l c) where
    disable-Of : Keeps Of disable_actions_on_logout
    unfolding disable_actions_on_logout on_tray
    disable-Of = record { at = λ d h. flags d.tray _ _ false h }

    enable-Of : Keeps Of enable_buttons_on_login
    unfolding enable_buttons_on_login on_tray
    enable-Of = record { at = λ d h. flags d.tray _ _ true h }

    pub window_login_error-Of : (e : Text) → Keeps Of (window_login_error env e)
    unfolding window_login_error
    window_login_error-Of e =
        search (keeps_rules, disable-Of, show-Of, enable_buttons-Of, on_form-Of) depth 14

    deliver-Of : (a : AuthAction) → Keeps Of (deliver env a)
    unfolding deliver
    deliver-Of login_completed = search (keeps_rules, enable-Of, window_logged_in-Of) depth 14
    deliver-Of (login_error e) = window_login_error-Of e
    deliver-Of logout_completed = disable-Of
    deliver-Of server_lists_loaded = construct-Of
    deliver-Of send_credentials = on_gui-Of _
    deliver-Of (old_ip_loaded ip) = Keeps-skip
    deliver-Of (new_ip_loaded ip) = Keeps-skip
    deliver-Of fetch_servers = Keeps-skip
    deliver-Of abort_reply = Keeps-skip
    deliver-Of fetch_old_ip = Keeps-skip
    deliver-Of (start_ping id srv) = Keeps-skip

    pub deliver_all-Of : (l : List AuthAction) → Keeps Of (deliver_all env l)
    unfolding deliver_all
    deliver_all-Of [] = Keeps-skip
    deliver_all-Of (a ∷ older) =
        Keeps-bind {f = λ _. deliver env a} (deliver_all-Of older) (λ _. deliver-Of a)
