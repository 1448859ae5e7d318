-- ===== src/Desktop/Reply.antt =====
-- What the reply to a login shows, and the logout that follows.
use celo_desktop_app.Base.{
  ◌≡◌, refl, sym, subst, Bool, true, false, List, [], ◌∷◌, ◌++◌, if◌then◌else◌, Bool-cases, inl,
  inr, is_empty,
}
use celo_desktop_app.Base.Text.{Text}
use celo_desktop_app.Auth.Types.{Auth, AuthAction, login_completed}
use celo_desktop_app.Auth.Servers.{Node, Reply}
use celo_desktop_app.Auth.Login.{login_finished}
use celo_desktop_app.Auth.Login.Outcome.{Ends, Explains, listed, login_finished_lem}
use celo_desktop_app.Desktop.Types.{
  error_dialog, login_screen, Desk, DeskEnv, on_form, on_tray, show,
}
use celo_desktop_app.Desktop.Tray.{
  disable_actions_on_logout, enable_buttons_on_login, construct_connect_to_menu,
}
use celo_desktop_app.Desktop.Slots.{
  enable_buttons, open_session, start_session, window_logged_in, window_login_error, deliver,
  deliver_all, on_auth, login_reply,
}
use celo_desktop_app.Desktop.Session.{window_logged_in-Of, deliver_all-Of}

-- The form is ready again, and the tray is what the login has come to.
pub record Answered (ok : Bool) (k : Desk) : Type 0 where
  pub buttons : k.form.buttons ≡ true
  pub connect_after_login : k.form.connect_after_login ≡ false
  pub logged_in : k.auth.account.logged_in ≡ ok
  pub logout : k.tray.logout ≡ ok

-- The windows that a refused login brings up: none if it was cancelled.
abbrev pub Complains : Desk → Desk → Type 0
Complains d k =
    (e : Text) × (is_empty e ≡ false)
    × (k.windows
        ≡ (if d.form.cancel_login then d.windows else error_dialog e ∷ login_screen ∷ d.windows))

abbrev pub Shows : List Node → Desk → Desk → Type 0
Shows [] d k = Answered false k × Complains d k
Shows (n ∷ ns) d k = Answered true k

module _ (env : DeskEnv) where
  complained :
      (d : Desk) (e : Text)
      → d.auth.account.logged_in ≡ false
      → Answered false (window_login_error env e d).1
  unfolding window_login_error enable_buttons on_form disable_actions_on_logout on_tray show
  complained d e h = elim (Bool-cases d.form.cancel_login) [
    | inl t ↦
        rw t (record { buttons = refl; connect_after_login = refl; logged_in = h; logout = refl })
    | inr f ↦
        rw f (record { buttons = refl; connect_after_login = refl; logged_in = h; logout = refl })
  ]

  complained-windows :
      (d : Desk) (e : Text)
      → (window_login_error env e d).1.windows
        ≡ (if d.form.cancel_login then d.windows else error_dialog e ∷ login_screen ∷ d.windows)
  unfolding window_login_error enable_buttons on_form disable_actions_on_logout on_tray show
  complained-windows d e = elim (Bool-cases d.form.cancel_login) [
    | inl t ↦ rw t refl
    | inr f ↦ rw f refl
  ]

  closed_form :
      (d : Desk)
      → ((start_session env d).1.form.buttons ≡ true)
        × ((start_session env d).1.form.connect_after_login ≡ false)
  unfolding start_session enable_buttons on_form
  closed_form d = (refl, refl)

  welcomed :
      (d : Desk) → d.auth.account.logged_in ≡ true → Answered true (deliver env login_completed d).1
  unfolding deliver enable_buttons_on_login on_tray window_logged_in
  welcomed d h =
      let (l, t) =
        (window_logged_in-Of env (λ t l c. (l ≡ true) × (t.logout ≡ true))
            (λ t l c items f h. h)).at
          (enable_buttons_on_login d).1 (h, refl) in
      let (b, c) =
        closed_form
          (construct_connect_to_menu env (open_session env (enable_buttons_on_login d).1).1).1 in
      record { buttons = b; connect_after_login = c; logged_in = l; logout = t }

  -- The state in which the slots of a reply run.
  abbrev pub after_reply : Reply → Desk → Auth
  after_reply r d = (login_finished env.dom env.testing r (record d.auth { trace = [] })).1

  abbrev pub delivered : Auth → List AuthAction → Desk → Desk
  delivered m l d =
      (deliver_all env l (record d { auth = record m { trace = m.trace ++ d.auth.trace } })).1

  shown :
      (ns : List Node) (d : Desk) (m : Auth)
      → Ends ns (record d.auth { trace = [] }) m
      → Shows ns d (delivered m m.trace d)
  unfolding deliver_all deliver
  shown [] d m h =
      let (e, filled, trace) = h.error in
      let D = record d { auth = record m { trace = m.trace ++ d.auth.trace } } in
      subst (λ l. Shows [] d (delivered m l d)) (sym trace)
        (complained D e h.logged_in, (e, filled, complained-windows D e))
  shown (n ∷ ns) d m h =
      let (t, trace) = h.completed in
      subst (λ l. Shows (n ∷ ns) d (delivered m l d)) (sym trace)
        (welcomed (delivered m t d) (
          (deliver_all-Of env (λ t l c. l ≡ true) (λ t l c items f h. h) (λ t l c b h. h) t).at _
            h.logged_in))

  -- When a failed reply has an error text that is not empty: a reply that lists a node leaves the
  -- user logged in and the tray's logout action on. Any other reply leaves the user logged out and the
  -- action off, and brings up nothing if the login was cancelled, and else the login window and then a
  -- dialog of an error text that is not empty. Either way the form's buttons are on again and no
  -- request to connect after the login is left.
  pub login_reply_lem :
      (r : Reply) (d : Desk) → Explains r → Shows (listed env.dom r) d (login_reply env r d).1
  unfolding login_reply on_auth
  login_reply_lem r d h =
      shown (listed env.dom r) d (after_reply r d)
        (login_finished_lem env.dom env.testing (record d.auth { trace = [] }) r h)
