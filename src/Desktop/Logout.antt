-- ===== src/Desktop/Logout.antt =====
-- The logout from the tray's menu: the menu of the servers may not be there.
use celo_desktop_app.Base.{
  ◌≡◌, refl, sym, ap, ◌∙◌, subst, Bool, true, false, not, Option, none, some, List, [], ◌∷◌, ◌++◌,
  Bool-cases, inl, inr,
}
use celo_desktop_app.Base.Int.{ℤ}
use celo_desktop_app.Base.State.{Keeps, keeps_rules, get, ◌>>=◌, ◌>>◌}
use celo_desktop_app.Base.Text.{Text}
use celo_desktop_app.Auth.Types.{Auth, A, login_completed}
use celo_desktop_app.Auth.Servers.{Node, Reply}
use celo_desktop_app.Auth.Login.Outcome.{Ends, Explains, listed, login_finished_lem}
use celo_desktop_app.Desktop.Types.{
  LoginForm, Tray, Window, Desk, DeskEnv, on_gui, on_form, on_tray, show,
}
use celo_desktop_app.Desktop.Tray.{
  disable_actions_on_logout, enable_buttons_on_login, emptied, clear_connect_to_menu,
  construct_connect_to_menu, send_disconnect,
}
use celo_desktop_app.Desktop.Slots.{
  window_logged_in, deliver, deliver_all, on_auth, cancel_clicked, login_reply, disable_menu,
  leave_session, logout_triggered,
}
use celo_desktop_app.Desktop.Reply.{after_reply, delivered}
use celo_desktop_app.Desktop.Session.{
  Of, construct-Of, open_session-Of, start_session-Of, deliver_all-Of,
}

abbrev pub has_menu : Option (List (Text × ℤ)) → Bool
has_menu none = false
has_menu (some items) = true

-- The menu is there or not, and nothing has crashed.
abbrev Menu : Bool → Tray → Bool → Bool → Type 0
Menu b t l c = (has_menu t.menu ≡ b) × (c ≡ false)

module _ (env : DeskEnv) (b : Bool)
    (filled : (t : Tray) (l c : Bool) (items : List (Text × ℤ))
      → env.testing ≡ false
      → Menu b t l c
      → Menu b (record t { menu = some items; menu_enabled = true }) l c) where
  abbrev IsCalm : Desk → Type 0
  IsCalm = Of env (Menu b) filled

  on_auth-Menu : (op : A (Unit {0})) → Keeps IsCalm (on_auth env op)
  unfolding on_auth
  on_auth-Menu op = record {
    at = λ d h. (deliver_all-Of env (Menu b) filled (λ t l c f k. k) _).at _ h;
  }

  send_disconnect-Menu : Keeps IsCalm (send_disconnect env)
  unfolding send_disconnect on_gui
  send_disconnect-Menu = record { at = λ d h. h }

  show-Menu : (w : Window) → Keeps IsCalm (show w)
  unfolding show
  show-Menu w = record { at = λ d h. h }

  on_form-Menu : (f : LoginForm → LoginForm) → Keeps IsCalm (on_form f)
  unfolding on_form
  on_form-Menu f = record { at = λ d h. h }

  clear-Menu : Keeps IsCalm clear_connect_to_menu
  unfolding clear_connect_to_menu on_tray
  clear-Menu = record { at = λ d h. (emptied-has d.tray.menu ∙ h.0, h.1) }
    where
      emptied-has : (m : Option (List (Text × ℤ))) → has_menu (emptied m) ≡ has_menu m
      emptied-has none = refl
      emptied-has (some items) = refl

  cancel-Menu : Keeps IsCalm (cancel_clicked env)
  unfolding cancel_clicked
  cancel-Menu = search (keeps_rules, on_form-Menu, on_auth-Menu) depth 14

  leave_session-Menu : Keeps IsCalm (leave_session env)
  unfolding leave_session
  leave_session-Menu =
      search (keeps_rules, send_disconnect-Menu, on_auth-Menu, show-Menu, cancel-Menu, clear-Menu)
        depth 14

module _ (env : DeskEnv) where
  disable_menu-crashed :
      (m : Option (List (Text × ℤ))) (b : Bool) (d : Desk)
      → has_menu m ≡ b
      → d.crashed ≡ false
      → (disable_menu env m d).1.crashed ≡ not b
  unfolding on_tray
  disable_menu-crashed none b d h c = ap not h
  disable_menu-crashed (some items) b d h c = c ∙ ap not h

  left-crashed :
      (b : Bool) (d : Desk)
      → has_menu d.tray.menu ≡ b
      → d.crashed ≡ false
      → (((get >>= λ k. disable_menu env k.tray.menu) >> disable_actions_on_logout) d).1.crashed
        ≡ not b
  unfolding disable_actions_on_logout on_tray
  left-crashed b d h c = disable_menu-crashed d.tray.menu b d h c

  no_menu :
      env.testing ≡ true
      → (t : Tray) (l c : Bool) (items : List (Text × ℤ)) → env.testing ≡ false
      → Menu false t l c
      → Menu false (record t { menu = some items; menu_enabled = true }) l c
  no_menu t t' l c items f h = absurd (cc (t, f))

  -- The menu is made by a login, outside of the testing mode.
  construct-Menu :
      (d : Desk)
      → env.testing ≡ false
      → d.auth.account.logged_in ≡ true
      → has_menu (construct_connect_to_menu env d).1.tray.menu ≡ true
  unfolding construct_connect_to_menu on_tray
  construct-Menu d f h = rw (f, h) refl

  made-Menu :
      (d : Desk)
      → env.testing ≡ false
      → d.auth.account.logged_in ≡ true
      → d.crashed ≡ false
      → Menu true
          (deliver env login_completed d).1.tray
          true
          (deliver env login_completed d).1.crashed
  unfolding deliver window_logged_in enable_buttons_on_login on_tray
  made-Menu d f h c =
      let kept =
        λ (t : Tray) (l b : Bool) (items : List (Text × ℤ)) (f : env.testing ≡ false)
            (k : (l ≡ true) × (b ≡ false)).
          k in
      let opened =
        (open_session-Of env (λ t l b. (l ≡ true) × (b ≡ false)) kept).at
          (enable_buttons_on_login d).1 (h, c) in
      let built = (construct-Of env (λ t l b. (l ≡ true) × (b ≡ false)) kept).at _ opened in
      (start_session-Of env (Menu true) (λ t l b items f k. (refl, k.1))).at _
        (construct-Menu _ f opened.0, built.1)

  -- A reply that completes the login decides by the testing mode whether there is a menu.
  replied-Menu :
      (n : Node) (ns : List Node) (d : Desk) (m : Auth)
      → Ends (n ∷ ns) (record d.auth { trace = [] }) m
      → has_menu d.tray.menu ≡ false
      → d.crashed ≡ false
      → (has_menu (delivered env m m.trace d).tray.menu ≡ not env.testing)
        × ((delivered env m m.trace d).crashed ≡ false)
  unfolding deliver_all
  replied-Menu n ns d m h none_yet calm = elim (Bool-cases env.testing) [
    | inl t ↦
        let (menu, still) =
          (deliver_all-Of env (Menu false) (no_menu t) (λ t l c f k. k) m.trace).at
            (record d { auth = record m { trace = m.trace ++ d.auth.trace } }) (none_yet, calm) in
        (menu ∙ sym (ap not t), still)
    | inr f ↦
        let (older, trace) = h.completed in
        let (flag, still) =
          (deliver_all-Of env (λ t l c. (l ≡ true) × (c ≡ false)) (λ t l c items f k. k)
              (λ t l c b k. k) older).at
            (record d { auth = record m { trace = m.trace ++ d.auth.trace } })
            (h.logged_in, calm) in
        let (menu, calm_still) =
          subst
            (λ l.
              (has_menu (delivered env m l d).tray.menu ≡ true)
              × ((delivered env m l d).crashed ≡ false))
            (sym trace) (made-Menu (delivered env m older d) f flag still) in
        (menu ∙ sym (ap not f), calm_still)
  ]

  logout-crashed :
      (d : Desk)
      → has_menu d.tray.menu ≡ not env.testing
      → d.crashed ≡ false
      → (logout_triggered env d).1.crashed ≡ env.testing
  unfolding logout_triggered
  logout-crashed d h c = elim (Bool-cases env.testing) [
    | inl t ↦
        let k = (leave_session-Menu env false (no_menu t)).at d (h ∙ ap not t, c) in
        left-crashed false (leave_session env d).1 k.0 k.1 ∙ sym t
    | inr f ↦
        let k =
          (leave_session-Menu env true (λ t l b items f k. (refl, k.1))).at d (h ∙ ap not f, c) in
        left-crashed true (leave_session env d).1 k.0 k.1 ∙ sym f
  ]

  -- When the reply lists a node and a failed reply has an error text that is not empty, there is no menu of the
  -- servers yet and nothing has crashed, then the logout that follows the reply uses a null pointer
  -- exactly in the testing mode.
  pub login_reply-logout_triggered :
      (r : Reply) (n : Node) (ns : List Node) (d : Desk)
      → Explains r
      → listed env.dom r ≡ n ∷ ns
      → has_menu d.tray.menu ≡ false
      → d.crashed ≡ false
      → ((login_reply env r >> logout_triggered env) d).1.crashed ≡ env.testing
  unfolding login_reply on_auth
  login_reply-logout_triggered r n ns d h e none_yet calm =
      let ends =
        subst (λ l. Ends l (record d.auth { trace = [] }) (after_reply env r d)) e
          (login_finished_lem env.dom env.testing (record d.auth { trace = [] }) r h) in
      let (menu, still) = replied-Menu n ns d (after_reply env r d) ends none_yet calm in
      logout-crashed (login_reply env r d).1 menu still
