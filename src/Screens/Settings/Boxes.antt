-- ===== src/Screens/Settings/Boxes.antt =====
-- The boxes of the settings screen against the settings.
use celo_desktop_app.Base.{◌≡◌, List, [], ◌∷◌, Bool-cases, inl, inr}
use celo_desktop_app.Setting.Store.{Converts}
use celo_desktop_app.Setting.Flags.{
  Flag, autoconnect, block_on_disconnect, fix_dns, reconnect, startup, detect_insecure_wifi,
  logging, is_on,
}
use celo_desktop_app.Screens.Settings.{
  SettingsPanel, SettingsEnv, on_form, fill_boxes, fill_texts, fill_defaults, create_settings,
  SettingsEvent, settings_step, settings_run,
}
use celo_desktop_app.Screens.Settings.Kept.{
  Agrees, settings_step-Agrees, set_encryption_row-Agrees, fill_boxes-keeps, fill_boxes-Agrees,
}

module _ (env : SettingsEnv) (laws : Converts env.cv env.qt.number) where
  settings_run-Agrees :
      (es : List SettingsEvent) (g : Flag) (s : SettingsPanel)
      → Agrees env.cv g s
      → Agrees env.cv g (settings_run env es s).1
  unfolding settings_run
  settings_run-Agrees [] g s h = h
  settings_run-Agrees (e ∷ es) g s h =
      settings_run-Agrees es g (settings_step env e s).1 (settings_step-Agrees env laws e g s h)

  fill_texts-Agrees :
      (g : Flag) (s : SettingsPanel) → Agrees env.cv g s → Agrees env.cv g (fill_texts env s).1
  unfolding fill_texts on_form
  fill_texts-Agrees g s h = record { agrees = h.agrees }

  fill_defaults-Agrees :
      (g : Flag) (s : SettingsPanel) → Agrees env.cv g s → Agrees env.cv g (fill_defaults env s).1
  unfolding fill_defaults
  fill_defaults-Agrees g s h = elim (Bool-cases (s.form.checked fix_dns)) [
    | inl on ↦ rw on (unfold on_form in record { agrees = h.agrees })
    | inr off ↦ rw off h
  ]

  -- The constructor behind its boxes but the last.
  abbrev first_boxes : List Flag
  first_boxes =
      autoconnect ∷ block_on_disconnect ∷ fix_dns ∷ reconnect ∷ startup ∷ detect_insecure_wifi ∷ []

  create_settings-keeps :
      (g : Flag) (s : SettingsPanel)
      → Agrees env.cv g (fill_boxes env first_boxes s).1
      → Agrees env.cv g (create_settings env s).1
  unfolding create_settings
  create_settings-keeps g s h = fill_defaults-Agrees g _ (
      set_encryption_row-Agrees env laws _ g _ (
        fill_boxes-keeps env laws (logging ∷ []) g _
          (fill_texts-Agrees g (fill_boxes env first_boxes s).1 h)))

  create_logging-Agrees : (s : SettingsPanel) → Agrees env.cv logging (create_settings env s).1
  unfolding create_settings
  create_logging-Agrees s = fill_defaults-Agrees logging _ (
      set_encryption_row-Agrees env laws _ logging _ (
        (fill_boxes-Agrees env laws (logging ∷ [])
          (fill_texts env (fill_boxes env first_boxes s).1).1).0))

  create_settings-Agrees :
      (g : Flag) (s : SettingsPanel) → Agrees env.cv g (create_settings env s).1
  create_settings-Agrees autoconnect s =
      create_settings-keeps autoconnect s (fill_boxes-Agrees env laws first_boxes s).0
  create_settings-Agrees block_on_disconnect s =
      create_settings-keeps block_on_disconnect s (fill_boxes-Agrees env laws first_boxes s).1.0
  create_settings-Agrees fix_dns s =
      create_settings-keeps fix_dns s (fill_boxes-Agrees env laws first_boxes s).1.1.0
  create_settings-Agrees reconnect s =
      create_settings-keeps reconnect s (fill_boxes-Agrees env laws first_boxes s).1.1.1.0
  create_settings-Agrees startup s =
      create_settings-keeps startup s (fill_boxes-Agrees env laws first_boxes s).1.1.1.1.0
  create_settings-Agrees detect_insecure_wifi s =
      create_settings-keeps detect_insecure_wifi s
        (fill_boxes-Agrees env laws first_boxes s).1.1.1.1.1.0
  create_settings-Agrees logging s = create_logging-Agrees s

  -- From its constructor on, over any first state of the widgets and any stored settings, and after any
  -- clicks and any texts and choices of the user, every check box shows what its setting is.
  pub settings_run_lem :
      (es : List SettingsEvent) (f : Flag) (s : SettingsPanel)
      → let t = (settings_run env es (create_settings env s).1).1 in
        t.form.checked f ≡ is_on env.cv f t.preferences
  settings_run_lem es f s =
      (settings_run-Agrees es f (create_settings env s).1 (create_settings-Agrees f s)).agrees
