-- ===== src/Screens/Settings/Kept.antt =====
-- What a step of the settings screen does to a box and its setting.
use celo_desktop_app.Base.{
  ◌≡◌, refl, sym, ap, ◌∙◌, Bool, true, false, not, ◌&&◌, List, [], ◌∷◌, if◌then◌else◌, Bool-cases,
  inl, inr, if-both, All,
}
use celo_desktop_app.Base.Int.{ℤ, pos, negsuc, eqb_ℤ, ltb_ℤ}
use celo_desktop_app.Base.Separators.{=text-refl}
use celo_desktop_app.Base.State.{skip, ◌>>◌}
use celo_desktop_app.Base.Text.{Text, codes}
use celo_desktop_app.Common.{is_valid_port}
use celo_desktop_app.Setting.Store.{
  Variant, int_value, text_value, Conversions, Converts, Preferences, P, value, set_value, signal,
  encryption_changed,
}
use celo_desktop_app.Setting.Protocols.{encryption_count, set_encryption, load_protocol}
use celo_desktop_app.Setting.Ports.{load_protocol_lem}
use celo_desktop_app.Setting.Values.{set_local_port}
use celo_desktop_app.Setting.Flags.{Flag, startup, key, is_on}
use celo_desktop_app.Screens.Settings.{
  SettingsPanel, SettingsEnv, S, on_form, on_settings, same_flag, check, set_texts, write_startup,
  box_effect, box_toggled, differ, set_checked, click, encryption_chosen, is_ip_error,
  validate_dns1, validate_dns2, validate_local_port, fill_boxes, set_encryption_row, SettingsEvent,
  clicks, chooses, writes_dns1, writes_dns2, writes_local_port, settings_step,
}
use celo_desktop_app.Screens.Settings.Stored.{
  NoFlag, encryption-NoFlag, dns1-NoFlag, dns2-NoFlag, local_port-NoFlag, is_on-settings,
  is_on-other, is_on-set_flag,
}

-- The box of `f` shows its setting.
pub record Agrees (cv : Conversions) (f : Flag) (s : SettingsPanel) : Type 0 where
  pub agrees : s.form.checked f ≡ is_on cv f s.preferences

differ-false : (v b : Bool) → differ v b ≡ false → b ≡ v
differ-false true true h = refl
differ-false false false h = refl
differ-false true false h = cc
differ-false false true h = cc

module _ (env : SettingsEnv) (laws : Converts env.cv env.qt.number) where
  box_effect-Agrees :
      (f : Flag) (v : Bool) (g : Flag) (s : SettingsPanel)
      → Agrees env.cv g s
      → Agrees env.cv g (box_effect env f v s).1
  unfolding box_effect write_startup on_form set_texts
  box_effect-Agrees startup v g s h = record { agrees = h.agrees }
  box_effect-Agrees _ v g s h = record { agrees = h.agrees }

  -- The box and its setting after a change.
  changed-Agrees :
      (f : Flag) (v : Bool) (g : Flag) (s : SettingsPanel)
      → (if same_flag f g then v else s.form.checked g)
        ≡ (if same_flag f g then v else is_on env.cv g s.preferences)
      → Agrees env.cv g ((on_form (check f v) >> box_toggled env f v) s).1
  unfolding box_toggled on_form on_settings check
  changed-Agrees f v g s h =
      box_effect-Agrees f v g _
        (record { agrees = h ∙ sym (is_on-set_flag env.cv env.qt.number laws f g v s.preferences) })

  set_checked-keeps :
      (f : Flag) (v : Bool) (g : Flag) (s : SettingsPanel)
      → Agrees env.cv g s
      → Agrees env.cv g (set_checked env f v s).1
  unfolding set_checked
  set_checked-keeps f v g s h = elim (Bool-cases (differ v (s.form.checked f))) [
    | inl change ↦
        rw change
          (changed-Agrees f v g s (ap (λ (b : Bool). if same_flag f g then v else b) h.agrees))
    | inr stay ↦ rw stay h
  ]

  set_checked-Agrees :
      (f : Flag) (s : SettingsPanel)
      → Agrees env.cv f (set_checked env f (is_on env.cv f s.preferences) s).1
  unfolding set_checked
  set_checked-Agrees f s =
      let v = is_on env.cv f s.preferences in
      elim (Bool-cases (differ v (s.form.checked f))) [
        | inl change ↦
            rw change (changed-Agrees f v f s (let same = =text-refl (key f) in rw same refl))
        | inr stay ↦ rw stay (record { agrees = differ-false v (s.form.checked f) stay })
      ]

  pub fill_boxes-keeps :
      (fs : List Flag) (g : Flag) (s : SettingsPanel)
      → Agrees env.cv g s
      → Agrees env.cv g (fill_boxes env fs s).1
  unfolding fill_boxes
  fill_boxes-keeps [] g s h = h
  fill_boxes-keeps (f ∷ fs) g s h =
      fill_boxes-keeps fs g (set_checked env f (is_on env.cv f s.preferences) s).1
        (set_checked-keeps f (is_on env.cv f s.preferences) g s h)

  pub fill_boxes-Agrees :
      (fs : List Flag) (s : SettingsPanel) → All (λ f. Agrees env.cv f (fill_boxes env fs s).1) fs
  unfolding fill_boxes
  fill_boxes-Agrees [] s = tt
  fill_boxes-Agrees (f ∷ fs) s =
      let t = (set_checked env f (is_on env.cv f s.preferences) s).1 in
      (fill_boxes-keeps fs f t (set_checked-Agrees f s), fill_boxes-Agrees fs t)

  -- An operation of Setting that leaves the box's setting.
  on_settings-Agrees :
      (op : P (Unit {0})) (g : Flag) (s : SettingsPanel)
      → is_on env.cv g (op s.preferences).1 ≡ is_on env.cv g s.preferences
      → Agrees env.cv g s
      → Agrees env.cv g (on_settings op s).1
  unfolding on_settings
  on_settings-Agrees op g s e h = record { agrees = h.agrees ∙ sym e }

  set_encryption-keeps :
      (ix : ℤ) (g : Flag) (p : Preferences)
      → is_on env.cv g (set_encryption env.cv env.rand ix p).1 ≡ is_on env.cv g p
  unfolding set_encryption signal
  set_encryption-keeps ix g p =
      let q = (set_value (codes "dd_Encryption") (int_value ix) p).1 in
      let stored : Variant = value (codes "dd_Encryption") (int_value (pos 0)) p in
      if-both (λ (op : P (Unit {0})). is_on env.cv g (op p).1 ≡ is_on env.cv g p)
        (ltb_ℤ (negsuc 0) ix
          && (ltb_ℤ ix (pos encryption_count) && not (eqb_ℤ ix (env.cv.to_int stored))))
        (do
          set_value (codes "dd_Encryption") (int_value ix)
          load_protocol env.cv env.rand
          signal encryption_changed)
        skip
        (is_on-settings env.cv env.qt.number laws g q
            (signal encryption_changed (load_protocol env.cv env.rand q).1).1
            (load_protocol_lem env.cv env.rand q).0
          ∙ is_on-other env.cv env.qt.number laws g (codes "dd_Encryption") (int_value ix) p
              (encryption-NoFlag g))
        refl

  pub set_encryption_row-Agrees :
      (i : ℤ) (g : Flag) (s : SettingsPanel)
      → Agrees env.cv g s
      → Agrees env.cv g (set_encryption_row env i s).1
  unfolding set_encryption_row encryption_chosen on_form
  set_encryption_row-Agrees i g s h =
      if-both (λ (op : S (Unit {0})). Agrees env.cv g (op s).1)
        (eqb_ℤ (env.select 1 i) s.form.encryption_row) skip _ h
        (on_settings-Agrees (set_encryption env.cv env.rand (env.select 1 i)) g _
          (set_encryption-keeps (env.select 1 i) g s.preferences) (record { agrees = h.agrees }))

  -- Validation of a line: the text is stored under a key of no box, or nothing is.
  stores-Agrees :
      (k : Text) (b : Bool) (v : Variant) (g : Flag) (s : SettingsPanel)
      → NoFlag k
      → Agrees env.cv g s
      → Agrees env.cv g ((if b then skip else on_settings (set_value k v)) s).1
  stores-Agrees k b v g s other h =
      if-both (λ (op : S (Unit {0})). Agrees env.cv g (op s).1) b skip (on_settings (set_value k v))
        h
        (on_settings-Agrees (set_value k v) g s
          (is_on-other env.cv env.qt.number laws g k v s.preferences (other g)) h)

  set_local_port-keeps :
      (t : Text) (g : Flag) (p : Preferences)
      → is_on env.cv g (set_local_port env.qt env.cv t p).1 ≡ is_on env.cv g p
  unfolding set_local_port
  set_local_port-keeps t g p =
      if-both (λ (op : P (Unit {0})). is_on env.cv g (op p).1 ≡ is_on env.cv g p)
        (is_valid_port env.qt t) (set_value (codes "e_LocalPort") (text_value t)) skip
        (is_on-other env.cv env.qt.number laws g (codes "e_LocalPort") (text_value t) p
          (local_port-NoFlag g))
        refl

  port-Agrees :
      (b : Bool) (t : Text) (g : Flag) (s : SettingsPanel)
      → Agrees env.cv g s
      → Agrees env.cv g ((if b then on_settings (set_local_port env.qt env.cv t) else skip) s).1
  port-Agrees b t g s h =
      if-both (λ (op : S (Unit {0})). Agrees env.cv g (op s).1) b
        (on_settings (set_local_port env.qt env.cv t)) skip
        (on_settings-Agrees (set_local_port env.qt env.cv t) g s
          (set_local_port-keeps t g s.preferences) h)
        h

  pub settings_step-Agrees :
      (e : SettingsEvent) (g : Flag) (s : SettingsPanel)
      → Agrees env.cv g s
      → Agrees env.cv g (settings_step env e s).1
  unfolding settings_step click validate_dns1 validate_dns2 validate_local_port on_form
  settings_step-Agrees (clicks f) g s h = set_checked-keeps f (not (s.form.checked f)) g s h
  settings_step-Agrees (chooses i) g s h = set_encryption_row-Agrees i g s h
  settings_step-Agrees (writes_dns1 t) g s h =
      stores-Agrees (codes "e_PrimaryDns") (is_ip_error env t) (text_value t) g _ dns1-NoFlag
        (record { agrees = h.agrees })
  settings_step-Agrees (writes_dns2 t) g s h =
      stores-Agrees (codes "e_SecondaryDns") (is_ip_error env t) (text_value t) g _ dns2-NoFlag
        (record { agrees = h.agrees })
  settings_step-Agrees (writes_local_port t) g s h =
      port-Agrees (is_valid_port env.qt t) t g _ (record { agrees = h.agrees })
