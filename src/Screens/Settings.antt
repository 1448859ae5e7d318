-- ===== src/Screens/Settings.antt =====
-- SettingsScreen (celovpn/settingsscreen.cpp) over Setting: check boxes, the DNS servers, the local port
-- and the encryption. The boxes are enabled in settingsscreen.ui.
pub mod Stored
pub mod Kept
pub mod Boxes
pub mod Dns
use celo_desktop_app.Base.{
  ℕ, Bool, true, false, not, ◌||◌, Option, none, some, List, [], ◌∷◌, ◌++◌, if◌then◌else◌, is_empty,
  ◌==◌,
}
use celo_desktop_app.Base.Int.{ℤ, eqb_ℤ}
use celo_desktop_app.Base.State.{State, get, modify, skip, ◌>>=◌, ◌>>◌}
use celo_desktop_app.Base.Text.{Text, codes, ◌=text◌}
use celo_desktop_app.Common.{Qt, is_valid_ip, is_valid_port}
use celo_desktop_app.Setting.Store.{Conversions, Preferences, P, text_value, value, set_value}
use celo_desktop_app.Setting.Protocols.{encryption, set_encryption}
use celo_desktop_app.Setting.Values.{local_port, set_local_port}
use celo_desktop_app.Setting.Flags.{
  Flag, autoconnect, block_on_disconnect, fix_dns, reconnect, startup, detect_insecure_wifi,
  logging, key, is_on, set_flag,
}
use celo_desktop_app.Setting.Startup.{FileAction, set_startup}

-- A line of text and whether it has the style of an error.
pub record Line : Type 0 where
  pub text : Text
  pub error : Bool

pub record SettingsForm : Type 0 where
  pub checked : Flag → Bool
  pub local_port : Line
  pub dns1 : Line
  pub dns2 : Line
  pub encryption_row : ℤ

-- The screen and what it writes: the settings, the autostart file, and whether Log writes.
pub record SettingsPanel : Type 0 where
  pub form : SettingsForm
  pub preferences : Preferences
  pub files : List FileAction
  pub log_enabled : Bool

-- The parameters: the DNS servers that Setting holds as the default, the autostart file and the answer
-- of mkpath, `select n i` as the index after setCurrentIndex(i) on n items, and what rand() returns.
pub record SettingsEnv : Type 0 where
  pub qt : Qt
  pub cv : Conversions
  pub default_dns1 : Text
  pub default_dns2 : Text
  pub made : Bool
  pub file : Option Text
  pub select : ℕ → ℤ → ℤ
  pub rand : ℕ

abbrev pub S : Type 0 → Type 0
S B = State SettingsPanel B

unfoldable pub on_form : (SettingsForm → SettingsForm) → S (Unit {0})
on_form f = modify (λ s. record s { form = f s.form })

unfoldable pub on_settings : P (Unit {0}) → S (Unit {0})
on_settings op = modify (λ s. record s { preferences = (op s.preferences).1 })

-- A box is known by its key.
abbrev pub same_flag : Flag → Flag → Bool
same_flag a b = key a =text key b

unfoldable pub check : Flag → Bool → SettingsForm → SettingsForm
check f v m = record m { checked = λ g. if same_flag f g then v else m.checked g }

unfoldable pub set_texts : Text → Text → SettingsForm → SettingsForm
set_texts t1 t2 m = record m {
  dns1 = record m.dns1 { text = t1 };
  dns2 = record m.dns2 { text = t2 };
}

-- Setting::dns1 and Setting::dns2.
unfoldable pub stored_dns1 : Conversions → Preferences → Text
stored_dns1 cv p = cv.to_text (value (codes "e_PrimaryDns") (text_value (codes "1.1.1.1")) p)

unfoldable pub stored_dns2 : Conversions → Preferences → Text
stored_dns2 cv p = cv.to_text (value (codes "e_SecondaryDns") (text_value (codes "84.200.69.80")) p)

abbrev pub differ : Bool → Bool → Bool
differ true b = not b
differ false b = b

module _ (env : SettingsEnv) where
  -- setStartup behind its setting, on Linux.
  unfoldable pub write_startup : Bool → S (Unit {0})
  write_startup v = modify (λ s. record s { files = s.files ++ set_startup env.made v env.file })

  -- What a box does behind its setting.
  unfoldable pub box_effect : Flag → Bool → S (Unit {0})
  box_effect startup v = write_startup v
  box_effect logging v = modify (λ s. record s { log_enabled = v })
  box_effect fix_dns v =
      on_form (set_texts (if v then env.default_dns1 else []) (if v then env.default_dns2 else []))
  box_effect _ v = skip

  -- The slots of the boxes.
  unfoldable pub box_toggled : Flag → Bool → S (Unit {0})
  box_toggled f v = do on_settings (set_flag f v); box_effect f v

  -- QCheckBox::setChecked: the slot is called when the box changes.
  unfoldable pub set_checked : Flag → Bool → S (Unit {0})
  set_checked f v = do
    s ← get
    if differ v (s.form.checked f) then (do on_form (check f v); box_toggled f v) else skip

  -- The user clicks a box.
  unfoldable pub click : Flag → S (Unit {0})
  click f = do s ← get; set_checked f (not (s.form.checked f))

  -- on_encryptionComboBox_currentIndexChanged.
  unfoldable pub encryption_chosen : ℤ → S (Unit {0})
  encryption_chosen ix = on_settings (set_encryption env.cv env.rand ix)

  -- Vlidate_e_ip: whether the text has an error.
  unfoldable pub is_ip_error : Text → Bool
  is_ip_error t = if is_empty t then false else not (is_valid_ip env.qt t)

  unfoldable pub validate_dns1 : S (Unit {0})
  validate_dns1 = do
    s ← get
    let t = s.form.dns1.text
    on_form (λ m. record m { dns1 = record m.dns1 { error = is_ip_error t } })
    if is_ip_error t then skip else on_settings (set_value (codes "e_PrimaryDns") (text_value t))

  unfoldable pub validate_dns2 : S (Unit {0})
  validate_dns2 = do
    s ← get
    let t = s.form.dns2.text
    on_form (λ m. record m { dns2 = record m.dns2 { error = is_ip_error t } })
    if is_ip_error t then skip else on_settings (set_value (codes "e_SecondaryDns") (text_value t))

  unfoldable pub validate_local_port : S (Unit {0})
  validate_local_port = do
    s ← get
    let t = s.form.local_port.text
    on_form (λ m. record m {
      local_port = record m.local_port { error = not (is_valid_port env.qt t) };
    })
    if is_valid_port env.qt t then on_settings (set_local_port env.qt env.cv t) else skip

  -- Boxes take what the settings say.
  unfoldable pub fill_boxes : List Flag → S (Unit {0})
  fill_boxes [] = skip
  fill_boxes (f ∷ fs) = do s ← get; set_checked f (is_on env.cv f s.preferences); fill_boxes fs

  unfoldable pub fill_texts : S (Unit {0})
  fill_texts = do
    s ← get
    let p = s.preferences
    on_form (λ m. record m {
      local_port = record m.local_port { text = local_port env.qt env.cv p };
      dns1 = record m.dns1 { text = stored_dns1 env.cv p };
      dns2 = record m.dns2 { text = stored_dns2 env.cv p };
    })

  abbrev pub text_or_default : Line → Text → Line
  text_or_default l t = if is_empty l.text then record l { text = t } else l

  unfoldable pub fill_defaults : S (Unit {0})
  fill_defaults = do
    s ← get
    if s.form.checked fix_dns
        then on_form (λ m. record m {
          dns1 = text_or_default m.dns1 env.default_dns1;
          dns2 = text_or_default m.dns2 env.default_dns2;
        })
        else skip

  -- encryptionComboBox->setCurrentIndex, on its only item.
  unfoldable pub set_encryption_row : ℤ → S (Unit {0})
  set_encryption_row i = do
    s ← get
    let row = env.select 1 i
    if eqb_ℤ row s.form.encryption_row
        then skip
        else (do on_form (λ m. record m { encryption_row = row }); encryption_chosen row)

  -- The constructor, over the widgets' first state.
  unfoldable pub create_settings : S (Unit {0})
  create_settings = do
    fill_boxes (
        autoconnect ∷ block_on_disconnect ∷ fix_dns ∷ reconnect ∷ startup ∷ detect_insecure_wifi
        ∷ [])
    fill_texts
    fill_boxes (logging ∷ [])
    s ← get
    set_encryption_row (encryption env.cv s.preferences)
    fill_defaults

-- What the user does on the screen.
pub data SettingsEvent : Type 0 where
  clicks : Flag → SettingsEvent
  chooses : ℤ → SettingsEvent
  writes_dns1 writes_dns2 writes_local_port : Text → SettingsEvent

module _ (env : SettingsEnv) where
  unfoldable pub settings_step : SettingsEvent → S (Unit {0})
  settings_step (clicks f) = click env f
  settings_step (chooses i) = set_encryption_row env i
  settings_step (writes_dns1 t) = do
    on_form (λ m. record m { dns1 = record m.dns1 { text = t } })
    validate_dns1 env
  settings_step (writes_dns2 t) = do
    on_form (λ m. record m { dns2 = record m.dns2 { text = t } })
    validate_dns2 env
  settings_step (writes_local_port t) = do
    on_form (λ m. record m { local_port = record m.local_port { text = t } })
    validate_local_port env

  unfoldable pub settings_run : List SettingsEvent → S (Unit {0})
  settings_run [] = skip
  settings_run (e ∷ es) = do settings_step e; settings_run es
