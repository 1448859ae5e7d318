-- ===== src/Screens/Dialog.antt =====
-- ConnectionDialog (celovpn/connectiondialog.cpp): what it shows, by the slots that are connected to the
-- signals of VPNServiceManager, AuthManager and Setting.
pub mod Phases
use celo_desktop_app.Base.{
  ℕ, Bool, true, false, ◌||◌, Option, none, some, List, [], ◌∷◌, if◌then◌else◌, is_empty,
}
use celo_desktop_app.Base.Int.{ℤ, pos, eqb_ℤ, ltb_ℤ, leb_ℤ, lookup}
use celo_desktop_app.Base.State.{State, get, modify, maybe, skip, ◌>>=◌, ◌>>◌}
use celo_desktop_app.Base.Text.{Text, codes, ◌=text◌}
use celo_desktop_app.Common
use celo_desktop_app.Common.{Qt, word_code, state_code}
use celo_desktop_app.Auth.Types.{Account}
use celo_desktop_app.Auth.Servers.{get_server}
use celo_desktop_app.Setting.Store.{Conversions, Preferences, P}
use celo_desktop_app.Setting.Protocols.{
  encryption_count, encryption, current_protocol, protocol_name, load_protocol,
}
use celo_desktop_app.Setting.Servers.{server_id}
use celo_desktop_app.Screens.Flag.{icon_from_srv_name}

-- gs_ConnGreen, gs_ConnRed, gs_Conn_Connecting, and the template around the name of an image.
pub data Status : Type 0 where
  green red yellow : Status
  step : Text → Status

-- A label is its text and whether it is shown; `rows` is whether the rows and the flag are enabled.
pub record Dialog : Type 0 where
  pub connect_shown : Bool
  pub cancel_shown : Bool
  pub rows : Bool
  pub status : Status
  pub country : Text
  pub flag_shown : Bool
  pub flag_box_shown : Bool
  pub flag_png : Text
  pub percent : Text
  pub percent_shown : Bool
  pub load_shown : Bool
  pub new_ip : Text
  pub new_ip_shown : Bool
  pub old_ip : Text
  pub old_ip_shown : Bool
  pub login : Text
  pub login_shown : Bool
  pub email : Text
  pub email_shown : Bool
  pub encryption_text : Text
  pub protocol_text : Text

unfoldable pub enable_buttons : Bool → Dialog → Dialog
enable_buttons true d = record d { connect_shown = true; cancel_shown = false; rows = true }
enable_buttons false d = record d { connect_shown = false; cancel_shown = true; rows = false }

-- mStateWordImages.
abbrev pub state_word_images : List (ℤ × Text)
state_word_images =
    (pos (word_code Common.word_auth), codes "auth")
    ∷ (pos (word_code Common.word_get_config), codes "config")
    ∷ (pos (word_code Common.word_assign_ip), codes "ip")
    ∷ (pos (word_code Common.word_tcp_connecting), codes "connect")
    ∷ (pos (word_code Common.word_resolve), codes "resolve")
    ∷ (pos (word_code Common.word_wait), codes "wait")
    ∷ (pos (word_code Common.word_reconnecting), codes "reconn")
    ∷ []

abbrev pub image_of : ℤ → Option Text → Status
image_of word (some image) = step image
image_of word none =
    if eqb_ℤ word (pos (word_code Common.word_wait)) then step (codes "wait") else yellow

unfoldable pub state_word_changed : ℤ → Dialog → Dialog
state_word_changed word d = record (enable_buttons false d) {
  status = image_of word (lookup word state_word_images);
}

unfoldable pub dialog_connected : Dialog → Dialog
dialog_connected d = record (enable_buttons true (record d { status = green })) {
  connect_shown = false;
  cancel_shown = true;
}

unfoldable pub dialog_state_changed : ℤ → Dialog → Dialog
dialog_state_changed st d =
    if eqb_ℤ st (pos (state_code Common.connected))
    then dialog_connected d
    else if eqb_ℤ st (pos (state_code Common.connecting))
    then enable_buttons false (record d { status = yellow })
    else record (enable_buttons true (record d { status = red })) {
      new_ip = [];
      new_ip_shown = false;
    }

unfoldable pub set_no_server : Dialog → Dialog
set_no_server d = record d {
  percent_shown = false;
  percent = codes "0%";
  load_shown = false;
  flag_shown = false;
  new_ip_shown = false;
  country = codes "No location specified.";
}

unfoldable pub dialog_set_new_ip : Text → Dialog → Dialog
dialog_set_new_ip s d =
    if s =text codes "127.0.0.1" then d else record d { new_ip = s; new_ip_shown = true }

unfoldable pub set_old_ip : Text → Dialog → Dialog
set_old_ip s d = record d { old_ip = s; old_ip_shown = true }

unfoldable pub set_account_name : Text → Dialog → Dialog
set_account_name s d = record d {
  login = if is_empty d.login || (d.login =text codes "--") then s else d.login;
  login_shown = true;
}

unfoldable pub set_email : Text → Dialog → Dialog
set_email s d = record d { email = s; email_shown = true }

-- Setting::encryptionName; `none` is the failed assertion of at() on a negative index.
unfoldable pub encryption_name : ℤ → Option Text
encryption_name enc = if ltb_ℤ enc (pos 0) then none else some (codes "RSA 2048-bit")

abbrev pub text_of_name : Option Text → Text
text_of_name none = []
text_of_name (some s) = s

-- The dialog and the settings.
pub record Panel : Type 0 where
  pub dialog : Dialog
  pub preferences : Preferences

abbrev pub L : Type 0 → Type 0
L B = State Panel B

unfoldable pub on_dialog : (Dialog → Dialog) → L (Unit {0})
on_dialog f = modify (λ p. record p { dialog = f p.dialog })

unfoldable pub of_settings : {B : Type 0} → P B → L B
of_settings op p = let r = op p.preferences in (r.0, record p { preferences = r.1 })

module _ (qt : Qt) (cv : Conversions) (a : Account) where
  unfoldable pub set_flag : ℤ → Dialog → Dialog
  set_flag srv d = record d { flag_png = icon_from_srv_name qt (get_server a srv).country }

  unfoldable pub dialog_set_server : ℤ → Dialog → Dialog
  dialog_set_server srv d =
      if ltb_ℤ srv (pos 0)
      then set_no_server d
      else set_flag srv
          (record d { country = (get_server a srv).name; flag_shown = true; flag_box_shown = true })

  unfoldable pub update_encryption : L (Unit {0})
  update_encryption = do
    p ← get
    let name = text_of_name (encryption_name (encryption cv p.preferences))
    on_dialog (λ d. record d { encryption_text = name })

  -- updateProtocol and setProtocol.
  unfoldable pub dialog_update_protocol : L (Unit {0})
  dialog_update_protocol = do
    p ← get
    let ix = current_protocol cv p.preferences
    name ← of_settings (protocol_name cv ix)
    on_dialog
        (λ d. record d { protocol_text = if ltb_ℤ ix (pos 0) then codes "Not selected" else name })

  unfoldable pub update_server : L (Unit {0})
  update_server = do p ← get; on_dialog (dialog_set_server (server_id qt cv a p.preferences))

  -- The constructor, over the widgets' first state; `rand` is what rand() returns in loadProtocol.
  unfoldable pub create_dialog : ℕ → L (Unit {0})
  create_dialog rand = do
    on_dialog (λ d. record d {
      email_shown = false;
      country = [];
      percent_shown = false;
      load_shown = false;
      old_ip = [];
      new_ip = [];
    })
    on_dialog set_no_server
    on_dialog (dialog_state_changed (pos (state_code Common.disconnected)))
    on_dialog (λ d. record d { cancel_shown = false; old_ip = [] })
    of_settings (load_protocol cv rand)
    on_dialog (set_old_ip a.old_ip)
    update_encryption
    dialog_update_protocol
    update_server

-- The signals that the constructor connects.
pub data DialogEvent : Type 0 where
  state : ℤ → DialogEvent
  word : ℤ → DialogEvent
  old_ip_loaded new_ip_loaded email_loaded : Text → DialogEvent
  login_completed encryption_changed protocol_changed server_changed : DialogEvent

module _ (qt : Qt) (cv : Conversions) where
  -- The account may change between the signals.
  unfoldable pub dialog_step : Account → DialogEvent → L (Unit {0})
  dialog_step a (state st) = on_dialog (dialog_state_changed st)
  dialog_step a (word w) = on_dialog (state_word_changed w)
  dialog_step a (old_ip_loaded s) = on_dialog (set_old_ip s)
  dialog_step a (new_ip_loaded s) = on_dialog (dialog_set_new_ip s)
  dialog_step a (email_loaded s) = on_dialog (set_email s)
  dialog_step a login_completed = on_dialog (set_account_name a.vpn_login)
  dialog_step a encryption_changed = update_encryption qt cv a
  dialog_step a protocol_changed = dialog_update_protocol qt cv a
  dialog_step a server_changed = update_server qt cv a

  unfoldable pub dialog_run : List (Account × DialogEvent) → L (Unit {0})
  dialog_run [] = skip
  dialog_run ((a, e) ∷ es) = do dialog_step a e; dialog_run es
