-- ===== src/Desktop/Types.antt =====
-- The state of the desktop and its parts.
use celo_desktop_app.Base.{ℕ, Bool, Option, List, ◌∷◌}
use celo_desktop_app.Base.Int.{ℤ}
use celo_desktop_app.Base.State.{State, modify}
use celo_desktop_app.Base.Text.{Text}
use celo_desktop_app.Auth.Types.{Auth}
use celo_desktop_app.Auth.Servers.{Dom}
use celo_desktop_app.Gui.Manager.{GuiEnv, Gui, G}

pub data Icon : Type 0 where
  no_icon cross_icon cycle_icon plain_icon : Icon

-- What is brought to the front: a screen, or the dialog of an error.
pub data Window : Type 0 where
  primary login_screen map_screen settings_screen logs_screen : Window
  error_dialog : Text → Window

pub record LoginForm : Type 0 where
  pub name : Text
  pub password : Text
  pub remember : Bool
  -- enableButtons.
  pub buttons : Bool
  pub connect_after_login : Bool
  pub cancel_login : Bool
  -- _timer_wifi is not null.
  pub wifi_timer : Bool
  pub wifi_processing : Bool

pub record Tray : Type 0 where
  pub connect : Bool
  pub connect_to : Bool
  pub disconnect : Bool
  pub jump : Bool
  pub switch_country : Bool
  pub logout : Bool
  -- mConnectToMenu: null, or its items, each a name and a server.
  pub menu : Option (List (Text × ℤ))
  pub menu_enabled : Bool
  pub icon : Icon

pub record Desk : Type 0 where
  pub gui : Gui
  pub auth : Auth
  pub form : LoginForm
  pub tray : Tray
  -- Latest first.
  pub windows : List Window
  -- A null pointer was used.
  pub crashed : Bool

-- The parameters: those of the parts, std::sort, Setting::testing(), the answers of rand()
-- and hasInsecureWifi().
pub record DeskEnv : Type 0 where
  pub gui : GuiEnv
  pub dom : Dom
  pub sort : List (ℤ × ℤ) → List (ℤ × ℤ)
  pub testing : Bool
  pub rand : ℕ → ℕ
  pub insecure_wifi : Bool

abbrev pub D : Type 0 → Type 0
D B = State Desk B

-- VPNServiceManager reads the account of AuthManager.
abbrev pub gui_env : DeskEnv → Desk → GuiEnv
gui_env env d = record env.gui { account = d.auth.account }

unfoldable pub on_gui : {B : Type 0} → DeskEnv → (GuiEnv → G B) → D B
on_gui env op d = let r = op (gui_env env d) d.gui in (r.0, record d { gui = r.1 })

unfoldable pub on_form : (LoginForm → LoginForm) → D (Unit {0})
on_form f = modify (λ d. record d { form = f d.form })

unfoldable pub on_tray : (Tray → Tray) → D (Unit {0})
on_tray f = modify (λ d. record d { tray = f d.tray })

unfoldable pub show : Window → D (Unit {0})
show w = modify (λ d. record d { windows = w ∷ d.windows })
