-- ===== src/Gui/Manager.antt =====
-- VPNServiceManager: its state, its connection to the service and the commands that it sends.
use celo_desktop_app.Base.{
  ℕ, suc, Bool, true, false, Option, none, some, List, [], ◌∷◌, ◌++◌, if◌then◌else◌, is_empty,
}
use celo_desktop_app.Base.Int.{ℤ, pos, lookup}
use celo_desktop_app.Base.State.{State, get, modify, skip, pure, ◌>>=◌, ◌>>◌}
use celo_desktop_app.Base.Text.{Text, codes}
use celo_desktop_app.Common
use celo_desktop_app.Common.{Qt, int_of, command_code, state_code}
use celo_desktop_app.Service.Client.{Json, Value, number, string, boolean}
use celo_desktop_app.Auth.Types.{Account}
use celo_desktop_app.Auth.Servers.{get_server}
use celo_desktop_app.Setting.Store.{text_value, Conversions, Preferences, P, value}
use celo_desktop_app.Setting.Protocols.{encryption, port, tcp_or_udp}
use celo_desktop_app.Setting.Flags.{fix_dns, is_on}
use celo_desktop_app.Setting.Values.{local_port}
use celo_desktop_app.Setting.Servers.{server_id}

-- Qt, the settings' conversions, JSON, the server list, and what the socket answers: isValid() and
-- waitForConnected().
pub record GuiEnv : Type 0 where
  pub qt : Qt
  pub cv : Conversions
  pub json : Json
  pub account : Account
  pub default_dns1 : Text
  pub default_dns2 : Text
  pub socket_valid : ℕ → Bool
  pub connects : ℕ → Bool

pub data GuiSignal : Type 0 where
  state_changed : ℤ → GuiSignal
  state_word : ℤ → GuiSignal
  error : Text → GuiSignal
  timed_out kill_switch : GuiSignal
  got_new_ip : Text → GuiSignal
  -- The message box of ensureConnected.
  connection_error : GuiSignal

pub record Gui : Type 0 where
  pub connected : Bool
  pub in_port_loop : Bool
  pub port_dialog_shown : Bool
  pub user_requested_disconnect : Bool
  pub changing_ports : Bool
  pub state : ℤ
  pub preferences : Preferences
  -- What was written to the socket, and the signals, latest first.
  pub sent : Text
  pub signals : List GuiSignal
  -- Not in the source: the questions asked, and the exception of port() on an empty table.
  pub asked : ℕ
  pub thrown : Bool

abbrev pub G : Type 0 → Type 0
G A = State Gui A

unfoldable pub ask_socket : (ℕ → Bool) → G Bool
ask_socket q g = (q g.asked, record g { asked = suc g.asked })

unfoldable pub raise : GuiSignal → G (Unit {0})
raise s = modify (λ g. record g { signals = s ∷ g.signals })

-- An operation of Setting.
unfoldable pub on_settings : {A : Type 0} → P A → G A
on_settings op g = let r = op g.preferences in (r.0, record g { preferences = r.1 })

unfoldable pub set_connected : Bool → G (Unit {0})
set_connected b = modify (λ g. record g { connected = b })

module _ (env : GuiEnv) where
  -- connectToCore.
  unfoldable pub connect_to_core : G Bool
  connect_to_core = do
    valid ← ask_socket env.socket_valid
    found ← if valid then pure false else ask_socket env.connects
    if found then set_connected true else skip
    ask_socket env.socket_valid

  unfoldable pub try_connect : G Bool
  try_connect = do ok ← connect_to_core; set_connected ok; pure ok

  unfoldable pub ensure_connected : G Bool
  ensure_connected = do
    g ← get
    if g.connected then pure true else (do
      first ← try_connect
      second ← if first then pure true else try_connect
      if second then skip else raise connection_error
      pure second)

  -- sendCommand.
  unfoldable pub send_command : List (Text × Value) → G (Unit {0})
  send_command obj =
      modify (λ g. record g {
        sent = g.sent ++ (env.json.to_latin1 (env.json.print obj) ++ (b'\n' ∷ []));
      })

  unfoldable pub send_or : G (Unit {0}) → List (Text × Value) → G (Unit {0})
  send_or otherwise obj = do ok ← ensure_connected; if ok then send_command obj else otherwise

  abbrev pub code_of : Common.Command → Text × Value
  code_of c = (codes "cmd", number (pos (command_code c)))

  unfoldable pub send_status_request : G (Unit {0})
  send_status_request =
      send_or
        (raise (error (codes "VPNServiceConnection is not open for method sendStatusRequest")))
        (code_of Common.get_status ∷ [])

  unfoldable pub send_credentials : G (Unit {0})
  send_credentials =
      send_or (raise (error (codes "VPNServiceConnection is not open for method sendCredentials")))
        (code_of Common.set_credentials
          ∷ (codes "vpnusername", string env.account.vpn_login)
          ∷ (codes "vpnpassword", string env.account.vpn_password)
          ∷ [])

  abbrev pub text_or : Text → Text → Text
  text_or s otherwise = if is_empty s then otherwise else s

  abbrev pub url_at : Option Text → Text
  url_at none = []
  url_at (some u) = u

  -- The object of a start command, for the text of the port.
  unfoldable pub start_object : Text → Text → Preferences → List (Text × Value)
  start_object port_text kind p =
      let id = server_id env.qt env.cv env.account p in
      let server = get_server env.account id in
      code_of Common.start
      ∷ (codes "encryption", number (encryption env.cv p))
      ∷ (codes "serverid", number id)
      ∷ (codes "server", string server.address)
      ∷ (codes "port", string port_text)
      ∷ (
        codes "template",
        string (url_at (lookup (int_of (env.qt.to_int port_text)) server.config_urls)),
      )
      ∷ (codes "localport", string (local_port env.qt env.cv p))
      ∷ (codes "tcporudp", string kind)
      ∷ (codes "fixDNS", boolean (is_on env.cv fix_dns p))
      ∷ (
        codes "dns1",
        string (
            text_or (env.cv.to_text (value (codes "e_PrimaryDns") (text_value (codes "1.1.1.1")) p))
              env.default_dns1),
      )
      ∷ (
        codes "dns2",
        string (
            text_or
              (env.cv.to_text
                (value (codes "e_SecondaryDns") (text_value (codes "84.200.69.80")) p))
              env.default_dns2),
      )
      ∷ []

  unfoldable pub send_start : Option ℤ → G (Unit {0})
  send_start none = modify (λ g. record g { thrown = true })
  send_start (some v) = do
    kind ← on_settings (tcp_or_udp env.cv env.qt)
    g ← get
    send_command (start_object (env.qt.number v) kind g.preferences)

  unfoldable pub send_connect_to_vpn_request : G (Unit {0})
  send_connect_to_vpn_request = do
    modify (λ g. record g { user_requested_disconnect = false })
    ok ← ensure_connected
    g ← get
    if ok then send_start (port env.cv g.preferences) else skip

  unfoldable pub send_disconnect_from_vpn_request : G (Unit {0})
  send_disconnect_from_vpn_request = do
    modify (λ g. record g { user_requested_disconnect = true })
    send_or skip (code_of Common.stop ∷ [])

  unfoldable pub kill_running_openvpn : G (Unit {0})
  kill_running_openvpn = send_or skip (code_of Common.kill_running_openvpn ∷ [])

  unfoldable pub send_netdown_command : G (Unit {0})
  send_netdown_command = send_or skip (code_of Common.netdown ∷ [])
