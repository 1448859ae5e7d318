-- ===== src/Tests/GuiExamples.antt =====
-- The theorems about the GUI's end of the connection and its screens, at concrete inputs.
use celo_desktop_app.Base.{
  some, ◌≤◌, ◌+◌, ◌%◌, ◌≡◌, refl, List, true, false, [], ◌∷◌, arith, replicate,
}
use celo_desktop_app.Base.Int.{pos}
use celo_desktop_app.Base.State.{◌>>◌}
use celo_desktop_app.Base.Text.{codes}
use celo_desktop_app.Setting.Protocols.{current_protocol}
use celo_desktop_app.Setting.Store.{find}
use celo_desktop_app.Gui.Manager.{GuiEnv, Gui, kill_switch, send_disconnect_from_vpn_request}
use celo_desktop_app.Gui.Notifications.{start_port_loop, read_tokens}
use celo_desktop_app.Gui.KillSwitch.{kills, read_all_bytes, disconnect_is_quiet}
use celo_desktop_app.Gui.Windows.{
  Screen, Windows, WndEvent, wnd_step, wnd_run, to_primary, to_map, wnd_state_changed,
  show_port_dialog, trans, to_front, hide_this, close_all, scr_visible, to_screen, opens, opens_map,
  changes, asks_port, fronts,
}
use celo_desktop_app.Gui.Windows.Single.{visible, IsTidy, wnd_run_lem}
use celo_desktop_app.Gui.PortLoop.{Loops, start_port_loop_lem}
use celo_desktop_app.Tests.{plain_json}
use celo_desktop_app.Tests.SettingExamples.{
  unary, conversions, conversions-Converts, chosen, account,
}

abbrev pub gui_env : GuiEnv
gui_env = record {
  qt = unary;
  cv = conversions;
  json = plain_json;
  account = account;
  default_dns1 = codes "1.1.1.1";
  default_dns2 = codes "84.200.69.80";
  socket_valid = λ n. false;
  connects = λ n. true;
}

abbrev pub gui : Gui
gui = record {
  connected = true;
  in_port_loop = false;
  port_dialog_shown = true;
  user_requested_disconnect = false;
  changing_ports = false;
  state = pos 2;
  preferences = chosen;
  sent = [];
  signals = kill_switch ∷ [];
  asked = 0;
  thrown = false;
}

disconnect_is_quiet_example :
    kills
      (read_all_bytes gui_env
        (codes "1234567\n12" ∷ codes "123456789\n" ∷ [])
        (send_disconnect_from_vpn_request gui_env gui).1).1.signals
    ≡ 1
disconnect_is_quiet_example =
    disconnect_is_quiet gui_env gui (codes "1234567\n12" ∷ codes "123456789\n" ∷ []) refl

start_port_loop_lem_example :
    Loops conversions
      ((1 + 1 + 4) % 3)
      ((start_port_loop gui_env true >> read_tokens gui_env (replicate 4 (codes "123456789")))
        gui).1
unfolding current_protocol find
start_port_loop_lem_example =
    start_port_loop_lem gui_env conversions-Converts 4 1 (codes "123456789") gui
      (record { filled = refl; code = refl }) (record { names = refl; numbers = refl; idle = refl })
      refl (omega arith)

-- The login window alone, as main shows it.
abbrev pub first_windows : Windows
first_windows = record {
  connection = false;
  login_window = true;
  logs = false;
  map_screen = false;
  settings = false;
  port_dialog = false;
}

abbrev requests : List WndEvent
requests = opens Screen.settings ∷ asks_port true ∷ changes true (pos 2) ∷ opens_map true ∷ []

requests-visible :
    wnd_run requests first_windows
    ≡ record first_windows { login_window = false; map_screen = true }
unfolding wnd_run wnd_step to_screen to_primary to_map wnd_state_changed show_port_dialog
    scr_visible trans to_front hide_this close_all
requests-visible = refl

-- loginError shows the login window over the screen that is visible.
fronts-visible : visible (wnd_run (opens Screen.logs ∷ fronts ∷ []) first_windows) ≡ 2
unfolding wnd_run wnd_step to_screen to_primary to_map wnd_state_changed show_port_dialog
    scr_visible trans to_front hide_this close_all
fronts-visible = refl

wnd_run_lem_example :
    (visible (wnd_run requests first_windows) ≤ 1)
    × (scr_visible (to_screen Screen.logs (wnd_run requests first_windows)) ≡ some Screen.logs)
unfolding IsTidy
wnd_run_lem_example =
    wnd_run_lem requests (tt, (tt, (tt, (tt, tt)))) first_windows (omega arith) Screen.logs
