-- ===== src/Openvpn/Events.antt =====
-- What happens to OpenvpnManager: calls of its clients, timers, replies and the signals of its
-- socket and process. A run is a list of these, in the order of the service's event loop.
use celo_desktop_app.Base.{Bool, Option, List, [], ◌∷◌}
use celo_desktop_app.Base.Int.{ℤ}
use celo_desktop_app.Base.State.{modify, skip, ◌>>◌}
use celo_desktop_app.Base.Text.{Text}
use celo_desktop_app.Common.{disconnected}
use celo_desktop_app.Openvpn.Types.{Env, M, state_changed, emit}
use celo_desktop_app.Openvpn.Process.{stop, setup_file_watcher, kill_running_openvpn}
use celo_desktop_app.Openvpn.Rights.{netdown}
use celo_desktop_app.Openvpn.Connect.{
  StartArgs, start, get_template_error, get_template_finished, check_state, reconnect_timeout,
  process_finished,
}
use celo_desktop_app.Openvpn.Management.{socket_ready_read, socket_error}
use celo_desktop_app.Openvpn.LogFile.{openvpn_logfile_changed}

pub data Event : Type 0 where
  starts : StartArgs → Event
  stops : Event
  kills : Event
  sets_credentials : Text → Text → Event
  sets_net_down : Bool → Event
  template_fails : Text → Event
  template_arrives : ℤ → Option Text → Event
  timer_fires : Event
  reconnect_fires : Event
  log_changes : Text → Option Text → Event
  socket_reads : Text → Event
  socket_fails : Bool → Event
  -- Connected on Windows only.
  process_fails : Event
  process_moves : Event
  process_ends : ℤ → Event

unfoldable pub set_vpn_credentials : Text → Text → M (Unit {0})
set_vpn_credentials username password =
    modify (λ m. record m { vpn_username = username; vpn_password = password })

-- processError tells the clients, and leaves mState.
unfoldable pub process_error : M (Unit {0})
process_error = emit (state_changed disconnected)

unfoldable pub step : Env → Event → M (Unit {0})
step env (starts a) = start env a
step env stops = stop env
step env kills = kill_running_openvpn env
step env (sets_credentials username password) = set_vpn_credentials username password
step env (sets_net_down down) = netdown env down
step env (template_fails url) = get_template_error env url
step env (template_arrives key reply) = get_template_finished env key reply
step env timer_fires = check_state env
step env reconnect_fires = reconnect_timeout env
step env (log_changes pfn file) = openvpn_logfile_changed env pfn file
step env (socket_reads s) = socket_ready_read env s
step env (socket_fails closed) = socket_error closed
step env process_fails = process_error
step env process_moves = setup_file_watcher env
step env (process_ends code) = process_finished env code

unfoldable pub run : Env → List Event → M (Unit {0})
run env [] = skip
run env (e ∷ es) = step env e >> run env es
