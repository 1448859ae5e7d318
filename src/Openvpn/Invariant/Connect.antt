-- ===== src/Openvpn/Invariant/Connect.antt =====
-- start(), the template, the launch and the timers keep the invariant.
use celo_desktop_app.Base.{Option, none, some, List}
use celo_desktop_app.Base.Int.{ℤ}
use celo_desktop_app.Base.State.{Keeps}
use celo_desktop_app.Base.Text.{Text}
use celo_desktop_app.Common.{VpnState, connecting}
use celo_desktop_app.Openvpn.Types.{Env}
use celo_desktop_app.Openvpn.Process.{set_state}
use celo_desktop_app.Openvpn.Connect.{
  StartArgs, get_template, start_connecting, start, write_lines, write_template, cannot_write,
  write_config_file, unix_run, unix_launch, windows_launch, launch, launched, launch_openvpn,
  continue_connecting, get_template_error, get_template_finished, poll_socket, handle_crash,
  check_running, give_up, check_timeout, check_state, restart, reconnect_timeout, process_finished,
}
use celo_desktop_app.Openvpn.Rights.{Thrown}
use celo_desktop_app.Openvpn.Invariant.{Inv, leaves, set_state-Inv}
use celo_desktop_app.Openvpn.Invariant.Process.{
  openvpn_running-Inv, connect_to_openvpn_socket-Inv, setup_file_watcher-Inv, stop-Inv, cancel-Inv,
  start_timer-Inv, start_reconnect-Inv,
}
use celo_desktop_app.Openvpn.Invariant.Rights.{set_rights-Inv, enable_tap-Inv, then_try-Inv}

pub connecting-Inv : {st : VpnState} → Keeps (Inv st) (set_state connecting)
connecting-Inv = set_state-Inv connecting (λ e. cc)

get_template-Inv : {st : VpnState} → (env : Env) → Keeps (Inv st) (get_template env)
unfolding get_template
get_template-Inv env = search leaves depth 14

pub start_connecting-Inv : {st : VpnState} → (env : Env) → Keeps (Inv st) (start_connecting env)
unfolding start_connecting
start_connecting-Inv env =
    search (leaves, connecting-Inv, enable_tap-Inv, get_template-Inv) depth 14

pub start-Inv : {st : VpnState} → (env : Env) (a : StartArgs) → Keeps (Inv st) (start env a)
unfolding start
start-Inv env a = search (leaves, stop-Inv, start_connecting-Inv) depth 14

write_lines-Inv :
    {st : VpnState} → (env : Env) (lines : List Text) → Keeps (Inv st) (write_lines env lines)
unfolding write_lines
write_lines-Inv env lines = search leaves depth 14

write_template-Inv :
    {st : VpnState} → (env : Env) (o : Option Text) → Keeps (Inv st) (write_template env o)
unfolding write_template
write_template-Inv env none = search leaves depth 14
write_template-Inv env (some template) = write_lines-Inv env _

cannot_write-Inv : {st : VpnState} → (env : Env) → Keeps (Inv st) (cannot_write env)
unfolding cannot_write
cannot_write-Inv env = search leaves depth 14

pub write_config_file-Inv : {st : VpnState} → (env : Env) → Keeps (Inv st) (write_config_file env)
unfolding write_config_file
write_config_file-Inv env = search (leaves, write_template-Inv, cannot_write-Inv) depth 14

unix_run-Inv : {st : VpnState} → (env : Env) (args : List Text) → Keeps (Inv st) (unix_run env args)
unfolding unix_run
unix_run-Inv env args =
    search (leaves, connect_to_openvpn_socket-Inv, setup_file_watcher-Inv) depth 14

unix_launch-Inv :
    {st : VpnState} → (env : Env) (args : List Text) → Keeps (Inv st) (unix_launch env args)
unfolding unix_launch
unix_launch-Inv env args = search (leaves, then_try-Inv, set_rights-Inv, unix_run-Inv) depth 14

windows_launch-Inv :
    {st : VpnState} → (env : Env) (args : List Text) → Keeps (Inv st) (windows_launch env args)
unfolding windows_launch
windows_launch-Inv env args = search leaves depth 14

launch-Inv : {st : VpnState} → (env : Env) (args : List Text) → Keeps (Inv st) (launch env args)
unfolding launch
launch-Inv env args = search (leaves, unix_launch-Inv, windows_launch-Inv) depth 14

launched-Inv : {st : VpnState} → (env : Env) (t : Thrown) → Keeps (Inv st) (launched env t)
unfolding launched
launched-Inv env none = search (leaves, start_timer-Inv) depth 14
launched-Inv env (some msg) = search leaves depth 14

launch_openvpn-Inv : {st : VpnState} → (env : Env) → Keeps (Inv st) (launch_openvpn env)
unfolding launch_openvpn
launch_openvpn-Inv env = search (leaves, launch-Inv, launched-Inv) depth 14

pub continue_connecting-Inv :
    {st : VpnState} → (env : Env) → Keeps (Inv st) (continue_connecting env)
unfolding continue_connecting
continue_connecting-Inv env = search (leaves, write_config_file-Inv, launch_openvpn-Inv) depth 14

pub get_template_error-Inv :
    {st : VpnState} → (env : Env) (url : Text) → Keeps (Inv st) (get_template_error env url)
unfolding get_template_error
get_template_error-Inv env url = search (leaves, stop-Inv) depth 14

pub get_template_finished-Inv :
    {st : VpnState}
    → (env : Env) (key : ℤ) (reply : Option Text)
    → Keeps (Inv st) (get_template_finished env key reply)
unfolding get_template_finished
get_template_finished-Inv env key none = stop-Inv env
get_template_finished-Inv env key (some bytes) = search (leaves, continue_connecting-Inv) depth 14

poll_socket-Inv : {st : VpnState} → (env : Env) → Keeps (Inv st) (poll_socket env)
unfolding poll_socket
poll_socket-Inv env = search leaves depth 14

handle_crash-Inv : {st : VpnState} → (env : Env) → Keeps (Inv st) (handle_crash env)
unfolding handle_crash
handle_crash-Inv env = search (leaves, start_connecting-Inv) depth 14

pub check_running-Inv : {st : VpnState} → (env : Env) → Keeps (Inv st) (check_running env)
unfolding check_running
check_running-Inv env =
    search
      (
        leaves, openvpn_running-Inv, connect_to_openvpn_socket-Inv, poll_socket-Inv,
        handle_crash-Inv,
      )
      depth 14

give_up-Inv : {st : VpnState} → (env : Env) → Keeps (Inv st) (give_up env)
unfolding give_up
give_up-Inv env = search (leaves, stop-Inv) depth 14

pub check_timeout-Inv : {st : VpnState} → (env : Env) → Keeps (Inv st) (check_timeout env)
unfolding check_timeout
check_timeout-Inv env = search (leaves, cancel-Inv, give_up-Inv) depth 14

pub check_state-Inv : {st : VpnState} → (env : Env) → Keeps (Inv st) (check_state env)
unfolding check_state
check_state-Inv env = search (leaves, check_running-Inv, check_timeout-Inv) depth 14

restart-Inv : {st : VpnState} → (env : Env) → Keeps (Inv st) (restart env)
unfolding restart
restart-Inv env = search (leaves, stop-Inv, start_connecting-Inv) depth 14

pub reconnect_timeout-Inv : {st : VpnState} → (env : Env) → Keeps (Inv st) (reconnect_timeout env)
unfolding reconnect_timeout
reconnect_timeout-Inv env =
    search (leaves, openvpn_running-Inv, start_reconnect-Inv, restart-Inv, start_connecting-Inv)
      depth 14

pub process_finished-Inv :
    {st : VpnState} → (env : Env) (code : ℤ) → Keeps (Inv st) (process_finished env code)
unfolding process_finished
process_finished-Inv env code =
    search (leaves, openvpn_running-Inv, setup_file_watcher-Inv, connect_to_openvpn_socket-Inv)
      depth 14
