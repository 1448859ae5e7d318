-- ===== src/Openvpn/Invariant/Process.antt =====
-- openvpnRunning, the socket, the watcher and stop() keep the invariant.
use celo_desktop_app.Base.{ℕ, zero, suc, Bool, true, false, Option, if◌then◌else◌}
use celo_desktop_app.Base.Int.{ℤ}
use celo_desktop_app.Base.State.{
  Keeps, Keeps-skip, Keeps-bind, Keeps-if, Keeps-pure, skip, pure, ◌>>=◌,
}
use celo_desktop_app.Base.Text.{Text}
use celo_desktop_app.Common.{VpnState}
use celo_desktop_app.Openvpn.Types.{Os, linux, darwin, windows, Env, ask}
use celo_desktop_app.Openvpn.Process.{
  note_pid, run_script, linux_lookup, lookup_child, ask_if, openvpn_running, obfsproxy_running,
  disconnect_from_openvpn_socket, connect_to_openvpn_socket, remove_process, setup_file_watcher,
  stop_obfsproxy, wait_stopped, ask_to_exit, stop_running, unwatch, stop, cancel,
  show_error_message_cleanup, start_timer, start_reconnect, wait_socket, kill_process,
  kill_running_openvpn,
}
use celo_desktop_app.Openvpn.Invariant.{Inv, leaves, ask-Inv}

note_pid-Inv : {st : VpnState} → (o : Option ℤ) → Keeps (Inv st) (note_pid o)
unfolding note_pid
note_pid-Inv o = record {
  at = λ s h. record { agrees = h.agrees; no_obfsproxy = h.no_obfsproxy; not_hung = h.not_hung };
}

run_script-Inv : {st : VpnState} → (env : Env) → Keeps (Inv st) (run_script env)
unfolding run_script
run_script-Inv env = search (leaves, note_pid-Inv) depth 14

linux_lookup-Inv : {st : VpnState} → (env : Env) → Keeps (Inv st) (linux_lookup env)
unfolding linux_lookup
linux_lookup-Inv env = search (leaves, run_script-Inv) depth 14

lookup_child-Inv :
    {st : VpnState} → (env : Env) (os : Os) (b : Bool) → Keeps (Inv st) (lookup_child env os b)
unfolding lookup_child
lookup_child-Inv env linux b = search (leaves, linux_lookup-Inv) depth 14
lookup_child-Inv env darwin b = search leaves depth 14
lookup_child-Inv env windows b = search leaves depth 14

ask_if-Inv : {st : VpnState} → (b : Bool) (q : ℕ → Bool) → Keeps (Inv st) (ask_if b q)
unfolding ask_if
ask_if-Inv true q = search leaves depth 14
ask_if-Inv false q = search leaves depth 14

pub openvpn_running-Inv : {st : VpnState} → (env : Env) → Keeps (Inv st) (openvpn_running env)
unfolding openvpn_running
openvpn_running-Inv env = search (leaves, ask_if-Inv, lookup_child-Inv) depth 14

pub obfsproxy_running-Inv : {st : VpnState} → (env : Env) → Keeps (Inv st) (obfsproxy_running env)
unfolding obfsproxy_running
obfsproxy_running-Inv env = search leaves depth 14

pub disconnect_from_openvpn_socket-Inv :
    {st : VpnState} → Keeps (Inv st) disconnect_from_openvpn_socket
unfolding disconnect_from_openvpn_socket
disconnect_from_openvpn_socket-Inv = search leaves depth 14

pub connect_to_openvpn_socket-Inv :
    {st : VpnState} → (env : Env) → Keeps (Inv st) (connect_to_openvpn_socket env)
unfolding connect_to_openvpn_socket
connect_to_openvpn_socket-Inv env = search (leaves, disconnect_from_openvpn_socket-Inv) depth 14

pub remove_process-Inv : {st : VpnState} → Keeps (Inv st) remove_process
unfolding remove_process
remove_process-Inv = search leaves depth 14

pub setup_file_watcher-Inv : {st : VpnState} → (env : Env) → Keeps (Inv st) (setup_file_watcher env)
unfolding setup_file_watcher
setup_file_watcher-Inv env = search leaves depth 14

stop_obfsproxy-Inv : {st : VpnState} → (env : Env) → Keeps (Inv st) (stop_obfsproxy env)
unfolding stop_obfsproxy
stop_obfsproxy-Inv env = search (leaves, obfsproxy_running-Inv) depth 14

wait_stopped-Inv : {st : VpnState} → (env : Env) (n : ℕ) → Keeps (Inv st) (wait_stopped env n)
unfolding wait_stopped
wait_stopped-Inv env zero = Keeps-skip
wait_stopped-Inv env (suc n) =
    Keeps-bind {f = λ running. if running then wait_stopped env n else skip}
      (openvpn_running-Inv env) (λ running. Keeps-if running (wait_stopped-Inv env n) Keeps-skip)

ask_to_exit-Inv : {st : VpnState} → (env : Env) → Keeps (Inv st) (ask_to_exit env)
unfolding ask_to_exit
ask_to_exit-Inv env = search leaves depth 14

stop_running-Inv : {st : VpnState} → (env : Env) → Keeps (Inv st) (stop_running env)
unfolding stop_running
stop_running-Inv env =
    search
      (
        leaves, ask_to_exit-Inv, disconnect_from_openvpn_socket-Inv, wait_stopped-Inv,
        remove_process-Inv, openvpn_running-Inv,
      )
      depth 14

unwatch-Inv : {st : VpnState} → Keeps (Inv st) unwatch
unfolding unwatch
unwatch-Inv = search leaves depth 14

pub stop-Inv : {st : VpnState} → (env : Env) → Keeps (Inv st) (stop env)
unfolding stop
stop-Inv env =
    search
      (
        leaves, openvpn_running-Inv, stop_running-Inv, disconnect_from_openvpn_socket-Inv,
        stop_obfsproxy-Inv, unwatch-Inv,
      )
      depth 14

pub cancel-Inv : {st : VpnState} → (env : Env) (msg : Text) → Keeps (Inv st) (cancel env msg)
unfolding cancel
cancel-Inv env msg = search (leaves, stop-Inv) depth 14

pub show_error_message_cleanup-Inv :
    {st : VpnState} → (msg : Text) → Keeps (Inv st) (show_error_message_cleanup msg)
unfolding show_error_message_cleanup
show_error_message_cleanup-Inv msg =
    search (leaves, disconnect_from_openvpn_socket-Inv, remove_process-Inv) depth 14

pub start_timer-Inv : {st : VpnState} → Keeps (Inv st) start_timer
unfolding start_timer
start_timer-Inv = search leaves depth 14

pub start_reconnect-Inv : {st : VpnState} → (ms : ℕ) → Keeps (Inv st) (start_reconnect ms)
unfolding start_reconnect
start_reconnect-Inv ms = search leaves depth 14

wait_socket-Inv : {st : VpnState} → (env : Env) (n : ℕ) → Keeps (Inv st) (wait_socket env n)
unfolding wait_socket
wait_socket-Inv env zero = Keeps-skip
wait_socket-Inv env (suc n) =
    let again = λ (valid : Bool). if valid then skip else wait_socket env n in
    let either = λ (opened : Bool). if opened then pure true else ask env.socket_valid in
    Keeps-bind {f = λ opened. either opened >>= again} (ask-Inv env.socket_open) λ opened.
      Keeps-bind (Keeps-if opened (Keeps-pure true) (ask-Inv env.socket_valid))
        λ valid. Keeps-if valid Keeps-skip (wait_socket-Inv env n)

kill_process-Inv : {st : VpnState} → (env : Env) → Keeps (Inv st) (kill_process env)
unfolding kill_process
kill_process-Inv env = search leaves depth 14

pub kill_running_openvpn-Inv :
    {st : VpnState} → (env : Env) → Keeps (Inv st) (kill_running_openvpn env)
unfolding kill_running_openvpn
kill_running_openvpn-Inv env =
    search
      (
        leaves, openvpn_running-Inv, connect_to_openvpn_socket-Inv, wait_socket-Inv, stop-Inv,
        kill_process-Inv,
      )
      depth 14
