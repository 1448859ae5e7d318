-- ===== src/Openvpn/Process.antt =====
-- Whether OpenVPN runs, the management socket, the log watcher, and stop().
use celo_desktop_app.Base.{
  ℕ, zero, suc, Bool, true, false, ◌&&◌, ◌||◌, not, Option, none, some, [], ◌∷◌, if◌then◌else◌,
  is_empty, take,
}
use celo_desktop_app.Base.Int.{ℤ, pos, negsuc, ltb_ℤ}
use celo_desktop_app.Base.State.{get, modify, skip, pure, ◌>>=◌, ◌>>◌}
use celo_desktop_app.Base.Text.{Text, codes, ◌=text◌, contains, index_of}
use celo_desktop_app.Common.{
  VpnState, disconnected, connecting, connected, total, eqb_state, int_of,
}
use celo_desktop_app.Openvpn.Types.{
  Os, linux, darwin, windows, is_windows, Env, M, state_changed, send_error, block_on_disconnect,
  connect_socket, abort_socket, close_socket, write_socket, watch_log, unwatch_log,
  start_state_timer, execute, start_reconnect_timer, ask, emit, when, trimmed,
}

-- The switch of setState, after `mState = st`.
unfoldable pub entered : VpnState → M (Unit {0})
entered connected = emit (state_changed connected)
entered connecting = emit (state_changed connecting)
entered disconnected = do
  modify (λ m. record m { state_timer = false })
  emit (state_changed disconnected)
entered total = skip

unfoldable pub set_state : VpnState → M (Unit {0})
set_state st m = if eqb_state st m.state then (tt, m) else entered st (record m { state = st })

-- The first number of a line of `ps`, as openvpnRunning takes it.
unfoldable pub ps_number : Env → Text → Option ℤ
ps_number env ba =
    let s3 = trimmed env.qt ba in
    env.qt.to_int (elim (index_of b' ' 0 s3) [ none ↦ s3 | some p ↦ take p s3 ])

abbrev pub is_positive : Option ℤ → Bool
is_positive none = false
is_positive (some v) = ltb_ℤ (pos 0) v

-- The exit code 0 of the script: its output names a process, or not.
unfoldable pub note_pid : Option ℤ → M Bool
note_pid o m = (is_positive o, record m { pid = int_of o })

unfoldable pub is_zero : ℤ → Bool
is_zero (pos zero) = true
is_zero (pos (suc n)) = false
is_zero (negsuc n) = false

unfoldable pub run_script : Env → M Bool
run_script env = do
  re ← ask env.exit_code
  if is_zero re then (ask env.output >>= λ ba. note_pid (ps_number env ba)) else pure false

-- The search with `ps` on Linux. Exit codes other than 0 leave `running` false.
unfoldable pub linux_lookup : Env → M Bool
linux_lookup env = do
  opened ← ask env.temp_file_opens
  out_opened ← if opened then ask env.temp_file_opens else pure false
  if out_opened then run_script env else pure false

-- The second half of openvpnRunning, by platform.
unfoldable pub lookup_child : Env → Os → Bool → M Bool
lookup_child env windows running = do
  result ← ask env.output
  pure
      (running || (contains result (codes "openvpn.exe") || contains result (codes "ovpntray.exe")))
lookup_child env darwin running = do
  result ← ask env.output
  pure (running || (not (trimmed env.qt result =text codes "0") && not (is_empty result)))
lookup_child env linux running = if running then pure true else linux_lookup env

-- `p.get() != NULL && …`: the question is asked of a live object only.
unfoldable pub ask_if : Bool → (ℕ → Bool) → M Bool
ask_if true q = ask q
ask_if false q = pure false

unfoldable pub openvpn_running : Env → M Bool
openvpn_running env = do
  m ← get
  by_process ← ask_if m.process env.process_active
  running ← if by_process then pure true else ask_if m.socket env.socket_open
  lookup_child env env.os running

unfoldable pub obfsproxy_running : Env → M Bool
obfsproxy_running env = do
  result ← ask env.output
  pure (contains result (if is_windows env.os then codes "obfsproxy.exe" else codes "/obfsproxy"))

unfoldable pub disconnect_from_openvpn_socket : M (Unit {0})
disconnect_from_openvpn_socket = do
  m ← get
  when m.socket do emit abort_socket; modify (λ m. record m { socket = false })

unfoldable pub connect_to_openvpn_socket : Env → M (Unit {0})
connect_to_openvpn_socket env = do
  disconnect_from_openvpn_socket
  modify (λ m. record m { socket = true })
  m ← get
  emit (connect_socket (int_of (env.qt.to_int m.local_port)))

unfoldable pub remove_process : M (Unit {0})
remove_process = modify (λ m. record m { process = false })

unfoldable pub setup_file_watcher : Env → M (Unit {0})
setup_file_watcher env = do
  m ← get
  when (not m.file_watcher) do
    exists ← ask env.file_exists
    when exists
        do modify (λ m. record m { log_file_position = 0; file_watcher = true }); emit watch_log

-- `while (obfsproxyRunning()) sleep`, for so many rounds.
unfoldable pub wait_obfsproxy : Env → ℕ → M (Unit {0})
wait_obfsproxy env zero = modify (λ m. record m { hung = true })
wait_obfsproxy env (suc n) = do
  running ← obfsproxy_running env
  if running then wait_obfsproxy env n else skip

unfoldable pub terminate_obfsproxy : Env → M (Unit {0})
terminate_obfsproxy env = do
  modify (λ m. record m { obfsproxy = false })
  wait_obfsproxy env env.rounds

unfoldable pub kill_obfsproxy : Env → M (Unit {0})
kill_obfsproxy env = do
  m ← get
  if m.obfsproxy
      then terminate_obfsproxy env
      else emit (execute (codes "killall") (codes "obfsproxy" ∷ []))

unfoldable pub stop_obfsproxy : Env → M (Unit {0})
stop_obfsproxy env = do
  running ← obfsproxy_running env
  when running (
      if is_windows env.os
      then emit (execute (codes "taskkill") (codes "/F" ∷ codes "/IM" ∷ codes "obfsproxy.exe" ∷ []))
      else kill_obfsproxy env)

-- `for (cn = 0; cn < 8 && openvpnRunning(); ++cn) msleep(100)`.
unfoldable pub wait_stopped : Env → ℕ → M (Unit {0})
wait_stopped env zero = skip
wait_stopped env (suc n) = do
  running ← openvpn_running env
  if running then wait_stopped env n else skip

-- The polite request: `signal SIGTERM` over an open, valid and connected socket.
unfoldable pub ask_to_exit : Env → M (Unit {0})
ask_to_exit env = do
  opened ← ask env.socket_open
  when opened do
    valid ← ask env.socket_valid
    when valid do
      is_connected ← ask env.socket_connected
      when is_connected do emit (write_socket (codes "signal SIGTERM\nexit\n")); emit close_socket

-- The body of stop() under `if (openvpnRunning())`.
unfoldable pub stop_running : Env → M (Unit {0})
stop_running env = do
  m ← get
  when m.socket do ask_to_exit env; disconnect_from_openvpn_socket; wait_stopped env 8
  remove_process
  openvpn_running env >>= λ _. skip

unfoldable pub unwatch : M (Unit {0})
unwatch = do
  m ← get
  when m.file_watcher do emit unwatch_log; modify (λ m. record m { file_watcher = false })

unfoldable pub stop : Env → M (Unit {0})
stop env = do
  running ← openvpn_running env
  when running (stop_running env)
  disconnect_from_openvpn_socket
  stop_obfsproxy env
  unwatch
  set_state disconnected

unfoldable pub cancel : Env → Text → M (Unit {0})
cancel env msg = do stop env; emit block_on_disconnect; emit (send_error msg)

unfoldable pub show_error_message_cleanup : Text → M (Unit {0})
show_error_message_cleanup msg = do
  disconnect_from_openvpn_socket
  remove_process
  set_state disconnected
  emit (send_error msg)

unfoldable pub start_timer : M (Unit {0})
start_timer = do modify (λ m. record m { state_timer = true }); emit start_state_timer

unfoldable pub start_reconnect : ℕ → M (Unit {0})
start_reconnect ms = emit (start_reconnect_timer ms)

-- `for (count = 0; count < 8 && !isOpen() && !isValid(); ++count) msleep(100)`.
unfoldable pub wait_socket : Env → ℕ → M (Unit {0})
wait_socket env zero = skip
wait_socket env (suc n) = do
  opened ← ask env.socket_open
  valid ← if opened then pure true else ask env.socket_valid
  if valid then skip else wait_socket env n

-- `kill -9` for a process that `ps` named; taskkill on Windows otherwise.
unfoldable pub kill_process : Env → M (Unit {0})
kill_process env = do
  m ← get
  if ltb_ℤ (pos 0) m.pid
      then emit (execute (codes "/bin/kill") (codes "-9" ∷ env.qt.number m.pid ∷ []))
      else when (is_windows env.os) do
        emit (execute (codes "taskkill") (codes "/F" ∷ codes "/IM" ∷ codes "openvpn.exe" ∷ []))
        emit (execute (codes "taskkill") (codes "/F" ∷ codes "/IM" ∷ codes "ovpntray.exe" ∷ []))

unfoldable pub kill_running_openvpn : Env → M (Unit {0})
kill_running_openvpn env = do
  running ← openvpn_running env
  when running do
    connect_to_openvpn_socket env
    m ← get
    when m.socket (wait_socket env 8)
    stop env
    still ← openvpn_running env
    when still (kill_process env)
