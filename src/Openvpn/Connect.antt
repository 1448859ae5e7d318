-- ===== src/Openvpn/Connect.antt =====
-- start(), the fetch of the configuration template, the launch of OpenVPN and the timers.
use celo_desktop_app.Base.{
  ℕ, suc, Bool, true, false, ◌&&◌, ◌||◌, not, Option, none, some, List, [], ◌∷◌, ◌++◌,
  if◌then◌else◌, is_empty, ltb,
}
use celo_desktop_app.Base.Int.{ℤ, pos, eqb_ℤ, ◌+ℤ◌, ◌*ℤ◌, lookup, insert}
use celo_desktop_app.Base.State.{get, modify, pure, ◌>>=◌, ◌>>◌}
use celo_desktop_app.Base.Text.{Text, codes, contains, split, remove_unit}
use celo_desktop_app.Common.{disconnected, connecting, connected, eqb_state, int_of, escape_spaces}
use celo_desktop_app.Openvpn.Types.{
  Os, linux, darwin, windows, is_windows, Env, Manager, M, send_error, timed_out, fetch_template,
  write_config, execute, start_process, write_socket, fix_dns_leak, ask, emit, when, secs_to,
}
use celo_desktop_app.Openvpn.Process.{
  set_state, openvpn_running, connect_to_openvpn_socket, setup_file_watcher, stop, cancel,
  start_timer, start_reconnect,
}
use celo_desktop_app.Openvpn.Rights.{Thrown, then_try, set_rights, enable_tap}

-- kTryNextPortSeconds and G_Max_Reconnect.
abbrev pub try_next_port_seconds : ℕ
try_next_port_seconds = 60

abbrev pub max_reconnect : ℕ
max_reconnect = 3

-- serverKey: the server and the class of its port.
unfoldable pub server_key : ℤ → ℤ → ℤ
server_key server_id port =
    let portnumber =
      if eqb_ℤ port (pos 1194) then pos 1 else if eqb_ℤ port (pos 53) then pos 2 else pos 3 in
    (server_id *ℤ pos 10) +ℤ portnumber

abbrev pub current_key : Env → Manager → ℤ
current_key env m = server_key m.server_id (int_of (env.qt.to_int m.port))

unfoldable pub get_template : Env → M (Unit {0})
get_template env = do m ← get; emit (fetch_template m.template_url (current_key env m))

unfoldable pub start_connecting : Env → M (Unit {0})
start_connecting env = do
  set_state connecting
  when (is_windows env.os) (enable_tap env)
  modify (λ m. record m { tun_error = false; error = false; processing = false })
  get_template env

-- What a client passes to start().
pub record StartArgs : Type 0 where
  pub encryption : ℤ
  pub server_id : ℤ
  pub server : Text
  pub port : Text
  pub template_url : Text
  pub local_port : Text
  pub tcp_or_udp : Text
  pub fix_dns : Bool
  pub dns1 : Text
  pub dns2 : Text

abbrev pub with_args : StartArgs → Manager → Manager
with_args a m = record m {
  encryption = a.encryption;
  server_id = a.server_id;
  hostname = a.server;
  port = a.port;
  template_url = a.template_url;
  local_port = a.local_port;
  tcp_or_udp = a.tcp_or_udp;
  fix_dns = a.fix_dns;
  dns1 = a.dns1;
  dns2 = a.dns2;
}

unfoldable pub start : Env → StartArgs → M (Unit {0})
start env a = do
  modify (λ m. record m { reconnect_attempt = 0 })
  stop env
  modify (with_args a)
  start_connecting env

-- The loop over the lines: what is written, and whether a line names DNS.
unfoldable pub filter_lines : List Text → Text
filter_lines [] = []
filter_lines (l ∷ ls) = l ++ (b'\n' ∷ filter_lines ls)

unfoldable pub mentions_dns : List Text → Bool
mentions_dns [] = false
mentions_dns (l ∷ ls) = contains l (codes "DNS") || mentions_dns ls

abbrev pub push_dns : Text → Text
push_dns dns = if is_empty dns then [] else codes "push \"dhcp-option DNS " ++ (dns ++ codes "\"\n")

-- The options that stand before the template's lines.
unfoldable pub dns_options : Env → Manager → Text
dns_options env m =
    (if m.fix_dns && is_windows env.os && env.windows10 then codes "block-outside-dns\n" else [])
    ++ (push_dns m.dns1 ++ push_dns m.dns2)

unfoldable pub write_lines : Env → List Text → M Bool
write_lines env lines = do
  modify (λ m. record m { template_has_dns_options = mentions_dns lines })
  m ← get
  emit (write_config ((if mentions_dns lines then [] else dns_options env m) ++ filter_lines lines))
  pure true

unfoldable pub write_template : Env → Option Text → M Bool
write_template env none = do
  emit (send_error (codes "No template ovpn found to connect"))
  pure false
write_template env (some template) = write_lines env (split b'\n' template)

unfoldable pub cannot_write : Env → M Bool
cannot_write env = do
  emit (send_error (codes "Cannot write config file '" ++ (env.config_filename ++ codes "'")))
  pure false

unfoldable pub write_config_file : Env → M Bool
write_config_file env = do
  opened ← ask env.config_opens
  m ← get
  if opened
      then write_template env (lookup (current_key env m) m.ovpn_template)
      else cannot_write env

abbrev pub dhcp_option : Text → List Text
dhcp_option dns = if is_empty dns then [] else codes "--dhcp-option" ∷ codes "DNS" ∷ dns ∷ []

abbrev pub script_args : Env → Os → List Text
script_args env linux =
    codes "--up" ∷ env.up_script_filename ∷ codes "--down" ∷ env.down_script_filename ∷ []
script_args env darwin =
    codes "--up"
    ∷ (escape_spaces env.up_script_filename ++ codes " -d -f -m -o -w")
    ∷ codes "--down"
    ∷ (escape_spaces env.down_script_filename ++ codes " -d -f -m -o -w")
    ∷ []
script_args env windows = []

unfoldable pub get_openvpn_args : Env → Manager → List Text
get_openvpn_args env m =
    (codes "--config" ∷ env.config_filename ∷ [])
    ++ ((if is_windows env.os then [] else codes "--daemon" ∷ [])
        ++ ((codes "--management"
              ∷ codes "127.0.0.1"
              ∷ m.local_port
              ∷ codes "--management-hold"
              ∷ codes "--management-query-passwords"
              ∷ codes "--log"
              ∷ env.log_filename
              ∷ codes "--script-security"
              ∷ codes "3"
              ∷ [])
            ++ (script_args env env.os
                ++ ((codes "--up-restart" ∷ [])
                    ++ (if m.template_has_dns_options
                        then []
                        else dhcp_option m.dns1 ++ dhcp_option m.dns2)))))

-- The launch on Linux and macOS, under `try`; the result of execute is not looked at.
unfoldable pub unix_run : Env → List Text → M Thrown
unix_run env args = do
  emit (execute (remove_unit b'\\' env.openvpn_filename) args)
  connect_to_openvpn_socket env
  setup_file_watcher env
  pure none

unfoldable pub unix_launch : Env → List Text → M Thrown
unix_launch env args = do
  opened ← ask env.temp_file_opens
  if opened
      then then_try (set_rights env) (unix_run env args)
      else pure (some (codes "Cannot create tmp file."))

unfoldable pub windows_launch : Env → List Text → M Thrown
windows_launch env args = do
  modify (λ m. record m { process = true })
  emit (start_process env.openvpn_filename args)
  pure none

unfoldable pub launch : Env → List Text → M Thrown
launch env args = if is_windows env.os then windows_launch env args else unix_launch env args

unfoldable pub launched : Env → Thrown → M (Unit {0})
launched env none = do
  time ← ask env.now
  modify (λ m. record m { start_date_time = some time })
  start_timer
launched env (some msg) = do emit (send_error msg); set_state disconnected

unfoldable pub launch_openvpn : Env → M (Unit {0})
launch_openvpn env = do
  m ← get
  let args = get_openvpn_args env m
  when (m.fix_dns || (not (is_empty m.dns1) || not (is_empty m.dns2))) (emit fix_dns_leak)
  thrown ← launch env args
  launched env thrown

unfoldable pub continue_connecting : Env → M (Unit {0})
continue_connecting env = do written ← write_config_file env; when written (launch_openvpn env)

-- `url` is the reply's.
unfoldable pub get_template_error : Env → Text → M (Unit {0})
get_template_error env url = do
  emit (send_error (codes "Unable to fetch configuration from " ++ url))
  stop env

-- The reply to the request that was made under `key`: its bytes, or an error.
unfoldable pub get_template_finished : Env → ℤ → Option Text → M (Unit {0})
get_template_finished env key none = stop env
get_template_finished env key (some bytes) = do
  modify (λ m. record m { ovpn_template = insert key bytes m.ovpn_template })
  continue_connecting env

-- checkState, first part: is OpenVPN alive?
unfoldable pub poll_socket : Env → M (Unit {0})
poll_socket env = do
  valid ← ask env.socket_valid
  when valid do
    is_connected ← ask env.socket_connected
    when is_connected (emit (write_socket (codes "state\n")))

unfoldable pub handle_crash : Env → M (Unit {0})
handle_crash env = do
  m ← get
  when (eqb_state m.state connected)
      (if m.reconnect then start_connecting env else set_state disconnected)

unfoldable pub check_running : Env → M (Unit {0})
check_running env = do
  running ← openvpn_running env
  m ← get
  if running
      then (if m.socket then poll_socket env else connect_to_openvpn_socket env)
      else handle_crash env

unfoldable pub give_up : Env → M (Unit {0})
give_up env = do
  time ← ask env.now
  modify (λ m. record m { start_date_time = some time })
  stop env
  emit timed_out

unfoldable pub timeout_message : Env → Text
timeout_message env =
    codes "Timeout at " ++ (env.qt.number (pos try_next_port_seconds) ++ codes " seconds")

-- checkState, second part: has the attempt taken too long?
unfoldable pub check_timeout : Env → M (Unit {0})
check_timeout env = do
  m ← get
  when (eqb_state m.state connecting) do
    time ← ask env.now
    when (ltb try_next_port_seconds (secs_to m.start_date_time time))
        (if m.testing then cancel env (timeout_message env) else give_up env)

unfoldable pub check_state : Env → M (Unit {0})
check_state env = check_running env >> check_timeout env

unfoldable pub restart : Env → M (Unit {0})
restart env = stop env >> start_connecting env

unfoldable pub reconnect_timeout : Env → M (Unit {0})
reconnect_timeout env = do
  modify (λ m. record m { reconnect_attempt = suc m.reconnect_attempt })
  running ← openvpn_running env
  m ← get
  if running
      then (if ltb m.reconnect_attempt max_reconnect then start_reconnect 200 else restart env)
      else start_connecting env

unfoldable pub process_finished : Env → ℤ → M (Unit {0})
process_finished env exit_code =
    if eqb_ℤ exit_code (pos 0)
    then setup_file_watcher env >> connect_to_openvpn_socket env
    else (openvpn_running env >>= λ running. when (not running) (set_state disconnected))
