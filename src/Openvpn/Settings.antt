-- ===== src/Openvpn/Settings.antt =====
-- What stopping and restarting OpenVPN leave alone: the settings of the connection, the credentials,
-- the templates, the start time and the last state word.
use celo_desktop_app.Base.{
  ℕ, zero, suc, ◌≡◌, refl, List, [], ◌∷◌, Bool, true, false, Option, arith, if◌then◌else◌,
}
use celo_desktop_app.Base.Int.{ℤ}
use celo_desktop_app.Base.State.{Keeps, Keeps-bind, Keeps-if, Keeps-skip, keeps_rules, modify, skip}
use celo_desktop_app.Base.Text.{Text}
use celo_desktop_app.Common.{VpnState}
use celo_desktop_app.Openvpn.Types.{
  Os, linux, darwin, windows, Env, Adapter, Action, Manager, M, ask, emit, when,
}
use celo_desktop_app.Openvpn.Process.{
  set_state, entered, note_pid, run_script, linux_lookup, lookup_child, ask_if, openvpn_running,
  obfsproxy_running, disconnect_from_openvpn_socket, remove_process, wait_obfsproxy,
  terminate_obfsproxy, kill_obfsproxy, stop_obfsproxy, wait_stopped, ask_to_exit, stop_running,
  unwatch, stop,
}
use celo_desktop_app.Openvpn.Rights.{set_interface, open_tap, enable_taps, enable_tap}
use celo_desktop_app.Openvpn.Connect.{get_template, start_connecting}

-- `m` has the settings of `k`.
pub record Like (k : Manager) (m : Manager) : Type 0 where
  pub reconnect : m.reconnect ≡ k.reconnect
  pub testing : m.testing ≡ k.testing
  pub start_date_time : m.start_date_time ≡ k.start_date_time
  pub net_down : m.net_down ≡ k.net_down
  pub previous_state_word : m.previous_state_word ≡ k.previous_state_word
  pub vpn_username : m.vpn_username ≡ k.vpn_username
  pub vpn_password : m.vpn_password ≡ k.vpn_password
  pub hostname : m.hostname ≡ k.hostname
  pub port : m.port ≡ k.port
  pub local_port : m.local_port ≡ k.local_port
  pub template_url : m.template_url ≡ k.template_url
  pub tcp_or_udp : m.tcp_or_udp ≡ k.tcp_or_udp
  pub encryption : m.encryption ≡ k.encryption
  pub server_id : m.server_id ≡ k.server_id
  pub fix_dns : m.fix_dns ≡ k.fix_dns
  pub dns1 : m.dns1 ≡ k.dns1
  pub dns2 : m.dns2 ≡ k.dns2
  pub ovpn_template : m.ovpn_template ≡ k.ovpn_template
  pub reconnect_attempt : m.reconnect_attempt ≡ k.reconnect_attempt

pub Like-refl : (k : Manager) → Like k k
Like-refl k = record {
  reconnect = refl;
  testing = refl;
  start_date_time = refl;
  net_down = refl;
  previous_state_word = refl;
  vpn_username = refl;
  vpn_password = refl;
  hostname = refl;
  port = refl;
  local_port = refl;
  template_url = refl;
  tcp_or_udp = refl;
  encryption = refl;
  server_id = refl;
  fix_dns = refl;
  dns1 = refl;
  dns2 = refl;
  ovpn_template = refl;
  reconnect_attempt = refl;
}

module _ {k : Manager} where
  pub emit-Like : (a : Action) → Keeps (Like k) (emit a)
  unfolding emit
  emit-Like a = record { at = λ m h. ground arith }

  pub ask-Like : {A : Type 0} (q : ℕ → A) → Keeps (Like k) (ask q)
  unfolding ask
  ask-Like q = record { at = λ m h. ground arith }

  pub when-Like : (b : Bool) {c : M (Unit {0})} → Keeps (Like k) c → Keeps (Like k) (when b c)
  when-Like true h = h
  when-Like false h = record { at = λ m g. g }

  pub modify-Like :
      (f : Manager → Manager) → ((m : Manager) → Like m (f m)) → Keeps (Like k) (modify f)
  modify-Like f h = record { at = λ m g. ground (arith, h m) }

  pub set_state-Like : (st : VpnState) → Keeps (Like k) (set_state st)
  unfolding set_state entered emit
  set_state-Like st = record { at = λ m h. ground arith }

ruleset rules = (keeps_rules, emit-Like, ask-Like, when-Like, modify-Like, set_state-Like, refl)

module _ {k : Manager} where
  note_pid-Like : (o : Option ℤ) → Keeps (Like k) (note_pid o)
  unfolding note_pid
  note_pid-Like o = record { at = λ m h. ground arith }

  run_script-Like : (env : Env) → Keeps (Like k) (run_script env)
  unfolding run_script
  run_script-Like env = search (rules, note_pid-Like) depth 14

  linux_lookup-Like : (env : Env) → Keeps (Like k) (linux_lookup env)
  unfolding linux_lookup
  linux_lookup-Like env = search (rules, run_script-Like) depth 14

  lookup_child-Like : (env : Env) (os : Os) (b : Bool) → Keeps (Like k) (lookup_child env os b)
  unfolding lookup_child
  lookup_child-Like env linux b = search (rules, linux_lookup-Like)
  lookup_child-Like env darwin b = search rules
  lookup_child-Like env windows b = search rules

  ask_if-Like : (b : Bool) (q : ℕ → Bool) → Keeps (Like k) (ask_if b q)
  unfolding ask_if
  ask_if-Like true q = search rules
  ask_if-Like false q = search rules

  pub openvpn_running-Like : (env : Env) → Keeps (Like k) (openvpn_running env)
  unfolding openvpn_running
  openvpn_running-Like env = search (rules, ask_if-Like, lookup_child-Like) depth 14

  obfsproxy_running-Like : (env : Env) → Keeps (Like k) (obfsproxy_running env)
  unfolding obfsproxy_running
  obfsproxy_running-Like env = search rules depth 14

  pub disconnect_from_openvpn_socket-Like : Keeps (Like k) disconnect_from_openvpn_socket
  unfolding disconnect_from_openvpn_socket
  disconnect_from_openvpn_socket-Like = search rules depth 14

  remove_process-Like : Keeps (Like k) remove_process
  unfolding remove_process
  remove_process-Like = search rules depth 14

  wait_obfsproxy-Like : (env : Env) (n : ℕ) → Keeps (Like k) (wait_obfsproxy env n)
  unfolding wait_obfsproxy
  wait_obfsproxy-Like env zero = search rules depth 14
  wait_obfsproxy-Like env (suc n) =
      Keeps-bind {f = λ running. if running then wait_obfsproxy env n else skip}
        (obfsproxy_running-Like env)
        (λ running. Keeps-if running (wait_obfsproxy-Like env n) Keeps-skip)

  terminate_obfsproxy-Like : (env : Env) → Keeps (Like k) (terminate_obfsproxy env)
  unfolding terminate_obfsproxy
  terminate_obfsproxy-Like env = search (rules, wait_obfsproxy-Like) depth 14

  kill_obfsproxy-Like : (env : Env) → Keeps (Like k) (kill_obfsproxy env)
  unfolding kill_obfsproxy
  kill_obfsproxy-Like env = search (rules, terminate_obfsproxy-Like) depth 14

  stop_obfsproxy-Like : (env : Env) → Keeps (Like k) (stop_obfsproxy env)
  unfolding stop_obfsproxy
  stop_obfsproxy-Like env = search (rules, obfsproxy_running-Like, kill_obfsproxy-Like) depth 14

  wait_stopped-Like : (env : Env) (n : ℕ) → Keeps (Like k) (wait_stopped env n)
  unfolding wait_stopped
  wait_stopped-Like env zero = Keeps-skip
  wait_stopped-Like env (suc n) =
      Keeps-bind {f = λ running. if running then wait_stopped env n else skip}
        (openvpn_running-Like env)
        (λ running. Keeps-if running (wait_stopped-Like env n) Keeps-skip)

  ask_to_exit-Like : (env : Env) → Keeps (Like k) (ask_to_exit env)
  unfolding ask_to_exit
  ask_to_exit-Like env = search rules depth 14

  stop_running-Like : (env : Env) → Keeps (Like k) (stop_running env)
  unfolding stop_running
  stop_running-Like env =
      search
        (
          rules, ask_to_exit-Like, disconnect_from_openvpn_socket-Like, wait_stopped-Like,
          remove_process-Like, openvpn_running-Like,
        )
        depth 14

  unwatch-Like : Keeps (Like k) unwatch
  unfolding unwatch
  unwatch-Like = search rules depth 14

  pub stop-Like : (env : Env) → Keeps (Like k) (stop env)
  unfolding stop
  stop-Like env =
      search
        (
          rules, openvpn_running-Like, stop_running-Like, disconnect_from_openvpn_socket-Like,
          stop_obfsproxy-Like, unwatch-Like,
        )
        depth 14

  set_interface-Like : (name : Text) (mode : Text) → Keeps (Like k) (set_interface name mode)
  unfolding set_interface
  set_interface-Like name mode = search rules depth 14

  open_tap-Like : (env : Env) (a : Adapter) → Keeps (Like k) (open_tap env a)
  unfolding open_tap
  open_tap-Like env a = search (rules, set_interface-Like) depth 14

  enable_taps-Like : (env : Env) (found : List Adapter) → Keeps (Like k) (enable_taps env found)
  unfolding enable_taps
  enable_taps-Like env [] = Keeps-skip
  enable_taps-Like env (a ∷ rest) =
      Keeps-bind (open_tap-Like env a) (λ _. enable_taps-Like env rest)

  pub enable_tap-Like : (env : Env) → Keeps (Like k) (enable_tap env)
  unfolding enable_tap
  enable_tap-Like env = search (rules, enable_taps-Like) depth 14

  pub get_template-Like : (env : Env) → Keeps (Like k) (get_template env)
  unfolding get_template
  get_template-Like env = search rules depth 14

  pub start_connecting-Like : (env : Env) → Keeps (Like k) (start_connecting env)
  unfolding start_connecting
  start_connecting-Like env = search (rules, enable_tap-Like, get_template-Like) depth 14
