-- ===== src/Openvpn/Stop.antt =====
-- What holds after stop(), whatever OpenVPN, its socket and the operating system answer.
use celo_desktop_app.Base.{ℕ, zero, suc, ◌≡◌, refl, false, arith, ◌∙◌}
use celo_desktop_app.Common.{VpnState, disconnected}
use celo_desktop_app.Openvpn.Types.{Env, Manager, ask, emit, when}
use celo_desktop_app.Openvpn.Process.{
  set_state, entered, openvpn_running, disconnect_from_openvpn_socket, obfsproxy_running,
  wait_obfsproxy, terminate_obfsproxy, kill_obfsproxy, stop_obfsproxy, stop_running, unwatch, stop,
}
use celo_desktop_app.Openvpn.Settings.{Like, Like-refl, stop-Like}

pub state-set_state : (st : VpnState) (m : Manager) → (set_state st m).1.state ≡ st
unfolding set_state entered emit
state-set_state st m = ground arith

pub socket-set_state : (st : VpnState) (m : Manager) → (set_state st m).1.socket ≡ m.socket
unfolding set_state entered emit
socket-set_state st m = ground arith

watcher-set_state : (st : VpnState) (m : Manager) → (set_state st m).1.file_watcher ≡ m.file_watcher
unfolding set_state entered emit
watcher-set_state st m = ground arith

socket-disconnect : (m : Manager) → (disconnect_from_openvpn_socket m).1.socket ≡ false
unfolding disconnect_from_openvpn_socket emit
socket-disconnect m = ground arith

socket-unwatch : (m : Manager) → (unwatch m).1.socket ≡ m.socket
unfolding unwatch emit
socket-unwatch m = ground arith

watcher-unwatch : (m : Manager) → (unwatch m).1.file_watcher ≡ false
unfolding unwatch emit
watcher-unwatch m = ground arith

socket-wait_obfsproxy :
    (env : Env) (n : ℕ) (m : Manager) → (wait_obfsproxy env n m).1.socket ≡ m.socket
unfolding wait_obfsproxy obfsproxy_running ask
socket-wait_obfsproxy env zero m = refl
socket-wait_obfsproxy env (suc n) m =
    ground (arith, socket-wait_obfsproxy env n (record m { asked = suc m.asked }))

socket-stop_obfsproxy : (env : Env) (m : Manager) → (stop_obfsproxy env m).1.socket ≡ m.socket
unfolding stop_obfsproxy obfsproxy_running kill_obfsproxy terminate_obfsproxy ask emit
socket-stop_obfsproxy env m = ground (
  arith,
  socket-wait_obfsproxy env env.rounds (record m { asked = suc m.asked; obfsproxy = false }),
)

-- The state in which stop() enters its last two steps.
before_unwatch : Env → Manager → Manager
before_unwatch env m =
    let running = openvpn_running env m in
    (stop_obfsproxy env
      (disconnect_from_openvpn_socket (when running.0 (stop_running env) running.1).1).1).1

stop_steps :
    (env : Env) (m : Manager)
    → stop env m ≡ set_state disconnected (unwatch (before_unwatch env m)).1
unfolding stop before_unwatch
stop_steps env m = refl

socket-before_unwatch : (env : Env) (m : Manager) → (before_unwatch env m).socket ≡ false
unfolding before_unwatch
socket-before_unwatch env m = socket-stop_obfsproxy env _ ∙ socket-disconnect _

-- After stop(), from any state and whatever the environment answers, the manager is disconnected,
-- holds no management socket and watches no log file, and its settings, credentials and templates
-- are what they were.
pub stop_lem :
    (env : Env) (m : Manager)
    → ((stop env m).1.state ≡ disconnected)
      × ((stop env m).1.socket ≡ false)
      × ((stop env m).1.file_watcher ≡ false)
      × Like m (stop env m).1
unfolding stop before_unwatch
stop_lem env m =
    let w = (unwatch (before_unwatch env m)).1 in
    (
      state-set_state disconnected w,
      socket-set_state disconnected w ∙ socket-unwatch _ ∙ socket-before_unwatch env m,
      watcher-set_state disconnected w ∙ watcher-unwatch _,
      (stop-Like {k = m} env).at m (Like-refl m),
    )
