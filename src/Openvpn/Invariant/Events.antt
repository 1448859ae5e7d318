-- ===== src/Openvpn/Invariant/Events.antt =====
-- Every event of the service keeps the invariant, so it holds after any run.
use celo_desktop_app.Base.{refl, List, [], ◌∷◌}
use celo_desktop_app.Base.State.{Keeps, Keeps-skip, Keeps-bind}
use celo_desktop_app.Base.Text.{Text}
use celo_desktop_app.Common.{VpnState, disconnected}
use celo_desktop_app.Openvpn.Types.{Env, Manager, create}
use celo_desktop_app.Openvpn.Events.{
  Event, starts, stops, kills, sets_credentials, sets_net_down, template_fails, template_arrives,
  timer_fires, reconnect_fires, log_changes, socket_reads, socket_fails, process_fails,
  process_moves, process_ends, set_vpn_credentials, step, run,
}
use celo_desktop_app.Openvpn.Invariant.{Inv, leaves}
use celo_desktop_app.Openvpn.Invariant.Process.{
  stop-Inv, setup_file_watcher-Inv, kill_running_openvpn-Inv,
}
use celo_desktop_app.Openvpn.Invariant.Rights.{netdown-Inv}
use celo_desktop_app.Openvpn.Invariant.Connect.{
  start-Inv, get_template_error-Inv, get_template_finished-Inv, check_state-Inv,
  reconnect_timeout-Inv, process_finished-Inv,
}
use celo_desktop_app.Openvpn.Invariant.Management.{
  socket_ready_read-Inv, socket_error-Inv, openvpn_logfile_changed-Inv,
}

pub set_vpn_credentials-Inv :
    {st : VpnState} → (u p : Text) → Keeps (Inv st) (set_vpn_credentials u p)
unfolding set_vpn_credentials
set_vpn_credentials-Inv u p = search leaves depth 14

-- Every event but a failure to run the process.
abbrev pub IsReported : Event → Type 0
IsReported process_fails = ⊥
IsReported _ = Unit {0}

abbrev pub AllReported : List Event → Type 0
AllReported [] = Unit {0}
AllReported (e ∷ es) = IsReported e × AllReported es

pub step-Inv :
    {st : VpnState} → (env : Env) (e : Event) → IsReported e → Keeps (Inv st) (step env e)
unfolding step
step-Inv env (starts a) h = start-Inv env a
step-Inv env stops h = stop-Inv env
step-Inv env kills h = kill_running_openvpn-Inv env
step-Inv env (sets_credentials username password) h = set_vpn_credentials-Inv username password
step-Inv env (sets_net_down down) h = netdown-Inv env down
step-Inv env (template_fails url) h = get_template_error-Inv env url
step-Inv env (template_arrives key reply) h = get_template_finished-Inv env key reply
step-Inv env timer_fires h = check_state-Inv env
step-Inv env reconnect_fires h = reconnect_timeout-Inv env
step-Inv env (log_changes pfn file) h = openvpn_logfile_changed-Inv env pfn file
step-Inv env (socket_reads s) h = socket_ready_read-Inv env s
step-Inv env (socket_fails closed) h = socket_error-Inv closed
step-Inv env process_fails h = absurd h
step-Inv env process_moves h = setup_file_watcher-Inv env
step-Inv env (process_ends code) h = process_finished-Inv env code

pub run-Inv :
    {st : VpnState} → (env : Env) (es : List Event) → AllReported es → Keeps (Inv st) (run env es)
unfolding run
run-Inv env [] h = Keeps-skip
run-Inv env (e ∷ es) h = Keeps-bind (step-Inv env e h.0) (λ _. run-Inv env es h.1)

-- A new manager, whatever its memory held, and any events but a failure to run the process: the
-- state that was last signalled to the clients is the manager's, no obfsproxy process exists, and
-- the loop that waits for its end has not run out of rounds.
pub run_agrees :
    (env : Env) (raw : Manager) (es : List Event)
    → AllReported es
    → Inv disconnected (run env es (create raw)).1
unfolding create
run_agrees env raw es h =
    (run-Inv env es h).at (create raw)
      (record { agrees = refl; no_obfsproxy = refl; not_hung = refl })
