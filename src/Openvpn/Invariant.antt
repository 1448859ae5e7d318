-- ===== src/Openvpn/Invariant.antt =====
-- What every handler keeps: the state that was last signalled to the clients is the manager's,
-- there is no obfsproxy process, and so the loop of stopObfsproxy is never entered. The children go
-- through the functions, part by part.
pub mod Process
pub mod Rights
pub mod Connect
pub mod Management
pub mod Events
use celo_desktop_app.Base.{ℕ, ◌≡◌, refl, ◌≢◌, List, [], ◌∷◌, Bool, true, false, arith, not}
use celo_desktop_app.Base.State.{Keeps, Keeps-bind, keeps_rules, modify}
use celo_desktop_app.Common.{VpnState, disconnected, connecting, connected, total, eqb_state}
use celo_desktop_app.Openvpn.Types.{Env, Action, Manager, M, state_changed, ask, emit, when}
use celo_desktop_app.Openvpn.Process.{
  set_state, entered, kill_obfsproxy, terminate_obfsproxy, wait_obfsproxy,
  disconnect_from_openvpn_socket, connect_to_openvpn_socket, stop_obfsproxy, obfsproxy_running,
  linux_lookup, run_script, lookup_child, openvpn_running, ask_if, note_pid,
}

-- The state that the clients know after these actions (latest first), if they knew `st` before.
abbrev pub last_state : VpnState → List Action → VpnState
last_state st [] = st
last_state st (state_changed new ∷ as') = new
last_state st (_ ∷ as') = last_state st as'

pub record Inv (st : VpnState) (m : Manager) : Type 0 where
  pub agrees : last_state st m.trace ≡ m.state
  pub no_obfsproxy : m.obfsproxy ≡ false
  pub not_hung : m.hung ≡ false

abbrev pub IsQuiet : Action → Type 0
IsQuiet (state_changed st) = ⊥
IsQuiet _ = Unit {0}

pub emit-Inv : {st : VpnState} → (a : Action) → IsQuiet a → Keeps (Inv st) (emit a)
unfolding emit
emit-Inv (state_changed st) q = absurd q
emit-Inv _ q = record {
  at = λ s h. record { agrees = h.agrees; no_obfsproxy = h.no_obfsproxy; not_hung = h.not_hung };
}

pub ask-Inv : {st : VpnState} → {A : Type 0} (q : ℕ → A) → Keeps (Inv st) (ask q)
unfolding ask
ask-Inv q = record {
  at = λ s h. record { agrees = h.agrees; no_obfsproxy = h.no_obfsproxy; not_hung = h.not_hung };
}

pub when-Inv :
    {st : VpnState} → (b : Bool) {c : M (Unit {0})} → Keeps (Inv st) c → Keeps (Inv st) (when b c)
when-Inv true k = k
when-Inv false k = record { at = λ s h. h }

pub modify-Inv :
    {st : VpnState}
    → (f : Manager → Manager) → ((m : Manager) → (f m).state ≡ m.state)
    → ((m : Manager) → (f m).trace ≡ m.trace)
    → ((m : Manager) → (f m).obfsproxy ≡ m.obfsproxy)
    → ((m : Manager) → (f m).hung ≡ m.hung)
    → Keeps (Inv st) (modify f)
modify-Inv f p q r t = record { at = λ s h. ground (arith, p s, q s, r s, t s) }

pub set_state-Inv : {old : VpnState} (st : VpnState) → st ≢ total → Keeps (Inv old) (set_state st)
unfolding set_state entered emit
set_state-Inv st h = record { at = λ m k. ground arith }

pub kill_obfsproxy-Inv : {st : VpnState} → (env : Env) → Keeps (Inv st) (kill_obfsproxy env)
unfolding kill_obfsproxy emit
kill_obfsproxy-Inv env = record { at = λ m k. ground arith }

pub disconnected-Inv : {st : VpnState} → Keeps (Inv st) (set_state disconnected)
disconnected-Inv = set_state-Inv disconnected (λ e. cc)

pub ruleset leaves = (
  keeps_rules, emit-Inv, ask-Inv, when-Inv, modify-Inv, tt, refl, kill_obfsproxy-Inv,
  disconnected-Inv,
)
