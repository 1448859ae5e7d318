-- ===== src/Openvpn/Starting.antt =====
-- start(), the reconnection after a crash and the timeout of checkState.
use celo_desktop_app.Base.{
  ℕ, suc, ◌≡◌, refl, ◌∙◌, Bool, true, false, Option, none, some, List, [], ◌∷◌, arith,
}
use celo_desktop_app.Base.State.{maybe, skip}
use celo_desktop_app.Common.{connecting, int_of}
use celo_desktop_app.Openvpn.Types.{
  is_windows, Env, Adapter, Action, Manager, fetch_template, ask, emit, when,
}
use celo_desktop_app.Openvpn.Process.{set_state, stop}
use celo_desktop_app.Openvpn.Rights.{set_interface, open_tap, enable_taps, enable_tap}
use celo_desktop_app.Openvpn.Connect.{
  StartArgs, with_args, server_key, current_key, get_template, start_connecting, start,
}
use celo_desktop_app.Openvpn.Settings.{Like, start_connecting-Like}
use celo_desktop_app.Openvpn.Stop.{state-set_state, stop_lem}

state-open_tap : (env : Env) (a : Adapter) (m : Manager) → (open_tap env a m).1.state ≡ m.state
unfolding open_tap set_interface ask emit
state-open_tap env a m = ground arith

state-enable_taps :
    (env : Env) (found : List Adapter) (m : Manager) → (enable_taps env found m).1.state ≡ m.state
unfolding enable_taps
state-enable_taps env [] m = refl
state-enable_taps env (a ∷ rest) m =
    state-enable_taps env rest (open_tap env a m).1 ∙ state-open_tap env a m

state-found :
    (env : Env) (o : Option (Option (ℕ × List Adapter))) (m : Manager)
    → (maybe skip (λ r. maybe skip (λ b. enable_taps env b.1) r) o m).1.state ≡ m.state
state-found env none m = refl
state-found env (some none) m = refl
state-found env (some (some b)) m = state-enable_taps env b.1 m

state-enable_tap : (env : Env) (m : Manager) → (enable_tap env m).1.state ≡ m.state
unfolding enable_tap ask
state-enable_tap env m = state-found env (env.adapters m.asked) (record m { asked = suc m.asked })

state-when : (b : Bool) (env : Env) (m : Manager) → (when b (enable_tap env) m).1.state ≡ m.state
state-when true env m = state-enable_tap env m
state-when false env m = refl

abbrev pub latest : List Action → Option Action
latest [] = none
latest (a ∷ rest) = some a

pub state-start_connecting :
    (env : Env) (m : Manager) → (start_connecting env m).1.state ≡ connecting
unfolding start_connecting get_template emit
state-start_connecting env m =
    state-when (is_windows env.os) env (set_state connecting m).1 ∙ state-set_state connecting m

-- The last thing that it does is to fetch the template.
latest-start_connecting :
    (env : Env) (m : Manager)
    → let n = (start_connecting env m).1 in
      latest n.trace ≡ some (fetch_template n.template_url (current_key env n))
unfolding start_connecting get_template emit
latest-start_connecting env m = refl

with_args-Like : (a : StartArgs) {k m : Manager} → Like k m → Like (with_args a k) (with_args a m)
with_args-Like a h = ground arith

-- start() leaves the manager connecting with the client's arguments, from any state and whatever the
-- environment answers: the last thing done is the request for the template of that server and port,
-- and nothing else of the settings, credentials and templates has changed.
pub start_lem :
    (env : Env) (a : StartArgs) (m : Manager)
    → ((start env a m).1.state ≡ connecting)
      × (latest (start env a m).1.trace
          ≡ some (
              fetch_template a.template_url
                (server_key a.server_id (int_of (env.qt.to_int a.port)))))
      × Like (with_args a (record m { reconnect_attempt = 0 })) (start env a m).1
unfolding start
start_lem env a m =
    let k = record m { reconnect_attempt = 0 } in
    let stopped = (stop env k).1 in
    let alike : Like (with_args a k) (start_connecting env (with_args a stopped)).1 =
      (start_connecting-Like {k = with_args a k} env).at (with_args a stopped)
        (with_args-Like a ((stop_lem env k).3)) in
    (
      state-start_connecting env (with_args a stopped),
      latest-start_connecting env (with_args a stopped)
          ∙ cc (alike.template_url, alike.server_id, alike.port),
      alike,
    )
