-- ===== src/Service/Told.antt =====
-- What the connections know of the manager's state: a relation `Q` between a connection and this state
-- that follows the notifications passes through every operation of the service.
use celo_desktop_app.Base.{
  ℕ, zero, suc, ◌≡◌, refl, sym, subst, Bool, false, List, [], ◌∷◌, ◌++◌, map, All,
}
use celo_desktop_app.Base.State.{Keeps, Keeps-bind, Keeps-pure, Keeps-maybe, keeps_rules}
use celo_desktop_app.Base.Text.{Text}
use celo_desktop_app.Common.{VpnState}
use celo_desktop_app.Openvpn.Types.{
  Env, Action, M, state_changed, got_new_ip, state_word_changed, send_error, timed_out,
}
use celo_desktop_app.Openvpn.Events.{set_vpn_credentials}
use celo_desktop_app.Openvpn.Rights.{netdown}
use celo_desktop_app.Openvpn.Connect.{StartArgs, start}
use celo_desktop_app.Openvpn.Process.{stop, kill_running_openvpn}
use celo_desktop_app.Openvpn.Invariant.{Inv, last_state}
use celo_desktop_app.Openvpn.Invariant.Process.{stop-Inv, kill_running_openvpn-Inv}
use celo_desktop_app.Openvpn.Invariant.Rights.{netdown-Inv}
use celo_desktop_app.Openvpn.Invariant.Connect.{start-Inv}
use celo_desktop_app.Openvpn.Invariant.Events.{set_vpn_credentials-Inv}
use celo_desktop_app.Service.Client.{
  Json, Client, Worker, Service, deliver_to, call, deliver, notify, send_message, vpn_state_changed,
  vpn_status, vpn_state_word, vpn_error, vpn_new_ip, vpn_timed_out,
}
use celo_desktop_app.Service.Commands.{
  on_client, take_start, do_start, do_stop, dispatch_code, dispatch, next_command, serve,
  socket_ready_read,
}

-- The relation between a connection, by its address, and the manager's state.
abbrev pub Knows : (ℕ → Client → VpnState → Type 0) → VpnState → Worker → Type 0
Knows Q st w = Q w.id w.client st

-- The relation passes through a notification, an answer to a status request, and what changes neither
-- the connection's state nor what it has sent.
pub record Follows (json : Json) (Q : ℕ → Client → VpnState → Type 0) : Type 0 where
  pub notified :
      (id : ℕ) (a : Action) (c : Client) (st : VpnState)
      → Q id c st
      → Q id (notify json a c) (last_state st (a ∷ []))
  pub answered :
      (id : ℕ) (c : Client) (st : VpnState) → Q id c st → Q id (vpn_state_changed json c.state c) st
  pub kept :
      (id : ℕ) (c k : Client) (st : VpnState)
      → k.state ≡ c.state
      → k.sent ≡ c.sent
      → Q id c st
      → Q id k st

-- A relation of the two states follows, if it holds of equal ones.
module _ (json : Json) (R : ℕ → VpnState → VpnState → Type 0)
    (same : (id : ℕ) (st : VpnState) → R id st st) where
  state-notified :
      (id : ℕ) (a : Action) (c : Client) (st : VpnState)
      → R id c.state st
      → R id (notify json a c).state (last_state st (a ∷ []))
  unfolding notify vpn_state_changed vpn_state_word vpn_error vpn_new_ip vpn_timed_out vpn_status
      send_message
  state-notified id (state_changed new) c st h = same id new
  state-notified id (state_word_changed w) c st h = h
  state-notified id (send_error w) c st h = h
  state-notified id (got_new_ip w) c st h = h
  state-notified id timed_out c st h = h
  state-notified id _ c st h = h

  pub states-Follows : Follows json (λ id c st. R id c.state st)
  unfolding vpn_state_changed vpn_status send_message
  states-Follows = record {
    notified = state-notified;
    answered = λ id c st h. h;
    kept = λ id c k st e _ h. subst (λ (own : VpnState). R id own st) (sym e) h;
  }

last_state-cons :
    (a : Action) (as' : List Action) (st : VpnState)
    → last_state st (a ∷ as') ≡ last_state (last_state st as') (a ∷ [])
last_state-cons (state_changed new) as' st = refl
last_state-cons _ as' st = refl

module _ (json : Json) (Q : ℕ → Client → VpnState → Type 0) (laws : Follows json Q) where
  pub deliver-Q :
      (id : ℕ) (as' : List Action) (c : Client) {b : VpnState}
      → Q id c b
      → Q id (deliver json as' c) (last_state b as')
  unfolding deliver
  deliver-Q id [] c h = h
  deliver-Q id (a ∷ as') c {b} h =
      subst (Q id (notify json a (deliver json as' c))) (sym (last_state-cons a as' b))
        (laws.notified id a (deliver json as' c) (last_state b as') (deliver-Q id as' c h))

  pub deliver_to-Knows :
      (as' : List Action) (b : VpnState) (ws : List Worker)
      → All (Knows Q b) ws
      → All (Knows Q (last_state b as')) (map (deliver_to json as') ws)
  deliver_to-Knows as' b [] h = tt
  deliver_to-Knows as' b (w ∷ ws) h =
      (deliver-Q w.id as' w.client h.0, deliver_to-Knows as' b ws h.1)

  -- All connections know, and no obfsproxy process exists. `id` is the connection that runs.
  pub record InStep (id : ℕ) (s : Service) : Type 0 where
    pub told : Q id s.client s.manager.state
    pub told_before : All (Knows Q s.manager.state) s.before
    pub told_after : All (Knows Q s.manager.state) s.after
    pub no_obfsproxy : s.manager.obfsproxy ≡ false
    pub not_hung : s.manager.hung ≡ false

  module _ (id : ℕ) where
    pub call-InStep :
        {op : M (Unit {0})}
        → ((st : VpnState) → Keeps (Inv st) op)
        → Keeps (InStep id) (call json op)
    unfolding call
    call-InStep {op = op} k = record {
      at = λ s h.
          let before : Inv s.manager.state (record s.manager { trace = [] }) = record {
            agrees = refl;
            no_obfsproxy = h.no_obfsproxy;
            not_hung = h.not_hung;
          } in
          let after = (k s.manager.state).at (record s.manager { trace = [] }) before in
          let signals = (op (record s.manager { trace = [] })).1.trace in
          record {
            told = subst (Q id _) after.agrees (deliver-Q id signals s.client h.told);
            told_before =
                subst (λ (st : VpnState). All (Knows Q st) (map (deliver_to json signals) s.before))
                  after.agrees (deliver_to-Knows signals s.manager.state s.before h.told_before);
            told_after =
                subst (λ (st : VpnState). All (Knows Q st) (map (deliver_to json signals) s.after))
                  after.agrees (deliver_to-Knows signals s.manager.state s.after h.told_after);
            no_obfsproxy = after.no_obfsproxy;
            not_hung = after.not_hung;
          };
    }

  module _ (id : ℕ) where
    on_client-InStep :
        (f : Client → Client)
        → ((c : Client) → (f c).state ≡ c.state)
        → ((c : Client) → (f c).sent ≡ c.sent)
        → Keeps (InStep id) (on_client f)
    unfolding on_client
    on_client-InStep f e t = record {
      at = λ s h. record {
        told = laws.kept id s.client (f s.client) s.manager.state (e s.client) (t s.client) h.told;
        told_before = h.told_before;
        told_after = h.told_after;
        no_obfsproxy = h.no_obfsproxy;
        not_hung = h.not_hung;
      };
    }

  module _ (env : Env) (id : ℕ) where
    take_start-state : (doc : Text) (c : Client) → (take_start env json doc c).state ≡ c.state
    unfolding take_start
    take_start-state doc c = refl

    take_start-sent : (doc : Text) (c : Client) → (take_start env json doc c).sent ≡ c.sent
    unfolding take_start
    take_start-sent doc c = refl

    stop-InStep : Keeps (InStep id) (call json (stop env))
    stop-InStep = call-InStep id (λ st. stop-Inv env)

    netdown-InStep : (down : Bool) → Keeps (InStep id) (call json (netdown env down))
    netdown-InStep down = call-InStep id (λ st. netdown-Inv env down)

    start-InStep : (a : StartArgs) → Keeps (InStep id) (call json (start env a))
    start-InStep a = call-InStep id (λ st. start-Inv env a)

    kill-InStep : Keeps (InStep id) (call json (kill_running_openvpn env))
    kill-InStep = call-InStep id (λ st. kill_running_openvpn-Inv env)

    credentials-InStep : (u p : Text) → Keeps (InStep id) (call json (set_vpn_credentials u p))
    credentials-InStep u p = call-InStep id (λ st. set_vpn_credentials-Inv u p)

    status-InStep : Keeps (InStep id) (on_client (λ k. vpn_state_changed json k.state k))
    unfolding on_client
    status-InStep = record {
      at = λ s h. record {
        told = laws.answered id s.client s.manager.state h.told;
        told_before = h.told_before;
        told_after = h.told_after;
        no_obfsproxy = h.no_obfsproxy;
        not_hung = h.not_hung;
      };
    }

    ruleset calls = (
      keeps_rules, stop-InStep, netdown-InStep, start-InStep, kill-InStep, credentials-InStep,
      status-InStep, on_client-InStep, refl, take_start-state, take_start-sent,
    )

    do_start-InStep : (doc : Text) → Keeps (InStep id) (do_start env json doc)
    unfolding do_start
    do_start-InStep doc = search calls depth 14

    do_stop-InStep : Keeps (InStep id) (do_stop env json)
    unfolding do_stop
    do_stop-InStep = search calls depth 14

    dispatch-InStep : (doc : Text) → Keeps (InStep id) (dispatch env json doc)
    unfolding dispatch dispatch_code
    dispatch-InStep doc = search (calls, do_start-InStep, do_stop-InStep) depth 14

    serve-InStep : (n : ℕ) (buffer : Text) → Keeps (InStep id) (serve env json n buffer)
    unfolding serve
    serve-InStep zero buffer = Keeps-pure buffer
    serve-InStep (suc n) buffer =
        Keeps-maybe (next_command buffer) (Keeps-pure buffer)
          (λ r. Keeps-bind (dispatch-InStep r.0) (λ _. serve-InStep n r.1))

    pub socket_ready_read-InStep :
        (bytes buffer : Text) → Keeps (InStep id) (socket_ready_read env json bytes buffer)
    unfolding socket_ready_read
    socket_ready_read-InStep bytes buffer = serve-InStep _ (buffer ++ bytes)
