-- ===== src/Service/Status.antt =====
-- The status that a client is told, against the manager's state.
use celo_desktop_app.Base.{ℕ, ◌≡◌, refl, List, [], ◌∷◌}
use celo_desktop_app.Base.Int.{pos}
use celo_desktop_app.Base.State.{Keeps, Keeps-bind, Keeps-pure}
use celo_desktop_app.Base.Text.{Text, codes}
use celo_desktop_app.Common.{VpnState, disconnected}
use celo_desktop_app.Openvpn.Types.{Env, Manager, create}
use celo_desktop_app.Openvpn.Invariant.Events.{step-Inv, IsReported}
use celo_desktop_app.Service.Client.{
  Json, Client, Worker, create_client, vpn_state_changed, vpn_status,
}
use celo_desktop_app.Service.Told.{
  Follows, states-Follows, InStep, call-InStep, socket_ready_read-InStep,
}
use celo_desktop_app.Service.Commands.{
  on_client, dispatch_code, dispatch, Input, reads, happens, step_service, run_service,
}

abbrev pub IsTold : Input → Type 0
IsTold (reads bytes) = Unit {0}
IsTold (happens e) = IsReported e

abbrev pub AllTold : List Input → Type 0
AllTold [] = Unit {0}
AllTold (i ∷ is) = IsTold i × AllTold is

-- The client knows the manager's state.
abbrev Agrees : ℕ → Client → VpnState → Type 0
Agrees id c st = c.state ≡ st

module _ (env : Env) (json : Json) where
  agrees-Follows : Follows json Agrees
  agrees-Follows = states-Follows json (λ id a b. a ≡ b) (λ id st. refl)

  step-Agrees :
      (i : Input) (buffer : Text)
      → IsTold i
      → Keeps (InStep json Agrees agrees-Follows 0) (step_service env json i buffer)
  unfolding step_service
  step-Agrees (reads bytes) buffer h =
      socket_ready_read-InStep json Agrees agrees-Follows env 0 bytes buffer
  step-Agrees (happens e) buffer h =
      Keeps-bind (call-InStep json Agrees agrees-Follows 0 (λ st. step-Inv env e h))
        (λ _. Keeps-pure buffer)

  run-Agrees :
      (is : List Input) (buffer : Text)
      → AllTold is
      → Keeps (InStep json Agrees agrees-Follows 0) (run_service env json is buffer)
  unfolding run_service
  run-Agrees [] buffer h = Keeps-pure buffer
  run-Agrees (i ∷ is) buffer h =
      Keeps-bind (step-Agrees i buffer h.0) (λ rest. run-Agrees is rest h.1)

  -- A client that connects to a new manager, whatever the memory of both held, and any bytes that
  -- it sends and any events but a failure to run the process, in any order: the state that the
  -- client was told last is the manager's.
  pub run_service_agrees :
      (raw : Manager) (raw_client : Client) (is : List Input)
      → AllTold is
      → let s =
          (run_service env json is [] (record {
            manager = create raw;
            client = create_client raw_client;
            before = [];
            after = [];
          })).1 in
        s.client.state ≡ s.manager.state
  unfolding create create_client
  run_service_agrees raw raw_client is h =
      ((run-Agrees is [] h).at _ (record {
        told = refl;
        told_before = tt;
        told_after = tt;
        no_obfsproxy = refl;
        not_hung = refl;
      })).told

  -- A client that connects at any later time knows no state but `disconnected`: a command whose code
  -- reads as 0 makes it send that, whatever the manager's state.
  pub late_client :
      (m : Manager) (raw : Client) (before after : List Worker) (doc : Text)
      → json.int_at doc (codes "cmd") ≡ pos 0
      → dispatch env json doc
          (record { manager = m; client = create_client raw; before = before; after = after })
        ≡ (
          tt,
          record {
            manager = m;
            client = vpn_status json disconnected (create_client raw);
            before = before;
            after = after;
          },
        )
  unfolding dispatch dispatch_code on_client vpn_state_changed create_client
  late_client m raw before after doc e = rw e refl
