-- ===== src/Tests/ServiceExamples.antt =====
-- The theorems about the connection to the GUI, at concrete inputs.
use celo_desktop_app.Base.{true, List, All, keep, ltb, ◌≡◌, ◌≢◌, refl, [], ◌∷◌}
use celo_desktop_app.Base.State.{pure, ◌>>=◌, ◌>>◌}
use celo_desktop_app.Base.Text.{codes}
use celo_desktop_app.Openvpn.Types.{create}
use celo_desktop_app.Openvpn.Events
use celo_desktop_app.Openvpn.Events.{timer_fires, step}
use celo_desktop_app.Openvpn.Starting.{start_lem}
use celo_desktop_app.Service.Commands.{do_start, socket_ready_read}
use celo_desktop_app.Service.Framing.{
  dispatch_all, socket_ready_read-append, socket_ready_read-in_lines,
}
use celo_desktop_app.Service.Server.{
  create_server, ServerEvent, starts, connects, sends, leaves, runs, server_run, server_step,
  start_server, incoming_connection, manager_runs,
}
use celo_desktop_app.Service.Server.Heard.{Heard}
use celo_desktop_app.Service.Server.Clients.{
  server_run_current, server_run_earlier, server_run_changed,
}
use celo_desktop_app.Service.Starting.{Commanded, do_start_lem}
use celo_desktop_app.Tests.{idle_env, raw_manager, raw_client, plain_json, service, start_args}

socket_ready_read-append_example :
    (socket_ready_read idle_env plain_json (codes "2\n33") []
        >>= socket_ready_read idle_env plain_json (codes "3\n1"))
      service
    ≡ socket_ready_read idle_env plain_json (codes "2\n333\n1") [] service
socket_ready_read-append_example =
    socket_ready_read-append idle_env plain_json (codes "2\n33") (codes "3\n1") [] service

socket_ready_read-in_lines_example :
    socket_ready_read idle_env plain_json (codes "22\n4\n1") [] service
    ≡ (dispatch_all idle_env plain_json (codes "22" ∷ codes "4" ∷ []) >> pure (codes "1")) service
socket_ready_read-in_lines_example =
    socket_ready_read-in_lines idle_env plain_json (codes "22" ∷ codes "4" ∷ []) (codes "1") service
      ((refl, (refl, tt)), ((refl, tt), tt)) (refl, tt)

do_start_lem_example :
    Commanded idle_env plain_json
      (codes "53\n")
      (do_start idle_env plain_json (codes "53\n") service).1.manager
do_start_lem_example = do_start_lem idle_env plain_json (codes "53\n") service

-- Two clients; the first sends a command in two pieces, the second leaves.
abbrev visits : List ServerEvent
visits =
    starts true
    ∷ connects raw_client
    ∷ connects raw_client
    ∷ sends 0 (codes "22\n4")
    ∷ runs timer_fires
    ∷ sends 0 (codes "\n")
    ∷ leaves 1
    ∷ []

server_run_current_example :
    let s = server_run idle_env plain_json visits (create_server raw_manager) in
    All (λ w. Heard plain_json w.client s.manager.state) s.workers
server_run_current_example =
    server_run_current idle_env plain_json raw_manager visits
      (tt, (tt, (tt, (tt, (tt, (tt, (tt, tt)))))))

server_run_earlier_example :
    let s =
      server_run idle_env plain_json
        (starts true ∷ connects raw_client ∷ [])
        (create_server raw_manager) in
    let t = server_run idle_env plain_json (connects raw_client ∷ sends 1 (codes "53\n") ∷ []) s in
    All (λ w. w.client.state ≡ t.manager.state) (keep (λ w. ltb w.id s.born) t.workers)
unfolding server_run server_step create_server start_server incoming_connection create
server_run_earlier_example =
    server_run_earlier idle_env plain_json raw_manager (starts true ∷ connects raw_client ∷ [])
      (tt, (tt, tt)) refl (connects raw_client ∷ sends 1 (codes "53\n") ∷ []) (tt, (tt, tt))

abbrev connected_client : List ServerEvent
connected_client = starts true ∷ connects raw_client ∷ []

start_changes :
    let s = server_run idle_env plain_json connected_client (create_server raw_manager) in
    let t = server_run idle_env plain_json (runs (Events.starts start_args) ∷ []) s in
    t.manager.state ≢ s.manager.state
unfolding server_run server_step create_server start_server incoming_connection create manager_runs
    step
start_changes e =
    let s = server_run idle_env plain_json connected_client (create_server raw_manager) in
    let (begins, _, _) = start_lem idle_env start_args (record s.manager { trace = [] }) in
    cc (begins, e)

server_run_changed_example :
    let s = server_run idle_env plain_json connected_client (create_server raw_manager) in
    let t = server_run idle_env plain_json (runs (Events.starts start_args) ∷ []) s in
    All (λ w. w.client.state ≡ t.manager.state) (keep (λ w. ltb w.id s.born) t.workers)
server_run_changed_example =
    server_run_changed idle_env plain_json raw_manager connected_client (tt, (tt, tt))
      (runs (Events.starts start_args) ∷ []) (tt, tt) start_changes
