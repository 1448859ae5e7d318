-- ===== src/Service/Server.antt =====
-- QVPNServer (service/qvpnserver.cpp): the connections of several clients, and the manager that they
-- share.
pub mod Told
pub mod Heard
pub mod Clients
use celo_desktop_app.Base.{
  ℕ, ◌+◌, Bool, false, ◌||◌, Option, none, some, List, [], ◌∷◌, ◌++◌, if◌then◌else◌, ◌==◌, map,
}
use celo_desktop_app.Base.State.{maybe}
use celo_desktop_app.Base.Text.{Text}
use celo_desktop_app.Openvpn.Types.{Env, Manager, create}
use celo_desktop_app.Openvpn.Events.{Event, step}
use celo_desktop_app.Service.Client.{Json, Client, Worker, create_client, deliver_to}
use celo_desktop_app.Service.Commands.{socket_ready_read}

-- `workers` is m_workers. `born` counts the connections, which never share an address while they
-- live.
pub record Server : Type 0 where
  pub manager : Manager
  pub listening : Bool
  pub workers : List Worker
  pub born : ℕ

-- The connection with that address, with those before and behind it.
unfoldable pub find_worker : ℕ → List Worker → Option (List Worker × Worker × List Worker)
find_worker id [] = none
find_worker id (w ∷ ws) =
    if w.id == id
    then some ([], w, ws)
    else maybe none (λ r. some (w ∷ r.0, r.1, r.2)) (find_worker id ws)

-- The constructor, and `listen` with its answer.
unfoldable pub create_server : Manager → Server
create_server raw = record { manager = create raw; listening = false; workers = []; born = 0 }

unfoldable pub start_server : Bool → Server → Server
start_server answer s = record s { listening = s.listening || answer }

-- close() leaves the connections that exist.
unfoldable pub stop_server : Server → Server
stop_server s = record s { listening = false }

-- incomingConnection, over what the memory of the new connection held.
unfoldable pub incoming_connection : Client → Server → Server
incoming_connection raw s = record s {
  workers = s.workers ++ (record { id = s.born; buffer = []; client = create_client raw } ∷ []);
  born = s.born + 1;
}

-- worker_destroyed: `removeAll`.
unfoldable pub remove_worker : ℕ → List Worker → List Worker
remove_worker id [] = []
remove_worker id (w ∷ ws) = if w.id == id then remove_worker id ws else w ∷ remove_worker id ws

unfoldable pub worker_destroyed : ℕ → Server → Server
worker_destroyed id s = record s { workers = remove_worker id s.workers }

-- What happens to the server. A connection is destroyed when its client has disconnected.
pub data ServerEvent : Type 0 where
  starts : Bool → ServerEvent
  stops : ServerEvent
  connects : Client → ServerEvent
  sends : ℕ → Text → ServerEvent
  leaves : ℕ → ServerEvent
  runs : Event → ServerEvent

module _ (env : Env) (json : Json) where
  unfoldable pub worker_reads : Text → List Worker × Worker × List Worker → Server → Server
  worker_reads bytes (before, w, after) s =
      let (buffer, t) =
        socket_ready_read env json bytes w.buffer
          (record { manager = s.manager; client = w.client; before = before; after = after }) in
      record s {
        manager = t.manager;
        workers = t.before ++ (record w { buffer = buffer; client = t.client } ∷ t.after);
      }

  -- An event of the manager: a service in which no connection runs has them all behind it.
  unfoldable pub manager_runs : Event → Server → Server
  manager_runs e s = record s {
    manager = (step env e (record s.manager { trace = [] })).1;
    workers =
        map (deliver_to json (step env e (record s.manager { trace = [] })).1.trace) s.workers;
  }

  unfoldable pub server_step : ServerEvent → Server → Server
  server_step (starts answer) s = start_server answer s
  server_step stops s = stop_server s
  server_step (connects raw) s = if s.listening then incoming_connection raw s else s
  server_step (sends id bytes) s = maybe s (λ r. worker_reads bytes r s) (find_worker id s.workers)
  server_step (leaves id) s = worker_destroyed id s
  server_step (runs e) s = manager_runs e s

  unfoldable pub server_run : List ServerEvent → Server → Server
  server_run [] s = s
  server_run (e ∷ es) s = server_run es (server_step e s)
