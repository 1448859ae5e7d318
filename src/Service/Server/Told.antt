-- ===== src/Service/Server/Told.antt =====
-- What the clients of the server know of the manager's state.
use celo_desktop_app.Base.{
  ℕ, ◌≤◌, ◌≡◌, refl, subst, false, Option, none, some, List, [], ◌∷◌, ◌++◌, ◌==◌, map, arith, All,
  Bool-cases, if-both, inl, inr,
}
use celo_desktop_app.Base.State.{maybe}
use celo_desktop_app.Base.Text.{Text}
use celo_desktop_app.Common.{VpnState}
use celo_desktop_app.Openvpn.Types.{Env}
use celo_desktop_app.Openvpn.Events.{Event, step}
use celo_desktop_app.Openvpn.Invariant.Events.{step-Inv, IsReported}
use celo_desktop_app.Service.Client.{Json, Client, Worker, create_client, deliver_to}
use celo_desktop_app.Service.Told.{Follows, Knows, deliver_to-Knows, socket_ready_read-InStep}
use celo_desktop_app.Service.Server.{
  Server, find_worker, start_server, stop_server, incoming_connection, remove_worker,
  worker_destroyed, ServerEvent, starts, stops, connects, sends, leaves, runs, worker_reads,
  manager_runs, server_step, server_run,
}

-- The process of the manager does not fail.
abbrev pub IsServed : ServerEvent → Type 0
IsServed (starts answer) = Unit {0}
IsServed stops = Unit {0}
IsServed (connects raw) = Unit {0}
IsServed (sends id bytes) = Unit {0}
IsServed (leaves id) = Unit {0}
IsServed (runs e) = IsReported e

All-parts {ℓ κ} :
    {A : Type ℓ} (P : A → Type κ) (xs : List A) (y : A) (ys : List A)
    → All P xs
    → P y
    → All P ys
    → All P (xs ++ (y ∷ ys))
All-parts P [] y ys h p k = (p, k)
All-parts P (x ∷ xs) y ys h p k = (h.0, All-parts P xs y ys h.1 p k)

-- The three parts have the property, if there are parts.
abbrev AllFound {κ} : (Worker → Type κ) → Option (List Worker × Worker × List Worker) → Type κ
AllFound P none = Unit
AllFound P (some (xs, y, ys)) = All P xs × P y × All P ys

AllFound-cons {κ} :
    (P : Worker → Type κ) (w : Worker)
    → P w
    → (o : Option (List Worker × Worker × List Worker)) → AllFound P o
    → AllFound P (maybe none (λ r. some (w ∷ r.0, r.1, r.2)) o)
AllFound-cons P w p none h = h
AllFound-cons P w p (some (xs, y, ys)) h = ((p, h.0), h.1, h.2)

find_worker-AllFound {κ} :
    (P : Worker → Type κ) (id : ℕ) (ws : List Worker) → All P ws → AllFound P (find_worker id ws)
unfolding find_worker
find_worker-AllFound P id [] h = tt
find_worker-AllFound P id (w ∷ ws) h = elim (Bool-cases (w.id == id)) [
  | inl e ↦ rw e (tt, h.0, h.1)
  | inr e ↦ rw e (AllFound-cons P w h.0 (find_worker id ws) (find_worker-AllFound P id ws h.1))
]

All-remove_worker {κ} :
    (P : Worker → Type κ) (id : ℕ) (ws : List Worker) → All P ws → All P (remove_worker id ws)
unfolding remove_worker
All-remove_worker P id [] h = tt
All-remove_worker P id (w ∷ ws) h = elim (Bool-cases (w.id == id)) [
  | inl e ↦ rw e (All-remove_worker P id ws h.1)
  | inr e ↦ rw e (h.0, All-remove_worker P id ws h.1)
]

module _ (json : Json) (Q : ℕ → Client → VpnState → Type 0) (laws : Follows json Q) (from : ℕ)
    (first : (id : ℕ) (raw : Client) (st : VpnState)
      → from ≤ id
      → Q id (create_client raw) st) where
  -- All connections know, later ones have an address from `from` on.
  pub record ServerInStep (s : Server) : Type 0 where
    pub told : All (Knows Q s.manager.state) s.workers
    pub born : from ≤ s.born
    pub no_obfsproxy : s.manager.obfsproxy ≡ false
    pub not_hung : s.manager.hung ≡ false

  incoming-ServerInStep :
      (raw : Client) (s : Server) → ServerInStep s → ServerInStep (incoming_connection raw s)
  unfolding incoming_connection
  incoming-ServerInStep raw s h = record {
    told = All-parts (Knows Q s.manager.state) s.workers _ [] h.told (first s.born raw _ h.born) tt;
    born = let b = h.born in omega arith;
    no_obfsproxy = h.no_obfsproxy;
    not_hung = h.not_hung;
  }

  module _ (env : Env) where
    reads-ServerInStep :
        (bytes : Text) (o : Option (List Worker × Worker × List Worker)) (s : Server)
        → AllFound (Knows Q s.manager.state) o
        → ServerInStep s
        → ServerInStep (maybe s (λ r. worker_reads env json bytes r s) o)
    unfolding worker_reads
    reads-ServerInStep bytes none s k h = h
    reads-ServerInStep bytes (some (before, w, after)) s k h =
        let t =
          (socket_ready_read-InStep json Q laws env w.id bytes w.buffer).at
            (record { manager = s.manager; client = w.client; before = before; after = after })
            (record {
              told = k.1;
              told_before = k.0;
              told_after = k.2;
              no_obfsproxy = h.no_obfsproxy;
              not_hung = h.not_hung;
            }) in
        record {
          told = All-parts (Knows Q _) _ _ _ t.told_before t.told t.told_after;
          born = h.born;
          no_obfsproxy = t.no_obfsproxy;
          not_hung = t.not_hung;
        }

    runs-ServerInStep :
        (e : Event)
        → IsReported e
        → (s : Server) → ServerInStep s
        → ServerInStep (manager_runs env json e s)
    unfolding manager_runs
    runs-ServerInStep e r s h =
        let after =
          (step-Inv env e r).at (record s.manager { trace = [] })
            (record { agrees = refl; no_obfsproxy = h.no_obfsproxy; not_hung = h.not_hung }) in
        let signals = (step env e (record s.manager { trace = [] })).1.trace in
        record {
          told =
              subst (λ (st : VpnState). All (Knows Q st) (map (deliver_to json signals) s.workers))
                after.agrees
                (deliver_to-Knows json Q laws signals s.manager.state s.workers h.told);
          born = h.born;
          no_obfsproxy = after.no_obfsproxy;
          not_hung = after.not_hung;
        }

    server_step-ServerInStep :
        (e : ServerEvent)
        → IsServed e
        → (s : Server) → ServerInStep s
        → ServerInStep (server_step env json e s)
    unfolding server_step start_server stop_server worker_destroyed
    server_step-ServerInStep (starts answer) r s h = record {
      told = h.told;
      born = h.born;
      no_obfsproxy = h.no_obfsproxy;
      not_hung = h.not_hung;
    }
    server_step-ServerInStep stops r s h = record {
      told = h.told;
      born = h.born;
      no_obfsproxy = h.no_obfsproxy;
      not_hung = h.not_hung;
    }
    server_step-ServerInStep (connects raw) r s h =
        if-both ServerInStep s.listening (incoming_connection raw s) s
          (incoming-ServerInStep raw s h) h
    server_step-ServerInStep (sends id bytes) r s h =
        reads-ServerInStep bytes (find_worker id s.workers) s
          (find_worker-AllFound (Knows Q s.manager.state) id s.workers h.told) h
    server_step-ServerInStep (leaves id) r s h = record {
      told = All-remove_worker (Knows Q s.manager.state) id s.workers h.told;
      born = h.born;
      no_obfsproxy = h.no_obfsproxy;
      not_hung = h.not_hung;
    }
    server_step-ServerInStep (runs e) r s h = runs-ServerInStep e r s h

    pub server_run-ServerInStep :
        (es : List ServerEvent)
        → All IsServed es
        → (s : Server) → ServerInStep s
        → ServerInStep (server_run env json es s)
    unfolding server_run
    server_run-ServerInStep [] r s h = h
    server_run-ServerInStep (e ∷ es) r s h =
        server_run-ServerInStep es r.1 (server_step env json e s)
          (server_step-ServerInStep e r.0 s h)
