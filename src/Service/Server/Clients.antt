-- ===== src/Service/Server/Clients.antt =====
-- What the clients of a new server are told.
use celo_desktop_app.Base.{
  ℕ, ◌<◌, ◌≡◌, ◌≢◌, refl, List, [], ◌∷◌, ltb, arith, All, Bool-cases, inl, inr, ◌⊎◌, keep,
}
use celo_desktop_app.Common.{VpnState, disconnected}
use celo_desktop_app.Openvpn.Types.{Env, Manager, create}
use celo_desktop_app.Service.Client.{Json, Client, Worker}
use celo_desktop_app.Service.Told.{Follows, states-Follows, Knows}
use celo_desktop_app.Service.Server.Heard.{
  Heard, heard-Follows, create_client-Heard, disconnected-Heard,
}
use celo_desktop_app.Service.Server.{create_server, ServerEvent, server_run}
use celo_desktop_app.Service.Server.Told.{IsServed, ServerInStep, server_run-ServerInStep}

-- The connections with an address below `n` hold the manager's state.
abbrev Earlier : ℕ → ℕ → Client → VpnState → Type 0
Earlier n id c st = id < n → c.state ≡ st

Earlier-Follows : (json : Json) (n : ℕ) → Follows json (Earlier n)
Earlier-Follows json n = states-Follows json (λ id a b. id < n → a ≡ b) (λ id st lt. refl)

-- They hold it, or it is still `old`.
abbrev Renewed : VpnState → ℕ → ℕ → VpnState → VpnState → Type 0
Renewed old n id a b = id < n → (a ≡ b) ⊎ (b ≡ old)

Renewed-Follows :
    (json : Json) (old : VpnState) (n : ℕ) → Follows json (λ id c st. Renewed old n id c.state st)
Renewed-Follows json old n = states-Follows json (Renewed old n) (λ id st lt. inl refl)

Renewed-Earlier :
    (old : VpnState) (n : ℕ) {st : VpnState} (ws : List Worker)
    → st ≢ old
    → All (Knows (λ id c b. Renewed old n id c.state b) st) ws
    → All (Knows (Earlier n) st) ws
Renewed-Earlier old n [] e h = tt
Renewed-Earlier old n (w ∷ ws) e h = (
  λ lt. elim (h.0 lt) [ inl same ↦ same | inr still ↦ absurd (e still) ],
  Renewed-Earlier old n ws e h.1,
)

still_old :
    (old : VpnState) (n : ℕ) (ws : List Worker)
    → All (Knows (λ id c b. Renewed old n id c.state b) old) ws
still_old old n [] = tt
still_old old n (w ∷ ws) = (λ _. inr refl, still_old old n ws)

Heard-Earlier :
    (json : Json) (n : ℕ) {st : VpnState} (ws : List Worker)
    → st ≡ disconnected
    → All (Knows (λ id c b. Heard json c b) st) ws
    → All (Knows (Earlier n) st) ws
Heard-Earlier json n [] e h = tt
Heard-Earlier json n (w ∷ ws) e h =
    (λ _. disconnected-Heard json w.client _ e h.0, Heard-Earlier json n ws e h.1)

Earlier-keep :
    (n : ℕ) (st : VpnState) (ws : List Worker)
    → All (Knows (Earlier n) st) ws
    → All (λ w. w.client.state ≡ st) (keep (λ w. ltb w.id n) ws)
Earlier-keep n st [] h = tt
Earlier-keep n st (w ∷ ws) h = elim (Bool-cases (ltb w.id n)) [
  | inl e ↦ rw e ((h.0) (ground arith), Earlier-keep n st ws h.1)
  | inr e ↦ rw e (Earlier-keep n st ws h.1)
]

module _ (env : Env) (json : Json) (raw : Manager) (es : List ServerEvent)
    (r : All IsServed es) where
  server_run-Heard :
      ServerInStep json
        (λ id c st. Heard json c st)
        (heard-Follows json)
        0
        (λ id c st h. create_client-Heard json c st)
        (server_run env json es (create_server raw))
  unfolding create_server create
  server_run-Heard =
      server_run-ServerInStep json (λ id c st. Heard json c st) (heard-Follows json) 0
        (λ id c st h. create_client-Heard json c st) env es r _
        (record { told = tt; born = omega arith; no_obfsproxy = refl; not_hung = refl })

  -- Any number of clients that connect to a new server, send any bytes and leave, and any events of
  -- the manager but a failure to run the process, in any order: what each connection has sent to its
  -- client are the lines of messages, the last status among them names the state that the connection
  -- holds (`disconnected` where there is none), and this is the manager's state, or the client has
  -- not been told of any state but `disconnected`.
  pub server_run_current :
      let s = server_run env json es (create_server raw) in
      All (λ w. Heard json w.client s.manager.state) s.workers
  server_run_current = server_run-Heard.told

  -- Where the manager of a new server is disconnected after any events but a failure to run the
  -- process, every client that is connected then holds the manager's state after all further such
  -- events, for as long as it stays, whatever other clients connect, send or leave.
  pub server_run_earlier :
      (server_run env json es (create_server raw)).manager.state ≡ disconnected
      → (fs : List ServerEvent) → All IsServed fs
      → let s = server_run env json es (create_server raw) in
        let t = server_run env json fs s in
        All (λ w. w.client.state ≡ t.manager.state) (keep (λ w. ltb w.id s.born) t.workers)
  server_run_earlier e fs q =
      let s = server_run env json es (create_server raw) in
      let h = server_run-Heard in
      Earlier-keep s.born _ _
        (server_run-ServerInStep json (Earlier s.born) (Earlier-Follows json s.born) s.born
          (λ id c st le lt. absurd (omega arith)) env fs q s
          (record {
            told = Heard-Earlier json s.born s.workers e h.told;
            born = omega arith;
            no_obfsproxy = h.no_obfsproxy;
            not_hung = h.not_hung;
          })).told

  -- After any events of a new server but a failure to run the process: where the manager's state has
  -- become another after further such events, every client that was connected before them and has
  -- stayed holds this state.
  pub server_run_changed :
      (fs : List ServerEvent)
      → All IsServed fs
      → let s = server_run env json es (create_server raw) in
        let t = server_run env json fs s in
        t.manager.state ≢ s.manager.state
        → All (λ w. w.client.state ≡ t.manager.state) (keep (λ w. ltb w.id s.born) t.workers)
  server_run_changed fs q changed =
      let s = server_run env json es (create_server raw) in
      let h = server_run-Heard in
      let old = s.manager.state in
      Earlier-keep s.born _ _ (
        Renewed-Earlier old s.born _ changed
          (server_run-ServerInStep json (λ id c st. Renewed old s.born id c.state st)
            (Renewed-Follows json old s.born) s.born (λ id c st le lt. absurd (omega arith)) env fs
            q s
            (record {
              told = still_old old s.born s.workers;
              born = omega arith;
              no_obfsproxy = h.no_obfsproxy;
              not_hung = h.not_hung;
            })).told)
