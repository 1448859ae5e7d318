-- ===== src/Auth/Pings.antt =====
-- The workers that ping the servers: pingAllServers, startWorker and the slots of PingWaiter
-- (celovpn/pingwaiter.cpp). A slot is given the ping that extractPing takes from the worker's output.
pub mod Progress
pub mod Once
pub mod Start
pub mod Account
pub mod Timers
use celo_desktop_app.Base.{
  ℕ, zero, suc, ◌-◌, Bool, true, false, ◌&&◌, Option, none, some, List, [], ◌∷◌, ◌++◌,
  if◌then◌else◌, ltb, is_empty, get_elem?, set, length, replicate,
}
use celo_desktop_app.Base.Int.{ℤ, negsuc}
use celo_desktop_app.Base.State.{get, skip, modify, ◌>>=◌, ◌>>◌}
use celo_desktop_app.Auth.Types.{Pings, A, start_ping, act}

abbrev pub ping_workers_num : ℕ
ping_workers_num = 5

-- 0, …, n - 1.
abbrev pub upto : ℕ → List ℕ
upto zero = []
upto (suc n) = upto n ++ (n ∷ [])

unfoldable pub crash : A (Unit {0})
crash = modify (λ m. record m { crashed = true })

unfoldable pub on_pings : (Pings → Pings) → A (Unit {0})
on_pings f = modify (λ m. record m { pings = f m.pings })

abbrev pub bump : Option ℕ → ℕ
bump none = 0
bump (some n) = suc n

-- Worker `id` takes server `srv`: a new process, and one more connection of the timer's timeout.
unfoldable pub take_server : ℕ → ℕ → Pings → Pings
take_server id srv p = record p {
  in_progress = set p.in_progress id srv;
  workers = set p.workers id true;
  timers = set p.timers id (bump (get_elem? p.timers id));
}

-- The first branch of startWorker, behind `pop`; `at` checks its bounds.
unfoldable pub ping_server : ℕ → ℕ → A (Unit {0})
ping_server id srv = do
  m ← get
  if ltb srv (length m.account.servers) && ltb id (length m.pings.in_progress)
      then (do on_pings (take_server id srv); act (start_ping id srv))
      else crash

unfoldable pub start_next : ℕ → List ℕ → A (Unit {0})
start_next id [] = on_pings (λ p. record p { loaded = true })
start_next id (srv ∷ rest) = do on_pings (λ p. record p { to_ping = rest }); ping_server id srv

unfoldable pub start_worker : ℕ → A (Unit {0})
start_worker id = do m ← get; start_next id m.pings.to_ping

-- `for (k; k < mWorkers.size() && !mToPing.empty(); ++k) startWorker(k)`, for so many `k`.
unfoldable pub start_workers : ℕ → ℕ → A (Unit {0})
start_workers zero k = skip
start_workers (suc n) k = do
  m ← get
  if is_empty m.pings.to_ping then skip else start_worker k >> start_workers n (suc k)

unfoldable pub make_workers : Pings → Pings
make_workers p =
    if is_empty p.workers
    then record p {
      workers = replicate ping_workers_num false;
      in_progress = replicate ping_workers_num 0;
      timers = replicate ping_workers_num 0;
    }
    else p

-- `while (mPings.size() < n) mPings.append(-1)`, and the queue.
unfoldable pub enqueue : ℕ → Pings → Pings
enqueue n p = record p {
  pings = p.pings ++ replicate (n - length p.pings) (negsuc 0);
  to_ping = p.to_ping ++ upto n;
}

unfoldable pub ping_all_servers : A (Unit {0})
ping_all_servers = do
  m ← get
  on_pings (enqueue (length m.account.servers))
  on_pings make_workers
  on_pings (λ p. record p { loaded = false })
  k ← get
  start_workers (length k.pings.workers) 0

unfoldable pub write_ping : ℤ → ℕ → Pings → Pings
write_ping v srv p = record p { pings = set p.pings srv v }

-- `mPings[mInProgress.at(id)] = p`.
unfoldable pub store_ping : ℤ → Option ℕ → A (Unit {0})
store_ping v none = crash
store_ping v (some srv) = do
  m ← get
  if ltb srv (length m.pings.pings) then on_pings (write_ping v srv) else crash

abbrev pub is_running : Option Bool → Bool
is_running none = false
is_running (some b) = b

-- pingError and pingTerminated: the process is used, the ping is stored, the worker goes on.
unfoldable pub ping_over : ℕ → ℤ → A (Unit {0})
ping_over id v = do
  m ← get
  if is_running (get_elem? m.pings.workers id)
      then store_ping v (get_elem? m.pings.in_progress id)
      else crash
  start_worker id

abbrev pub has_server : ℕ → Option ℕ → Bool
has_server n none = false
has_server n (some srv) = ltb srv n

-- pingComplete also reads the server's address.
unfoldable pub ping_complete : ℕ → ℤ → A (Unit {0})
ping_complete id v = do
  m ← get
  if has_server (length m.account.servers) (get_elem? m.pings.in_progress id) then skip else crash
  ping_over id v

-- The slots.
pub data PingEvent : Type 0 where
  completes errs terminates : ℕ → ℤ → PingEvent

abbrev pub worker_of : PingEvent → ℕ
worker_of (completes id v) = id
worker_of (errs id v) = id
worker_of (terminates id v) = id

unfoldable pub ping_event : PingEvent → A (Unit {0})
ping_event (completes id v) = ping_complete id v
ping_event (errs id v) = ping_over id v
ping_event (terminates id v) = ping_over id v

unfoldable pub ping_events : List PingEvent → A (Unit {0})
ping_events [] = skip
ping_events (e ∷ es) = ping_event e >> ping_events es

abbrev pub or_zero : Option ℕ → ℕ
or_zero none = 0
or_zero (some n) = n

unfoldable pub terminate_times : ℕ → ℕ → (ℕ → ℤ) → A (Unit {0})
terminate_times zero id out = skip
terminate_times (suc n) id out = ping_over id (out n) >> terminate_times n id out

-- The timeout of worker `id`'s timer: the slot is called once for each connection that there was
-- when the signal was emitted. `out` is what extractPing finds at each call.
unfoldable pub timer_fires : ℕ → (ℕ → ℤ) → A (Unit {0})
timer_fires id out = do m ← get; terminate_times (or_zero (get_elem? m.pings.timers id)) id out
