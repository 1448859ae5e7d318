-- ===== src/Auth/Pings/Once.antt =====
-- The workers take the servers one after another: no access leaves the lists.
use celo_desktop_app.Base.{
  ℕ, zero, suc, ◌≤◌, ◌<◌, ◌≡◌, refl, sym, ap, ◌∙◌, Bool, true, false, ◌&&◌, Option, none, some,
  List, [], ◌∷◌, ◌++◌, arith, length, length-set, get_elem?, set, All, ltb, lt→ltb, ltb→lt,
  Bool-cases, inl, inr, append_assoc, subst,
}
use celo_desktop_app.Base.Int.{ℤ}
use celo_desktop_app.Base.State.{skip, if_true-holds}
use celo_desktop_app.Auth.Types.{
  Auth, AuthAction, act, login_completed, logout_completed, server_lists_loaded, login_error,
  old_ip_loaded, new_ip_loaded, send_credentials, fetch_servers, abort_reply, fetch_old_ip,
  start_ping,
}
use celo_desktop_app.Auth.Pings.{
  crash, is_running, has_server, on_pings, take_server, write_ping, ping_server, start_next,
  start_worker, store_ping, ping_over, ping_complete, PingEvent, completes, errs, terminates,
  worker_of, ping_event, ping_events, or_zero,
}

-- The servers whose pings were started, first one first.
unfoldable pub pinged : List AuthAction → List ℕ
pinged [] = []
pinged (start_ping id srv ∷ t) = pinged t ++ (srv ∷ [])
pinged (login_completed ∷ t) = pinged t
pinged (logout_completed ∷ t) = pinged t
pinged (server_lists_loaded ∷ t) = pinged t
pinged (login_error e ∷ t) = pinged t
pinged (old_ip_loaded e ∷ t) = pinged t
pinged (new_ip_loaded e ∷ t) = pinged t
pinged (send_credentials ∷ t) = pinged t
pinged (fetch_servers ∷ t) = pinged t
pinged (abort_reply ∷ t) = pinged t
pinged (fetch_old_ip ∷ t) = pinged t

-- The first `k` workers have a process.
abbrev pub Runs : ℕ → List Bool → Type 0
Runs k ws = (i : ℕ) → i < k → is_running (get_elem? ws i) ≡ true

-- The lists have their sizes, the indices are inside of them, the servers that were pinged and those
-- that wait make up `l`, and `k` workers have a process.
pub record Fits (l : List ℕ) (k : ℕ) (m : Auth) : Type 0 where
  pub pings : length m.account.servers ≤ length m.pings.pings
  pub queue : All (λ s. s < length m.account.servers) m.pings.to_ping
  pub busy : All (λ s. s < length m.account.servers) m.pings.in_progress
  pub in_progress : length m.pings.in_progress ≡ 5
  pub workers : length m.pings.workers ≡ 5
  pub runs : Runs k m.pings.workers
  pub order : pinged m.trace ++ m.pings.to_ping ≡ l
  pub alive : m.crashed ≡ false

All-set :
    (n : ℕ) (xs : List ℕ) (i v : ℕ) → All (λ s. s < n) xs → v < n → All (λ s. s < n) (set xs i v)
All-set n [] i v h b = tt
All-set n (x ∷ xs) zero v h b = (b, h.1)
All-set n (x ∷ xs) (suc i) v h b = (h.0, All-set n xs i v h.1 b)

set-runs :
    (ws : List Bool) (i j : ℕ)
    → is_running (get_elem? ws j) ≡ true
    → is_running (get_elem? (set ws i true) j) ≡ true
set-runs [] i j h = h
set-runs (w ∷ ws) zero zero h = refl
set-runs (w ∷ ws) zero (suc j) h = h
set-runs (w ∷ ws) (suc i) zero h = h
set-runs (w ∷ ws) (suc i) (suc j) h = set-runs ws i j h

set_self-runs :
    (ws : List Bool) (i : ℕ) → i < length ws → is_running (get_elem? (set ws i true) i) ≡ true
set_self-runs [] i h = elim h [ ]
set_self-runs (w ∷ ws) zero h = refl
set_self-runs (w ∷ ws) (suc i) h = set_self-runs ws i (omega arith)

get_elem?-All :
    (n : ℕ) (xs : List ℕ) (i : ℕ)
    → All (λ s. s < n) xs
    → i < length xs
    → (s : ℕ) × (get_elem? xs i ≡ some s) × (s < n)
get_elem?-All n [] i h b = elim b [ ]
get_elem?-All n (x ∷ xs) zero h b = (x, refl, h.0)
get_elem?-All n (x ∷ xs) (suc i) h b = get_elem?-All n xs i h.1 (omega arith)

runs-lt : (ws : List Bool) (i : ℕ) → is_running (get_elem? ws i) ≡ true → i < length ws
runs-lt [] i h = absurd (cc h)
runs-lt (w ∷ ws) zero h = omega arith
runs-lt (w ∷ ws) (suc i) h = let k = runs-lt ws i h in omega arith

set-Runs : (k : ℕ) (ws : List Bool) (i : ℕ) → Runs k ws → Runs k (set ws i true)
set-Runs k ws i h j b = set-runs ws i j (h j b)

pub set_next-Runs :
    (k : ℕ) (ws : List Bool) → k < length ws → Runs k ws → Runs (suc k) (set ws k true)
set_next-Runs k ws b h j c = elim (Bool-cases (ltb j k)) [
  | inl lt ↦ set-runs ws k j (h j (ltb→lt j k lt))
  | inr ge ↦
      let e : j ≡ k = ground arith in
      subst (λ i. is_running (get_elem? (set ws k true) i) ≡ true) (sym e) (set_self-runs ws k b)
]

module _ {l : List ℕ} {k : ℕ} where
  pub ping_server-Fits :
      (next id srv : ℕ) (rest : List ℕ) (m : Auth)
      → id < 5
      → m.pings.to_ping ≡ srv ∷ rest
      → Fits l k m
      → Runs next (set m.pings.workers id true)
      → Fits l next (ping_server id srv (record m { pings = record m.pings { to_ping = rest } })).1
  unfolding ping_server on_pings take_server act pinged
  ping_server-Fits next id srv rest m b e h runs =
      let (lt, queue) = subst (All (λ s. s < length m.account.servers)) e h.queue in
      if_true-holds (Fits l next) _ _ _ _
        (ap (λ (c : Bool). c && ltb id (length m.pings.in_progress))
            (lt→ltb srv (length m.account.servers) lt)
          ∙ lt→ltb id (length m.pings.in_progress) (omega (arith, h.in_progress)))
        (record {
          pings = h.pings;
          queue = queue;
          busy = All-set (length m.account.servers) m.pings.in_progress id srv h.busy lt;
          in_progress = length-set m.pings.in_progress id srv ∙ h.in_progress;
          workers = length-set m.pings.workers id true ∙ h.workers;
          runs = runs;
          order =
              append_assoc (pinged m.trace) (srv ∷ []) rest
              ∙ (ap (λ (q : List ℕ). pinged m.trace ++ q) (sym e) ∙ h.order);
          alive = h.alive;
        })

  -- A worker that goes on.
  start_next-Fits :
      (id : ℕ) (q : List ℕ) (m : Auth)
      → id < 5
      → m.pings.to_ping ≡ q
      → Fits l k m
      → Fits l k (start_next id q m).1
  unfolding start_next on_pings
  start_next-Fits id [] m b e h = record {
    pings = h.pings;
    queue = h.queue;
    busy = h.busy;
    in_progress = h.in_progress;
    workers = h.workers;
    runs = h.runs;
    order = h.order;
    alive = h.alive;
  }
  start_next-Fits id (srv ∷ rest) m b e h =
      ping_server-Fits k id srv rest m b e h (set-Runs k m.pings.workers id h.runs)

  start_worker-Fits : (id : ℕ) (m : Auth) → id < 5 → Fits l k m → Fits l k (start_worker id m).1
  unfolding start_worker
  start_worker-Fits id m b h = start_next-Fits id m.pings.to_ping m b refl h

  store_ping-Fits :
      (v : ℤ) (o : Option ℕ) (srv : ℕ) (m : Auth)
      → o ≡ some srv
      → srv < length m.account.servers
      → Fits l k m
      → Fits l k (store_ping v o m).1
  unfolding store_ping on_pings write_ping
  store_ping-Fits v none srv m e b h = absurd (cc e)
  store_ping-Fits v (some s) srv m e b h =
      let f : s ≡ srv = ap (λ o. or_zero o) e in
      if_true-holds (Fits l k) _ _ _ _
        (lt→ltb s (length m.pings.pings) (let c = h.pings in omega (arith, f, b, c)))
        (record {
          pings = rw (length-set m.pings.pings s v) h.pings;
          queue = h.queue;
          busy = h.busy;
          in_progress = h.in_progress;
          workers = h.workers;
          runs = h.runs;
          order = h.order;
          alive = h.alive;
        })

  ping_over-Fits : (id : ℕ) (v : ℤ) (m : Auth) → id < k → Fits l k m → Fits l k (ping_over id v m).1
  unfolding ping_over
  ping_over-Fits id v m b h =
      let running = h.runs id b in
      let lt : id < 5 =
        (let c = runs-lt m.pings.workers id running in omega (arith, c, h.workers)) in
      let (srv, found, inside) =
        get_elem?-All (length m.account.servers) m.pings.in_progress id h.busy
          (omega (arith, lt, h.in_progress)) in
      start_worker-Fits id _ lt (
        if_true-holds (Fits l k) _ (store_ping v (get_elem? m.pings.in_progress id)) crash m running
          (store_ping-Fits v (get_elem? m.pings.in_progress id) srv m found inside h))

  ping_complete-Fits :
      (id : ℕ) (v : ℤ) (m : Auth) → id < k → Fits l k m → Fits l k (ping_complete id v m).1
  unfolding ping_complete
  ping_complete-Fits id v m b h =
      let lt : id < 5 =
        (let c = runs-lt m.pings.workers id (h.runs id b) in omega (arith, c, h.workers)) in
      let (srv, found, inside) =
        get_elem?-All (length m.account.servers) m.pings.in_progress id h.busy
          (omega (arith, lt, h.in_progress)) in
      ping_over-Fits id v _ b (
        if_true-holds (Fits l k) _ skip crash m
          (ap (has_server (length m.account.servers)) found
            ∙ lt→ltb srv (length m.account.servers) inside)
          h)

  ping_event-Fits :
      (e : PingEvent) (m : Auth) → worker_of e < k → Fits l k m → Fits l k (ping_event e m).1
  unfolding ping_event
  ping_event-Fits (completes id v) m b h = ping_complete-Fits id v m b h
  ping_event-Fits (errs id v) m b h = ping_over-Fits id v m b h
  ping_event-Fits (terminates id v) m b h = ping_over-Fits id v m b h

  pub ping_events-Fits :
      (es : List PingEvent) (m : Auth)
      → All (λ e. worker_of e < k) es
      → Fits l k m
      → Fits l k (ping_events es m).1
  unfolding ping_events
  ping_events-Fits [] m b h = h
  ping_events-Fits (e ∷ es) m b h =
      ping_events-Fits es (ping_event e m).1 b.1 (ping_event-Fits e m b.0 h)
