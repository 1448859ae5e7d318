-- ===== src/Auth/Pings/Start.antt =====
-- pingAllServers from the first start on, and the slots that follow.
use celo_desktop_app.Base.{
  ℕ, zero, suc, ◌+◌, ◌-◌, ◌≤◌, ◌<◌, ◌≡◌, refl, sym, ap, ◌∙◌, true, false, List, [], ◌∷◌, ◌++◌,
  arith, length, length-append, length-replicate, All, append-nil, replicate, is_empty,
  is_empty-length, filled-length, min, subst, inl, inr, Bool-cases,
}
use celo_desktop_app.Base.Int.{negsuc}
use celo_desktop_app.Base.State.{◌>>◌}
use celo_desktop_app.Auth.Types.{Auth, Pings}
use celo_desktop_app.Auth.Pings.{
  on_pings, make_workers, enqueue, ping_workers_num, ping_all_servers, start_next, start_worker,
  start_workers, PingEvent, worker_of, ping_events, upto,
}
use celo_desktop_app.Auth.Pings.Progress.{
  Left, ping_server-Waits, start_worker-Left, ping_events-Left,
}
use celo_desktop_app.Auth.Pings.Once.{
  pinged, Fits, ping_server-Fits, set_next-Runs, ping_events-Fits,
}

start_workers-Left :
    (n j k : ℕ) (m : Auth) → Left (n + suc j) m → Left (suc j) (start_workers n k m).1
unfolding start_workers
start_workers-Left zero j k m h = elim h [ inl done ↦ inl done | inr b ↦ inr (omega (arith, b)) ]
start_workers-Left (suc n) j k m h = elim (Bool-cases (is_empty m.pings.to_ping)) [
  | inl e ↦ rw e (elim h [
    | inl done ↦ inl done
    | inr b ↦ inr (omega (arith, is_empty-length m.pings.to_ping e))
  ])
  | inr e ↦ rw e (
      start_workers-Left n j (suc k) (start_worker k m).1
        (start_worker-Left {n = n + suc j} k m (subst (λ t. Left t m) (omega arith) h)))
]

weaken : {l : List ℕ} {m : Auth} (j k : ℕ) → j ≤ k → Fits l k m → Fits l j m
weaken j k b h = record {
  pings = h.pings;
  queue = h.queue;
  busy = h.busy;
  in_progress = h.in_progress;
  workers = h.workers;
  runs = λ i c. h.runs i (omega (arith, b, c));
  order = h.order;
  alive = h.alive;
}

module _ {l : List ℕ} where
  start_next_lem :
      (k : ℕ) (q : List ℕ) (m : Auth)
      → k < 5
      → m.pings.to_ping ≡ q
      → 0 < length q
      → Fits l k m
      → Fits l (suc k) (start_next k q m).1
  unfolding start_next on_pings
  start_next_lem k [] m b e c h = elim c [ ]
  start_next_lem k (srv ∷ rest) m b e c h =
      ping_server-Fits (suc k) k srv rest m b e h
        (set_next-Runs k m.pings.workers (omega (arith, b, h.workers)) h.runs)

  started :
      (k : ℕ) (m : Auth)
      → k < 5
      → 0 < length m.pings.to_ping
      → Fits l k m
      → Fits l (suc k) (start_worker k m).1
  unfolding start_worker
  started k m b c h = start_next_lem k m.pings.to_ping m b refl c h

-- 0, …, n - 1 are below every greater bound.
upto-All : (n b : ℕ) → n ≤ b → All (λ s. s < b) (upto n)
upto-All zero b h = tt
upto-All (suc n) b h = All-snoc (upto n) n b (upto-All n b (omega (arith, h))) h
  where
    All-snoc :
        (xs : List ℕ) (v b : ℕ) → All (λ s. s < b) xs → v < b → All (λ s. s < b) (xs ++ (v ∷ []))
    All-snoc [] v b h c = (c, tt)
    All-snoc (x ∷ xs) v b h c = (h.0, All-snoc xs v b h.1 c)

length-upto : (n : ℕ) → length (upto n) ≡ n
length-upto zero = refl
length-upto (suc n) = omega (arith, length-append {0} (upto n) (n ∷ []), length-upto n)

-- A worker takes one server from the queue.
start_next-queue :
    (k : ℕ) (q : List ℕ) (m : Auth)
    → m.pings.to_ping ≡ q
    → length (start_next k q m).1.pings.to_ping ≡ length q - 1
unfolding start_next on_pings
start_next-queue k [] m e = ap length e
start_next-queue k (srv ∷ rest) m e =
    (ping_server-Waits (λ loaded q. length q ≡ suc (length rest) - 1) k srv).at _ (omega arith)

pub start_worker-queue :
    (k : ℕ) (m : Auth) → length (start_worker k m).1.pings.to_ping ≡ length m.pings.to_ping - 1
unfolding start_worker
start_worker-queue k m = start_next-queue k m.pings.to_ping m refl

module _ {l : List ℕ} where
  start_workers-Fits :
      (n j k : ℕ) (m : Auth)
      → j ≤ n
      → k + n ≤ 5
      → j ≤ length m.pings.to_ping
      → Fits l k m
      → Fits l (k + j) (start_workers n k m).1
  unfolding start_workers
  start_workers-Fits zero j k m b c d h = weaken (k + j) k (omega (arith, b)) h
  start_workers-Fits (suc n) j k m b c d h = elim (Bool-cases (is_empty m.pings.to_ping)) [
    | inl e ↦ rw e (weaken (k + j) k (omega (arith, d, is_empty-length m.pings.to_ping e)) h)
    | inr e ↦ rw e (
        weaken (k + j) (suc k + (j - 1)) (omega arith) (
          start_workers-Fits n (j - 1) (suc k) (start_worker k m).1 (omega (arith, b))
            (omega (arith, c)) (omega (arith, d, start_worker-queue k m))
            (started k m (omega (arith, c)) (filled-length m.pings.to_ping e) h)))
  ]

-- No worker was ever made, no server waits and nothing has failed.
pub record IsFresh (m : Auth) : Type 0 where
  pub no_workers : is_empty m.pings.workers ≡ true
  pub no_queue : m.pings.to_ping ≡ []
  pub alive : m.crashed ≡ false

-- The state before the workers are started.
prepared : Auth → Auth
prepared m = record m {
  pings = record (make_workers (enqueue (length m.account.servers) m.pings)) { loaded = false };
}

made : Pings → Pings
made p = record p {
  workers = replicate ping_workers_num false;
  in_progress = replicate ping_workers_num 0;
  timers = replicate ping_workers_num 0;
}

make_workers-made : (p : Pings) → is_empty p.workers ≡ true → make_workers p ≡ made p
unfolding make_workers made
make_workers-made p e = rw e refl

replicate-All : (n k : ℕ) → 0 < n → All (λ s. s < n) (replicate k 0)
replicate-All n zero h = tt
replicate-All n (suc k) h = (h, replicate-All n k h)

prepared-Fits :
    (m : Auth)
    → 0 < length m.account.servers
    → IsFresh m
    → Fits (pinged m.trace ++ upto (length m.account.servers)) 0 (prepared m)
unfolding prepared enqueue made
prepared-Fits m b h =
    let n : ℕ = length m.account.servers in
    let queue : m.pings.to_ping ++ upto n ≡ upto n = ap (λ q. q ++ upto n) h.no_queue in
    subst
      (λ (p : Pings).
        Fits (pinged m.trace ++ upto n) 0 (record m { pings = record p { loaded = false } }))
      (sym (make_workers-made (enqueue n m.pings) h.no_workers))
      (record {
        pings = omega (
          arith,
          length-append {0} m.pings.pings (replicate (n - length m.pings.pings) (negsuc 0)),
          length-replicate {0} (n - length m.pings.pings) (negsuc 0),
        );
        queue = subst (All (λ s. s < n)) (sym queue) (upto-All n n (omega arith));
        busy = replicate-All n 5 b;
        in_progress = refl;
        workers = refl;
        runs = λ i c. elim c [ ];
        order = ap (λ (q : List ℕ). pinged m.trace ++ q) queue;
        alive = h.alive;
      })

ping_all_servers_start :
    (m : Auth)
    → 0 < length m.account.servers
    → IsFresh m
    → ping_all_servers m ≡ start_workers 5 0 (prepared m)
unfolding prepared ping_all_servers on_pings
ping_all_servers_start m b h =
    ap (λ n. start_workers n 0 (prepared m)) (prepared-Fits m b h).workers

-- The queue of a first start.
prepared-queue :
    (m : Auth) → IsFresh m → length (prepared m).pings.to_ping ≡ length m.account.servers
unfolding prepared enqueue made
prepared-queue m h =
    let n : ℕ = length m.account.servers in
    ap (λ (p : Pings). length p.to_ping) (make_workers-made (enqueue n m.pings) h.no_workers)
    ∙ (ap (λ q. length (q ++ upto n)) h.no_queue ∙ length-upto n)

finished : (m : Auth) → Left 0 m → (m.pings.loaded ≡ true) × (m.pings.to_ping ≡ [])
finished m (inl done) = done
finished m (inr b) = elim b [ ]

at_end : {p q l : List ℕ} → q ≡ [] → p ++ q ≡ l → p ≡ l
at_end {p = p} e h = sym (append-nil p) ∙ (ap (λ q. p ++ q) (sym e) ∙ h)

-- No access failed, the pings count as loaded and the servers `l` were pinged.
abbrev pub Ended : List ℕ → Auth → Type 0
Ended l k = (k.crashed ≡ false) × (k.pings.loaded ≡ true) × (pinged k.trace ≡ l)

-- When pingAllServers is called on n > 0 servers, with no workers and an empty queue before it and no
-- failed access, and then at least one and more than n - 5 slots are called, each of a worker below
-- 5 and below n, then no access fails, the pings count as loaded at the end, and the servers
-- that were pinged since are all n of them, once each and in the list's order.
pub ping_all_servers_lem :
    (m : Auth) (es : List PingEvent)
    → 0 < length m.account.servers
    → length m.account.servers < length es + 5
    → 0 < length es
    → All (λ e. worker_of e < min 5 (length m.account.servers)) es
    → IsFresh m
    → Ended
        (pinged m.trace ++ upto (length m.account.servers))
        ((ping_all_servers >> ping_events es) m).1
ping_all_servers_lem m es some_server enough called ids fresh =
    let n : ℕ = length m.account.servers in
    let queue = prepared-queue m fresh in
    let started =
      start_workers-Fits 5 (min 5 n) 0 (prepared m) (omega arith) (omega arith)
        (omega (arith, queue)) (prepared-Fits m some_server fresh) in
    let fits = ping_events-Fits es _ ids (weaken (min 5 n) (0 + min 5 n) (omega arith) started) in
    let left = ping_events-Left es _ (
      subst (λ t. Left t (start_workers 5 0 (prepared m)).1) (omega arith)
        (start_workers-Left 5 (length es - 1) 0 (prepared m)
          (inr (omega (arith, queue, enough, called))))) in
    let done = finished (ping_events es (start_workers 5 0 (prepared m)).1).1 left in
    subst (λ (r : Unit {0} × Auth). Ended (pinged m.trace ++ upto n) (ping_events es r.1).1)
      (sym (ping_all_servers_start m some_server fresh))
      (fits.alive, done.0, at_end done.1 fits.order)
