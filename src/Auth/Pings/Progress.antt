-- ===== src/Auth/Pings/Progress.antt =====
-- The workers come to an end: how many slots are called before mPingsLoaded is set.
use celo_desktop_app.Base.{
  ℕ, Bool, suc, ◌<◌, ◌≡◌, refl, ap, true, Option, none, some, List, [], ◌∷◌, arith, length,
  get_elem?, ◌⊎◌, inl, inr, if◌then◌else◌,
}
use celo_desktop_app.Base.Int.{ℤ}
use celo_desktop_app.Base.State.{Keeps, keeps_rules, get, skip, ◌>>=◌}
use celo_desktop_app.Auth.Types.{Auth, AuthAction, act}
use celo_desktop_app.Auth.Pings.{
  crash, is_running, has_server, on_pings, take_server, write_ping, ping_server, start_next,
  start_worker, store_ping, ping_over, ping_complete, PingEvent, completes, errs, terminates,
  ping_event, ping_events,
}

-- A predicate on the flag and the queue.
abbrev pub Waits : (Bool → List ℕ → Type 0) → Auth → Type 0
Waits P m = P m.pings.loaded m.pings.to_ping

-- The pings count as loaded and no server waits, or fewer than `n` servers wait.
abbrev pub Reached : ℕ → Bool → List ℕ → Type 0
Reached n loaded q = ((loaded ≡ true) × (q ≡ [])) ⊎ (length q < n)

abbrev pub Left : ℕ → Auth → Type 0
Left n = Waits (Reached n)

module _ (P : Bool → List ℕ → Type 0) where
  crash-Waits : Keeps (Waits P) crash
  unfolding crash
  crash-Waits = record { at = λ m h. h }

  take_server-Waits : (id srv : ℕ) → Keeps (Waits P) (on_pings (take_server id srv))
  unfolding on_pings take_server
  take_server-Waits id srv = record { at = λ m h. h }

  act-Waits : (a : AuthAction) → Keeps (Waits P) (act a)
  unfolding act
  act-Waits a = record { at = λ m h. h }

  pub ping_server-Waits : (id srv : ℕ) → Keeps (Waits P) (ping_server id srv)
  unfolding ping_server
  ping_server-Waits id srv =
      search (keeps_rules, crash-Waits, take_server-Waits, act-Waits) depth 14

  write_ping-Waits : (v : ℤ) (srv : ℕ) → Keeps (Waits P) (on_pings (write_ping v srv))
  unfolding on_pings write_ping
  write_ping-Waits v srv = record { at = λ m h. h }

  store_ping-Waits : (v : ℤ) (o : Option ℕ) → Keeps (Waits P) (store_ping v o)
  unfolding store_ping
  store_ping-Waits v none = crash-Waits
  store_ping-Waits v (some srv) = search (keeps_rules, crash-Waits, write_ping-Waits) depth 14

  pub stored-Waits :
      (id : ℕ) (v : ℤ)
      → Keeps (Waits P) (
          get >>= λ k.
          if is_running (get_elem? k.pings.workers id)
          then store_ping v (get_elem? k.pings.in_progress id)
          else crash)
  stored-Waits id v = search (keeps_rules, crash-Waits, store_ping-Waits) depth 14

  looked-Waits :
      (id : ℕ)
      → Keeps (Waits P) (
          get >>= λ k.
          if has_server (length k.account.servers) (get_elem? k.pings.in_progress id)
          then skip
          else crash)
  looked-Waits id = search (keeps_rules, crash-Waits) depth 14

module _ {n : ℕ} where
  start_next-Left :
      (id : ℕ) (l : List ℕ) (m : Auth)
      → m.pings.to_ping ≡ l
      → Left (suc n) m
      → Left n (start_next id l m).1
  unfolding start_next on_pings
  start_next-Left id [] m e h = inl (refl, e)
  start_next-Left id (srv ∷ rest) m e h = (ping_server-Waits (Reached n) id srv).at _ (elim h [
    | inl (_, f) ↦ absurd (cc (e, f))
    | inr b ↦
        inr
          (let k : length m.pings.to_ping ≡ suc (length rest) = ap length e in omega (arith, k, b))
  ])

  pub start_worker-Left : (id : ℕ) (m : Auth) → Left (suc n) m → Left n (start_worker id m).1
  unfolding start_worker
  start_worker-Left id m h = start_next-Left id m.pings.to_ping m refl h

module _ {n : ℕ} where
  ping_over-Left : (id : ℕ) (v : ℤ) (m : Auth) → Left (suc n) m → Left n (ping_over id v m).1
  unfolding ping_over
  ping_over-Left id v m h = start_worker-Left id _ ((stored-Waits (Reached (suc n)) id v).at m h)

  ping_complete-Left :
      (id : ℕ) (v : ℤ) (m : Auth) → Left (suc n) m → Left n (ping_complete id v m).1
  unfolding ping_complete
  ping_complete-Left id v m h = ping_over-Left id v _ ((looked-Waits (Reached (suc n)) id).at m h)

  ping_event-Left : (e : PingEvent) (m : Auth) → Left (suc n) m → Left n (ping_event e m).1
  unfolding ping_event
  ping_event-Left (completes id v) m h = ping_complete-Left id v m h
  ping_event-Left (errs id v) m h = ping_over-Left id v m h
  ping_event-Left (terminates id v) m h = ping_over-Left id v m h

pub ping_events-Left :
    (es : List PingEvent) (m : Auth) → Left (length es) m → Left 0 (ping_events es m).1
unfolding ping_events
ping_events-Left [] m h = h
ping_events-Left (e ∷ es) m h = ping_events-Left es (ping_event e m).1 (ping_event-Left e m h)

-- When more slots of the waiters are called than servers wait to be pinged, the pings count as loaded at the end and no server waits.
pub ping_events_loaded :
    (es : List PingEvent) (m : Auth)
    → length m.pings.to_ping < length es
    → ((ping_events es m).1.pings.loaded ≡ true) × ((ping_events es m).1.pings.to_ping ≡ [])
ping_events_loaded es m h = elim (ping_events-Left es m (inr h)) [
  | inl done ↦ done
  | inr b ↦ elim b [ ]
]
