-- ===== src/Auth/Pings/Account.antt =====
-- What the workers' operations leave alone: the account, and an access that has failed.
use celo_desktop_app.Base.{
  arith, ℕ, zero, suc, Bool, true, false, Option, none, some, List, [], ◌∷◌, is_empty,
  if◌then◌else◌, length, get_elem?, ◌≡◌, refl, ltb, subst, sym,
}
use celo_desktop_app.Base.Int.{ℤ}
use celo_desktop_app.Base.State.{
  Keeps, Keeps-skip, Keeps-bind, Keeps-if, Keeps-get, keeps_rules, skip, ◌>>◌,
}
use celo_desktop_app.Auth.Types.{AServer, Account, Pings, Auth, AuthAction, act}
use celo_desktop_app.Auth.Pings.{
  on_pings, crash, ping_server, start_next, start_worker, start_workers, ping_all_servers,
  has_server, ping_complete, ping_over, store_ping,
}

module _ (P : Account → Bool → Type 0) (fails : (a : Account) (b : Bool) → P a b → P a true) where
  abbrev pub OfAccount : Auth → Type 0
  OfAccount m = P m.account m.crashed

  crash-account : Keeps OfAccount crash
  unfolding crash
  crash-account = record { at = λ m h. fails m.account m.crashed h }

  on_pings-account : (f : Pings → Pings) → Keeps OfAccount (on_pings f)
  unfolding on_pings
  on_pings-account f = record { at = λ m h. h }

  act-account : (a : AuthAction) → Keeps OfAccount (act a)
  unfolding act
  act-account a = record { at = λ m h. h }

  ruleset account_rules = (keeps_rules, crash-account, on_pings-account, act-account)

  ping_server-account : (id srv : ℕ) → Keeps OfAccount (ping_server id srv)
  unfolding ping_server
  ping_server-account id srv = search account_rules depth 14

  start_next-account : (id : ℕ) (q : List ℕ) → Keeps OfAccount (start_next id q)
  unfolding start_next
  start_next-account id [] = search account_rules depth 14
  start_next-account id (srv ∷ rest) = search (account_rules, ping_server-account) depth 14

  start_worker-account : (id : ℕ) → Keeps OfAccount (start_worker id)
  unfolding start_worker
  start_worker-account id = search (account_rules, start_next-account) depth 14

  start_workers-account : (n k : ℕ) → Keeps OfAccount (start_workers n k)
  unfolding start_workers
  start_workers-account zero k = Keeps-skip
  start_workers-account (suc n) k =
      Keeps-bind
        {f = λ m.
          if is_empty m.pings.to_ping then skip else start_worker k >> start_workers n (suc k)}
        Keeps-get
        (λ m. Keeps-if (is_empty m.pings.to_ping) Keeps-skip (
          Keeps-bind {f = λ _. start_workers n (suc k)} (start_worker-account k)
            (λ _. start_workers-account n (suc k))))

  pub ping_all_servers-account : Keeps OfAccount ping_all_servers
  unfolding ping_all_servers
  ping_all_servers-account = search (account_rules, start_workers-account) depth 14

  store_ping-account : (v : ℤ) (o : Option ℕ) → Keeps OfAccount (store_ping v o)
  unfolding store_ping
  store_ping-account v none = crash-account
  store_ping-account v (some srv) = search account_rules depth 14

  pub ping_over-account : (id : ℕ) (v : ℤ) → Keeps OfAccount (ping_over id v)
  unfolding ping_over
  ping_over-account id v = search (account_rules, store_ping-account, start_worker-account) depth 14

lost :
    (m : Auth) (o : Option ℕ)
    → m.account.servers ≡ []
    → has_server (length m.account.servers) o ≡ false
lost m none e = refl
lost m (some srv) e =
    subst (λ (ss : List AServer). ltb srv (length ss) ≡ false) (sym e) (ground arith)

-- With no servers the slot of a worker reads out of the list.
pub no_servers-ping_complete :
    (m : Auth) (id : ℕ) (v : ℤ) → m.account.servers ≡ [] → (ping_complete id v m).1.crashed ≡ true
unfolding ping_complete crash
no_servers-ping_complete m id v e =
    (ping_over-account (λ a b. b ≡ true) (λ a b h. refl) id v).at _
      (rw (lost m (get_elem? m.pings.in_progress id) e) refl)
