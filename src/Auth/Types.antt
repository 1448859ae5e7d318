-- ===== src/Auth/Types.antt =====
-- The members of AuthManager.
use celo_desktop_app.Base.{ℕ, Bool, false, List, [], ◌∷◌}
use celo_desktop_app.Base.Int.{ℤ}
use celo_desktop_app.Base.State.{State, modify}
use celo_desktop_app.Base.Text.{Text}

pub record AServer : Type 0 where
  pub address : Text
  pub ip : Text
  pub name : Text
  pub country : Text
  pub handles_tcp : Bool
  pub handles_udp : Bool
  pub config_urls : List (ℤ × Text)

-- `AServer s;`.
abbrev pub no_server : AServer
no_server = record {
  address = [];
  ip = [];
  name = [];
  country = [];
  handles_tcp = false;
  handles_udp = false;
  config_urls = [];
}

-- The login and the lists of servers.
pub record Account : Type 0 where
  pub logged_in : Bool
  pub cancelling_login : Bool
  pub servers : List AServer
  -- mServerIds, for the only encryption.
  pub server_ids : List ℤ
  pub tcp_server_ids : List ℤ
  pub udp_server_ids : List ℤ
  -- mServerNameToId, first entry first.
  pub name_to_id : List (Text × ℕ)
  pub vpn_login : Text
  pub vpn_password : Text
  pub new_ip : Text
  pub old_ip : Text
  pub ip_attempts : ℕ

-- The workers that ping the servers. A timer is the number of times that its timeout is connected to
-- the waiter; a worker is whether the process exists.
pub record Pings : Type 0 where
  pub pings : List ℤ
  pub to_ping : List ℕ
  pub loaded : Bool
  pub workers : List Bool
  pub in_progress : List ℕ
  pub timers : List ℕ

pub data AuthAction : Type 0 where
  -- Signals.
  login_completed logout_completed server_lists_loaded : AuthAction
  login_error : Text → AuthAction
  old_ip_loaded : Text → AuthAction
  new_ip_loaded : Text → AuthAction
  -- Effects: the requests, and the ping of a server by a worker.
  send_credentials fetch_servers abort_reply fetch_old_ip : AuthAction
  start_ping : ℕ → ℕ → AuthAction

pub record Auth : Type 0 where
  pub account : Account
  pub pings : Pings
  -- mReply is not null.
  pub reply : Bool
  -- What was done, latest first, and an access out of a list's bounds.
  pub trace : List AuthAction
  pub crashed : Bool

abbrev pub A : Type 0 → Type 0
A B = State Auth B

unfoldable pub act : AuthAction → A (Unit {0})
act a = modify (λ m. record m { trace = a ∷ m.trace })

unfoldable pub on_account : (Account → Account) → A (Unit {0})
on_account f = modify (λ m. record m { account = f m.account })
