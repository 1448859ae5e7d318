-- ===== src/Auth/OldIp.antt =====
-- getOldIP and processOldIP: at most four requests for the address before the VPN.
pub mod Attempts
use celo_desktop_app.Base.{
  ℕ, zero, suc, ◌+◌, ◌≤◌, ◌<◌, ◌≡◌, Bool, true, false, ◌&&◌, Option, none, some, List, [], ◌∷◌,
  if◌then◌else◌, is_empty, length, leb, ltb, keep,
}
use celo_desktop_app.Base.State.{get, skip, modify, ◌>>=◌, ◌>>◌}
use celo_desktop_app.Base.Text.{Text, index_of, is_found}
use celo_desktop_app.Auth.Types.{A, fetch_old_ip, old_ip_loaded, act, on_account}
use celo_desktop_app.Auth.Servers.{Reply, failed, bytes}

unfoldable pub get_old_ip : A (Unit {0})
get_old_ip = do on_account (λ a. record a { ip_attempts = suc a.ip_attempts }); act fetch_old_ip

abbrev pub after_dot : Option ℕ → (ℕ → Bool) → Bool
after_dot none go = false
after_dot (some p) go = go (p + 1)

-- `for (k = 0; k < 3; ++k)`: `n` more dots from `t` on.
unfoldable pub find_dots : ℕ → ℕ → Text → Bool
find_dots zero t s = true
find_dots (suc n) t s = after_dot (index_of b'.' t s) (λ u. find_dots n u s)

-- Three dots, and a length from that of "2.2.2.2" to that of "123.123.123.123".
unfoldable pub looks_like_ip : Text → Bool
looks_like_ip s = find_dots 3 0 s && (leb 7 (length s) && leb (length s) 15)

unfoldable pub read_ip : Reply → Option Text
read_ip (failed e) = none
read_ip (bytes s) = if is_empty s then none else if looks_like_ip s then some s else none

unfoldable pub end_old_ip : Option Text → A (Unit {0})
end_old_ip none = do m ← get; if ltb m.account.ip_attempts 4 then get_old_ip else skip
end_old_ip (some ip) = do on_account (λ a. record a { old_ip = ip }); act (old_ip_loaded ip)

unfoldable pub process_old_ip : Reply → A (Unit {0})
process_old_ip r = end_old_ip (read_ip r)
