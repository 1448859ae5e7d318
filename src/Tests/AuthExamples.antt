-- ===== src/Tests/AuthExamples.antt =====
-- The theorems about AuthManager, at concrete inputs.
use celo_desktop_app.Base.{
  inl, ◌≡◌, refl, ◌↔◌, ◌≤◌, ◌<◌, true, false, some, [], ◌∷◌, arith, length, keep,
}
use celo_desktop_app.Base.Int.{ℤ, pos, negsuc, ltb_ℤ}
use celo_desktop_app.Base.State.{◌>>◌}
use celo_desktop_app.Base.Text.{codes}
use celo_desktop_app.Auth.Types.{Pings, Auth}
use celo_desktop_app.Auth.Servers.{
  Node, nodes, Dom, failed, bytes, server_ix_from_name, ix_or_minus, fill_names,
}
use celo_desktop_app.Auth.Pings.{ping_all_servers, ping_events, completes, errs, upto}
use celo_desktop_app.Auth.Pings.Once.{pinged}
use celo_desktop_app.Auth.Pings.Start.{Ended, ping_all_servers_lem}
use celo_desktop_app.Auth.Login.{login_finished}
use celo_desktop_app.Auth.Login.Outcome.{Ends, listed, login_finished_lem}
use celo_desktop_app.Auth.Jump.{others, ping_at, ping_ix, get_pings, get_server_to_jump}
use celo_desktop_app.Auth.Jump.Choice.{Selected, get_server_to_jump_lem}
use celo_desktop_app.Auth.Jump.Fast.{jump_fast}
use celo_desktop_app.Auth.OldIp.{get_old_ip, read_ip}
use celo_desktop_app.Auth.OldIp.Attempts.{
  Tried, dots, old_ip_replies, read_ip_lem, get_old_ip-bad_replies,
}
use celo_desktop_app.Auth.Names.{first_named, server_ix_from_name_lem}
use celo_desktop_app.Tests.{ascii}
use celo_desktop_app.Tests.SettingExamples.{account}
use celo_desktop_app.Tests.SortExamples.{sort_pairs, sort_pairs-Sorts}

abbrev pub no_pings : Pings
no_pings = record {
  pings = [];
  to_ping = [];
  loaded = false;
  workers = [];
  in_progress = [];
  timers = [];
}

-- Logged in, with three servers that were not pinged.
abbrev pub auth : Auth
auth = record { account = account; pings = no_pings; reply = true; trace = []; crashed = false }

ping_all_servers_lem_example :
    Ended
      (upto 3)
      ((ping_all_servers >> ping_events (completes 2 (pos 30) ∷ errs 0 (negsuc 0) ∷ [])) auth).1
unfolding pinged
ping_all_servers_lem_example =
    ping_all_servers_lem auth (completes 2 (pos 30) ∷ errs 0 (negsuc 0) ∷ []) (omega arith)
      (omega arith) (omega arith) (omega arith)
      (record { no_workers = refl; no_queue = refl; alive = refl })

-- Two servers wait, and the timer of the only worker was connected twice.
abbrev worn : Auth
worn = record auth {
  pings = record {
    pings = negsuc 0 ∷ negsuc 0 ∷ negsuc 0 ∷ [];
    to_ping = 1 ∷ 2 ∷ [];
    loaded = false;
    workers = true ∷ [];
    in_progress = 0 ∷ [];
    timers = 2 ∷ [];
  };
}

abbrev has_children : Node
has_children = record { node_name = codes "Berlin"; child = λ tag. some (codes "x") }

-- A reader that takes every text for a list of one node.
abbrev pub dom : Dom
dom = record { qt = ascii; content = λ t. nodes (has_children ∷ []) }

login_finished_lem_example :
    Ends
      (listed dom (failed (codes "no route")))
      auth
      (login_finished dom true (failed (codes "no route")) auth).1
login_finished_lem_example = login_finished_lem dom true auth (failed (codes "no route")) refl

get_server_to_jump_lem_example :
    Selected account.server_ids
      (pos 0)
      3
      (others (pos 0) account.server_ids)
      (get_server_to_jump sort_pairs 7 4 (pos 0) account (negsuc 0 ∷ pos 30 ∷ pos 20 ∷ []))
get_server_to_jump_lem_example =
    get_server_to_jump_lem sort_pairs sort_pairs-Sorts 7 4 (pos 0) account
      (negsuc 0 ∷ pos 30 ∷ pos 20 ∷ [])

abbrev jumped : ℤ
jumped = get_server_to_jump sort_pairs 7 4 (pos 0) account (negsuc 0 ∷ pos 30 ∷ pos 20 ∷ [])

jump_fast_example :
    (ltb_ℤ (negsuc 0) (ping_at (negsuc 0 ∷ pos 30 ∷ pos 20 ∷ []) jumped) ≡ true)
    × (length (
          keep
            (λ e. ltb_ℤ e.0 (ping_at (negsuc 0 ∷ pos 30 ∷ pos 20 ∷ []) jumped))
            (ping_ix
              (get_pings (negsuc 0 ∷ pos 30 ∷ pos 20 ∷ []) (others (pos 0) account.server_ids))
              (others (pos 0) account.server_ids)))
        < 20)
unfolding others ping_ix get_pings
jump_fast_example =
    jump_fast sort_pairs sort_pairs-Sorts 7 4 (pos 0) account (negsuc 0 ∷ pos 30 ∷ pos 20 ∷ []) refl
      (refl, (refl, (refl, tt))) refl

read_ip_lem_example : (read_ip (bytes (codes "10.14.0.6")) ≡ some (codes "10.14.0.6")) ↔ (
    (3 ≤ dots (codes "10.14.0.6"))
    × (7 ≤ length (codes "10.14.0.6"))
    × (length (codes "10.14.0.6") ≤ 15))
read_ip_lem_example = read_ip_lem (codes "10.14.0.6")

get_old_ip-bad_replies_example :
    Tried 3 auth ((get_old_ip >> old_ip_replies (failed (codes "e") ∷ bytes [] ∷ [])) auth).1
unfolding read_ip
get_old_ip-bad_replies_example =
    get_old_ip-bad_replies (failed (codes "e") ∷ bytes [] ∷ []) auth (refl, (refl, tt)) refl

server_ix_from_name_lem_example :
    ((server_ix_from_name (codes "c") account).0
      ≡ ix_or_minus (first_named 0 (codes "c") account.servers))
    × ((server_ix_from_name (codes "c") account).1.name_to_id ≡ fill_names 0 account.servers [])
server_ix_from_name_lem_example = server_ix_from_name_lem (codes "c") account (inl refl)
