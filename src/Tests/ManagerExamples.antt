-- ===== src/Tests/ManagerExamples.antt =====
-- The theorems about the manager and the shared functions, at concrete inputs.
use celo_desktop_app.Base.{
  ◌⊎◌, ◌≡◌, refl, ◌↔◌, true, false, some, [], ◌∷◌, ◌++◌, arith, length, drop, All,
}
use celo_desktop_app.Base.Int.{pos, lookup}
use celo_desktop_app.Base.Text.{codes, split, split_skip, index_of, find_unit, ◌=text◌}
use celo_desktop_app.Common.{disconnected, connecting, count_unit, is_valid_ip}
use celo_desktop_app.Common.Escape.{escape_psw-quoted}
use celo_desktop_app.Common.Validity.{is_valid_ip_iff, IsOctet}
use celo_desktop_app.Openvpn.Types.{
  Manager, create, fetch_template, write_config, timed_out, same_word, ask, emit,
}
use celo_desktop_app.Openvpn.Process.{
  openvpn_running, ask_if, lookup_child, linux_lookup, run_script, note_pid, stop, set_state,
  entered, start_timer, is_zero,
}
use celo_desktop_app.Openvpn.Connect.{
  start, server_key, check_timeout, check_state, write_config_file, with_args,
}
use celo_desktop_app.Openvpn.Lines.{connected_ip, nth_comma}
use celo_desktop_app.Openvpn.Management.{
  parse_socket_state_word, state_word, got_connected, emit_ip,
}
use celo_desktop_app.Openvpn.Events.{starts, stops, timer_fires, socket_reads, run}
use celo_desktop_app.Openvpn.Invariant.{Inv}
use celo_desktop_app.Openvpn.Invariant.Events.{run_agrees}
use celo_desktop_app.Openvpn.Settings.{Like}
use celo_desktop_app.Openvpn.Stop.{stop_lem}
use celo_desktop_app.Openvpn.Starting.{latest, start_lem}
use celo_desktop_app.Openvpn.Timeout.{GivesUp, Waits, check_timeout_lem, crash_times_out}
use celo_desktop_app.Openvpn.Words.{connected_needs_word}
use celo_desktop_app.Openvpn.Template.{NamesDns, user_dns, write_config_file_lem}
use celo_desktop_app.Openvpn.LogPosition.{read_all, read_all_lem}
use celo_desktop_app.Openvpn.Addresses.{connected_ip_lem}
use celo_desktop_app.Tests.{ascii, idle_env, raw_manager, online, start_args}

abbrev offline : Manager
offline = record online { state = connecting; previous_state_word = [] }

run_agrees_example :
    Inv disconnected
      (run idle_env
        (starts start_args ∷ timer_fires ∷ socket_reads (codes "3:41") ∷ stops ∷ [])
        (create raw_manager)).1
run_agrees_example =
    run_agrees idle_env raw_manager
      (starts start_args ∷ timer_fires ∷ socket_reads (codes "3:41") ∷ stops ∷ [])
      (tt, (tt, (tt, (tt, tt))))

stop_lem_example :
    ((stop idle_env online).1.state ≡ disconnected)
    × ((stop idle_env online).1.socket ≡ false)
    × ((stop idle_env online).1.file_watcher ≡ false)
    × Like online (stop idle_env online).1
stop_lem_example = stop_lem idle_env online

start_lem_example :
    ((start idle_env start_args online).1.state ≡ connecting)
    × (latest (start idle_env start_args online).1.trace
        ≡ some (fetch_template (codes "https://celo.net/t3") (pos 32)))
    × Like
        (with_args start_args (record online { reconnect_attempt = 0 }))
        (start idle_env start_args online).1
unfolding server_key
start_lem_example = start_lem idle_env start_args online

check_timeout_lem_example :
    GivesUp idle_env offline (check_timeout idle_env offline).1
    ⊎ Waits idle_env offline (check_timeout idle_env offline).1
check_timeout_lem_example = check_timeout_lem idle_env offline

crash_times_out_example :
    ((check_state idle_env online).1.state ≡ disconnected)
    × (latest (check_state idle_env online).1.trace ≡ some timed_out)
unfolding openvpn_running ask_if lookup_child linux_lookup run_script note_pid ask is_zero
crash_times_out_example = crash_times_out idle_env online refl refl refl refl (λ k. omega arith)

connected_needs_word_example :
    (same_word ascii (codes "Connected") (codes "CONNECTED") ≡ true)
    × ((codes "Connected" =text []) ≡ false)
unfolding parse_socket_state_word state_word got_connected emit_ip connected_ip nth_comma set_state
    entered emit start_timer ask index_of find_unit
connected_needs_word_example =
    connected_needs_word idle_env (codes "Connected") (codes "1,Connected") offline (λ e. cc) refl

write_config_file_lem_example :
    let written = latest (write_config_file idle_env online).1.trace in
    ((write_config_file idle_env online).0 ≡ true)
    × ((NamesDns (split b'\n' (codes "client\ndev tun"))
          × (written ≡ some (write_config (codes "client\ndev tun\n"))))
        ⊎ (¬ (NamesDns (split b'\n' (codes "client\ndev tun")))
            × (written
                ≡ some (write_config (user_dns idle_env online ++ codes "client\ndev tun\n")))))
unfolding server_key lookup
write_config_file_lem_example =
    write_config_file_lem idle_env online (codes "client\ndev tun") refl refl

read_all_lem_example :
    (read_all 1 (codes "ab") (codes "cd" ∷ codes "e" ∷ [])).0
      ++ drop (read_all 1 (codes "ab") (codes "cd" ∷ codes "e" ∷ [])).1 (codes "abcde")
    ≡ codes "bcde"
read_all_lem_example = read_all_lem 1 (codes "ab") (codes "cd" ∷ codes "e" ∷ []) (omega arith)

connected_ip_lem_example :
    (connected_ip (codes "1,UP,OK,4,91,465") ≡ some (codes "91"))
    × (connected_ip (codes "1,UP,OK,4,91") ≡ some (codes "91"))
connected_ip_lem_example =
    connected_ip_lem (codes "1") (codes "UP") (codes "OK") (codes "4") (codes "91") (codes "465") (
      (refl, tt),
      ((refl, (refl, tt)), ((refl, (refl, tt)), ((refl, tt), ((refl, (refl, tt)), tt)))),
    )

is_valid_ip_iff_example : (is_valid_ip ascii (codes "10.14.0.6") ≡ true) ↔ (
    (count_unit b'.' (codes "10.14.0.6") ≡ 3)
    × (length (split_skip b'.' (codes "10.14.0.6")) ≡ 4)
    × All (IsOctet ascii) (split_skip b'.' (codes "10.14.0.6")))
is_valid_ip_iff_example = is_valid_ip_iff ascii (codes "10.14.0.6")

escape_psw-quoted_example : (codes "a\\\"b" ≡ codes "a\\\"b") × (codes "\n" ≡ codes "\n")
escape_psw-quoted_example =
    escape_psw-quoted (codes "a\\\"b") (codes "a\\\"b") (codes "\n") (codes "\n") refl
