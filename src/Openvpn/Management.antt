-- ===== src/Openvpn/Management.antt =====
-- The management socket: its lines, the words of a state line, plain words and queries.
use celo_desktop_app.Base.{
  ℕ, ◌+◌, ◌-◌, Bool, true, false, ◌&&◌, ◌||◌, not, Option, none, some, List, [], ◌∷◌, ◌++◌, ltb,
  drop, if◌then◌else◌,
}
use celo_desktop_app.Base.State.{maybe, get, modify, skip, ◌>>=◌, ◌>>◌}
use celo_desktop_app.Base.Text.{
  Text, codes, ◌=text◌, contains, next, index_of, mid, split_skip, starts_with,
}
use celo_desktop_app.Common.{
  Qt, disconnected, connecting, connected, StateWord, word_connecting, word_wait, word_reconnecting,
  word_auth, word_get_config, word_assign_ip, word_tcp_connecting, word_resolve, word_unknown,
  escape_psw,
}
use celo_desktop_app.Openvpn.Types.{
  Env, M, got_new_ip, state_word_changed, send_error, block_on_disconnect, write_socket, ask, emit,
  when, same_word, contains_word, trimmed,
}
use celo_desktop_app.Openvpn.Process.{
  set_state, disconnect_from_openvpn_socket, stop, cancel, show_error_message_cleanup,
  start_reconnect,
}
use celo_desktop_app.Openvpn.Connect.{start_connecting}
use celo_desktop_app.Openvpn.Lines.{connected_ip}

unfoldable pub emit_ip : Option Text → M (Unit {0})
emit_ip none = skip
emit_ip (some ip) = emit (got_new_ip ip)

unfoldable pub got_connected : Text → M (Unit {0})
got_connected s = do emit_ip (connected_ip s); set_state connected

-- A TUN error restarts the connection once, and not after another error.
unfoldable pub got_tun_err : Env → M (Unit {0})
got_tun_err env = do
  m ← get
  when (not m.tun_error && not m.error)
      do modify (λ m. record m { tun_error = true; error = true }); start_connecting env

-- `mSocket->write`, which needs a socket.
unfoldable pub write_to_socket : Text → M (Unit {0})
write_to_socket t = do
  m ← get
  if m.socket then emit (write_socket t) else modify (λ m. record m { crashed = true })

unfoldable pub enter_connecting : StateWord → M (Unit {0})
enter_connecting w = do set_state connecting; emit (state_word_changed w)

unfoldable pub exiting : Env → M (Unit {0})
exiting env = do
  m ← get
  if m.reconnect then (start_reconnect 1000 >> set_state connecting) else set_state disconnected

unfoldable pub resolving : Env → M (Unit {0})
resolving env = do
  emit (state_word_changed word_resolve)
  m ← get
  when m.net_down
      do stop env; emit (send_error (codes "Turn Internet connection on manually, please"))

-- The chain of comparisons of parseSocketStateWord behind the first.
unfoldable pub other_word : Env → Text → M (Unit {0})
other_word env word =
    if same_word env.qt word (codes "CONNECTING") || same_word env.qt word (codes "TCP_CONNECT")
    then enter_connecting word_connecting
    else if same_word env.qt word (codes "WAIT")
    then emit (state_word_changed word_wait)
    else if same_word env.qt word (codes "EXITING")
    then exiting env
    else if same_word env.qt word (codes "RECONNECTING")
    then enter_connecting word_reconnecting
    else if same_word env.qt word (codes "AUTH")
    then enter_connecting word_auth
    else if same_word env.qt word (codes "GET_CONFIG")
    then emit (state_word_changed word_get_config)
    else if same_word env.qt word (codes "ASSIGN_IP")
    then enter_connecting word_assign_ip
    else if same_word env.qt word (codes "TCP_CONNECT'")
    then emit (state_word_changed word_tcp_connecting)
    else if same_word env.qt word (codes "RESOLVE")
    then resolving env
    else emit (state_word_changed word_unknown)

unfoldable pub state_word : Env → Bool → Text → Text → M (Unit {0})
state_word env isnew word s =
    if same_word env.qt word (codes "CONNECTED")
    then when isnew (got_connected s)
    else other_word env word

unfoldable pub parse_socket_state_word : Env → Text → Text → M (Unit {0})
parse_socket_state_word env word s = do
  m ← get
  state_word env (not (word =text m.previous_state_word)) word s
  modify (λ m. record m { previous_state_word = word })

unfoldable pub parse_socket_plain_word : Env → Text → Text → M (Unit {0})
parse_socket_plain_word env word s =
    if same_word env.qt word (codes "END")
    then skip
    else if same_word env.qt word (codes "SUCCESS")
    then skip
    else when (same_word env.qt word (codes "ERROR") || same_word env.qt word (codes "FATAL"))
        do disconnect_from_openvpn_socket; emit block_on_disconnect; emit (send_error s)

-- The two lines that answer a request for credentials.
unfoldable pub username_line : Text → Text
username_line name = codes "username \"Auth\" \"" ++ (escape_psw name ++ codes "\"\n")

unfoldable pub password_line : Text → Text
password_line psw = codes "password \"Auth\" \"" ++ (escape_psw psw ++ codes "\"\n")

unfoldable pub release_hold : M (Unit {0})
release_hold = do write_to_socket (codes "hold off\n"); write_to_socket (codes "hold release\n")

unfoldable pub send_credentials : M (Unit {0})
send_credentials = do
  m ← get
  write_to_socket (username_line m.vpn_username)
  write_to_socket (password_line m.vpn_password)

-- The text behind the first colon.
abbrev pub after_colon : Text → Text
after_colon s = drop (next (index_of b':' 0 s)) s

abbrev pub from_colon : Text → Text
from_colon s = elim (index_of b':' 0 s) [ none ↦ s | some p ↦ drop p s ]

unfoldable pub verification_failed : Text → M (Unit {0})
verification_failed s = do
  modify (λ m. record m { error = true })
  show_error_message_cleanup (after_colon s)

unfoldable pub password_query : Env → Text → M (Unit {0})
password_query env s =
    if contains s (codes "Need 'Auth' username/password")
    then send_credentials
    else when (contains_word env.qt (from_colon s) (codes "Verification Failed"))
        (verification_failed s)

unfoldable pub fatal_query : Env → Text → M (Unit {0})
fatal_query env msg =
    if same_word env.qt msg (codes "Cannot allocate TUN/TAP dev dynamically")
    then got_tun_err env
    else do modify (λ m. record m { error = true }); cancel env msg

-- The comparison with "SUCCES" leads to an empty branch, as "INFO" does.
unfoldable pub parse_socket_query_word : Env → Text → Text → M (Unit {0})
parse_socket_query_word env word s =
    if same_word env.qt word (codes "INFO")
    then skip
    else if same_word env.qt word (codes "HOLD")
    then when (contains s (codes "hold release")) release_hold
    else if same_word env.qt word (codes "PASSWORD")
    then password_query env s
    else if same_word env.qt word (codes "SUCCES")
    then skip
    else when (same_word env.qt word (codes "FATAL")) (fatal_query env (after_colon s))

-- A state line `time,word,third,…` with its first two commas: is the third field an error?
unfoldable pub third_is_error : Qt → ℕ → Text → Bool
third_is_error qt p1 s = elim (index_of b',' (p1 + 1) s) [
  | none ↦ false
  | some p3 ↦
      if ltb (p1 + 1) p3
      then contains_word qt (mid (p1 + 1) (p3 - p1 - 1) s) (codes "ERROR")
      else false
]

-- `p0` is the position behind the first comma.
unfoldable pub state_fields : Env → Text → ℕ → M (Unit {0})
state_fields env s p0 =
    maybe (parse_socket_plain_word env s s)
      (λ p1.
        when (not (third_is_error env.qt p1 s))
          (parse_socket_state_word env (mid p0 (p1 - p0) s) s))
      (index_of b',' p0 s)

unfoldable pub digit_line : Env → Text → M (Unit {0})
digit_line env s = state_fields env s (next (index_of b',' 1 s))

unfoldable pub word_line : Env → Text → M (Unit {0})
word_line env s =
    maybe (parse_socket_plain_word env s s) (λ p. parse_socket_plain_word env (mid 0 p s) s)
      (index_of b':' 0 s)

unfoldable pub query_line : Env → Text → M (Unit {0})
query_line env s =
    maybe skip (λ p. parse_socket_query_word env (mid 1 (p - 1) s) s) (index_of b':' 0 s)

-- `s[0].isDigit()`; the first unit of an empty line reads as no digit.
abbrev pub starts_with_digit : Qt → Text → Bool
starts_with_digit qt [] = false
starts_with_digit qt (c ∷ cs) = qt.is_digit c

unfoldable pub parse_socket_line : Env → Text → M (Unit {0})
parse_socket_line env s =
    if starts_with s (codes ">")
    then query_line env s
    else if starts_with_digit env.qt s
    then digit_line env s
    else word_line env s

unfoldable pub parse_socket_lines : Env → List Text → M (Unit {0})
parse_socket_lines env [] = skip
parse_socket_lines env (l ∷ ls) =
    parse_socket_line env (trimmed env.qt l) >> parse_socket_lines env ls

-- `s` is what mSocket->readAll() returns.
unfoldable pub socket_ready_read : Env → Text → M (Unit {0})
socket_ready_read env s = do
  ready ← ask env.can_read_line
  when ready (parse_socket_lines env (split_skip b'\n' s))

-- Both the closing by the remote end and any other error leave no socket.
unfoldable pub release_socket : M (Unit {0})
release_socket = modify (λ m. record m { socket = false })

unfoldable pub socket_error : Bool → M (Unit {0})
socket_error remote_host_closed =
    if remote_host_closed then disconnect_from_openvpn_socket else release_socket
