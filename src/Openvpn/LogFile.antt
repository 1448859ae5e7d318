-- ===== src/Openvpn/LogFile.antt =====
-- The OpenVPN log file: openvpnLogfileChanged, parseOpenvpnLogLine and parseNewIp.
use celo_desktop_app.Base.{
  ℕ, ◌+◌, true, false, ◌||◌, not, Option, none, some, List, [], ◌∷◌, ltb, drop, if◌then◌else◌,
  length,
}
use celo_desktop_app.Base.Int.{pos, ◌+ℤ◌}
use celo_desktop_app.Base.State.{get, modify, skip, ◌>>=◌, ◌>>◌}
use celo_desktop_app.Base.Text.{Text, codes, ◌=text◌, contains, split_skip}
use celo_desktop_app.Common.{int_of}
use celo_desktop_app.Openvpn.Types.{Env, M, got_new_ip, switching_port, emit, when, contains_word}
use celo_desktop_app.Openvpn.Connect.{start_connecting}
use celo_desktop_app.Openvpn.Lines.{link_ip}
use celo_desktop_app.Openvpn.Management.{got_connected, got_tun_err}

unfoldable pub emit_link : Option Text → M (Unit {0})
emit_link none = skip
emit_link (some ip) = emit (got_new_ip ip)

unfoldable pub parse_new_ip : Env → Text → M (Unit {0})
parse_new_ip env s = emit_link (link_ip env.qt s)

-- A bind error moves to the next port and starts again.
unfoldable pub switch_port : Env → M (Unit {0})
switch_port env = do
  modify (λ m. record m { port = env.qt.number (int_of (env.qt.to_int m.port) +ℤ pos 1) })
  m ← get
  emit (switching_port m.port)
  start_connecting env

unfoldable pub log_event : Env → Text → M (Unit {0})
log_event env s =
    if contains_word env.qt s (codes "TCPv4_CLIENT link remote:")
    then parse_new_ip env s
    else if contains_word env.qt s (codes "Initialization Sequence Completed:")
    then got_connected s
    else when
        (contains_word env.qt s
          (codes "Opening utun (connect(AF_SYS_CONTROL)): Operation not permitted"))
        (got_tun_err env)

unfoldable pub parse_openvpn_log_line : Env → Text → M (Unit {0})
parse_openvpn_log_line env s =
    when (not (contains_word env.qt s (codes "MANAGEMENT: CMD 'state'"))) do
      when (contains s (codes "Socket bind failed on local address")) (switch_port env)
      log_event env s

-- The bytes to parse and the position after them, for a file with this content.
unfoldable pub new_bytes : ℕ → Text → Text × ℕ
new_bytes position file =
    let size = length file in
    let p = if ltb size position then 0 else position in
    if ltb (p + 1) size then (drop p file, size) else ([], p)

unfoldable pub parse_log_lines : Env → List Text → M (Unit {0})
parse_log_lines env [] = skip
parse_log_lines env (l ∷ ls) = parse_openvpn_log_line env l >> parse_log_lines env ls

unfoldable pub read_log : Env → Option Text → M (Unit {0})
read_log env none = skip
read_log env (some file) = do
  m ← get
  let (ba, position) = new_bytes m.log_file_position file
  modify (λ m. record m { log_file_position = position })
  parse_log_lines env (split_skip b'\n' ba)

-- `file` is the content of the file `pfn`, or `none` where it does not open.
unfoldable pub openvpn_logfile_changed : Env → Text → Option Text → M (Unit {0})
openvpn_logfile_changed env pfn file = do
  m ← get
  when (not (m.processing || m.error)) do
    modify (λ m. record m { processing = true })
    when (pfn =text env.log_filename) (read_log env file)
    modify (λ m. record m { processing = false })
