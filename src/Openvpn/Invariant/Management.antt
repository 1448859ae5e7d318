-- ===== src/Openvpn/Invariant/Management.antt =====
-- The lines of the management socket and of the log keep the invariant.
use celo_desktop_app.Base.{ℕ, Bool, Option, none, some, List, [], ◌∷◌}
use celo_desktop_app.Base.State.{Keeps, Keeps-skip, Keeps-bind}
use celo_desktop_app.Base.Text.{Text}
use celo_desktop_app.Common.{VpnState, connected, StateWord}
use celo_desktop_app.Openvpn.Types.{Env}
use celo_desktop_app.Openvpn.Process.{set_state}
use celo_desktop_app.Openvpn.Management.{
  emit_ip, got_connected, got_tun_err, write_to_socket, enter_connecting, exiting, resolving,
  other_word, state_word, parse_socket_state_word, parse_socket_plain_word, release_hold,
  send_credentials, verification_failed, password_query, fatal_query, parse_socket_query_word,
  state_fields, digit_line, word_line, query_line, parse_socket_line, parse_socket_lines,
  socket_ready_read, release_socket, socket_error,
}
use celo_desktop_app.Openvpn.LogFile.{
  emit_link, parse_new_ip, switch_port, log_event, parse_openvpn_log_line, parse_log_lines,
  read_log, openvpn_logfile_changed,
}
use celo_desktop_app.Openvpn.Invariant.{Inv, leaves, emit-Inv, set_state-Inv}
use celo_desktop_app.Openvpn.Invariant.Process.{
  disconnect_from_openvpn_socket-Inv, stop-Inv, cancel-Inv, show_error_message_cleanup-Inv,
  start_reconnect-Inv,
}
use celo_desktop_app.Openvpn.Invariant.Connect.{connecting-Inv, start_connecting-Inv}

connected-Inv : {st : VpnState} → Keeps (Inv st) (set_state connected)
connected-Inv = set_state-Inv connected (λ e. cc)

emit_ip-Inv : {st : VpnState} → (o : Option Text) → Keeps (Inv st) (emit_ip o)
unfolding emit_ip
emit_ip-Inv none = Keeps-skip
emit_ip-Inv (some ip) = emit-Inv _ tt

got_connected-Inv : {st : VpnState} → (s : Text) → Keeps (Inv st) (got_connected s)
unfolding got_connected
got_connected-Inv s = search (leaves, emit_ip-Inv, connected-Inv) depth 14

got_tun_err-Inv : {st : VpnState} → (env : Env) → Keeps (Inv st) (got_tun_err env)
unfolding got_tun_err
got_tun_err-Inv env = search (leaves, start_connecting-Inv) depth 14

write_to_socket-Inv : {st : VpnState} → (t : Text) → Keeps (Inv st) (write_to_socket t)
unfolding write_to_socket
write_to_socket-Inv t = search leaves depth 14

enter_connecting-Inv : {st : VpnState} → (w : StateWord) → Keeps (Inv st) (enter_connecting w)
unfolding enter_connecting
enter_connecting-Inv w = search (leaves, connecting-Inv) depth 14

exiting-Inv : {st : VpnState} → (env : Env) → Keeps (Inv st) (exiting env)
unfolding exiting
exiting-Inv env = search (leaves, start_reconnect-Inv, connecting-Inv) depth 14

resolving-Inv : {st : VpnState} → (env : Env) → Keeps (Inv st) (resolving env)
unfolding resolving
resolving-Inv env = search (leaves, stop-Inv) depth 14

other_word-Inv : {st : VpnState} → (env : Env) (word : Text) → Keeps (Inv st) (other_word env word)
unfolding other_word
other_word-Inv env word = search (leaves, enter_connecting-Inv, exiting-Inv, resolving-Inv) depth 14

state_word-Inv :
    {st : VpnState}
    → (env : Env) (isnew : Bool) (word : Text) (s : Text)
    → Keeps (Inv st) (state_word env isnew word s)
unfolding state_word
state_word-Inv env isnew word s = search (leaves, got_connected-Inv, other_word-Inv) depth 14

parse_socket_state_word-Inv :
    {st : VpnState}
    → (env : Env) (word : Text) (s : Text) → Keeps (Inv st) (parse_socket_state_word env word s)
unfolding parse_socket_state_word
parse_socket_state_word-Inv env word s = search (leaves, state_word-Inv) depth 14

parse_socket_plain_word-Inv :
    {st : VpnState}
    → (env : Env) (word : Text) (s : Text) → Keeps (Inv st) (parse_socket_plain_word env word s)
unfolding parse_socket_plain_word
parse_socket_plain_word-Inv env word s =
    search (leaves, disconnect_from_openvpn_socket-Inv) depth 14

release_hold-Inv : {st : VpnState} → Keeps (Inv st) release_hold
unfolding release_hold
release_hold-Inv = search (leaves, write_to_socket-Inv) depth 14

send_credentials-Inv : {st : VpnState} → Keeps (Inv st) send_credentials
unfolding send_credentials
send_credentials-Inv = search (leaves, write_to_socket-Inv) depth 14

verification_failed-Inv : {st : VpnState} → (s : Text) → Keeps (Inv st) (verification_failed s)
unfolding verification_failed
verification_failed-Inv s = search (leaves, show_error_message_cleanup-Inv) depth 14

password_query-Inv :
    {st : VpnState} → (env : Env) (s : Text) → Keeps (Inv st) (password_query env s)
unfolding password_query
password_query-Inv env s = search (leaves, send_credentials-Inv, verification_failed-Inv) depth 14

fatal_query-Inv : {st : VpnState} → (env : Env) (msg : Text) → Keeps (Inv st) (fatal_query env msg)
unfolding fatal_query
fatal_query-Inv env msg = search (leaves, got_tun_err-Inv, cancel-Inv) depth 14

parse_socket_query_word-Inv :
    {st : VpnState}
    → (env : Env) (word : Text) (s : Text) → Keeps (Inv st) (parse_socket_query_word env word s)
unfolding parse_socket_query_word
parse_socket_query_word-Inv env word s =
    search (leaves, release_hold-Inv, password_query-Inv, fatal_query-Inv) depth 14

state_fields-Inv :
    {st : VpnState} → (env : Env) (s : Text) (p0 : ℕ) → Keeps (Inv st) (state_fields env s p0)
unfolding state_fields
state_fields-Inv env s p0 =
    search (leaves, parse_socket_plain_word-Inv, parse_socket_state_word-Inv) depth 14

digit_line-Inv : {st : VpnState} → (env : Env) (s : Text) → Keeps (Inv st) (digit_line env s)
unfolding digit_line
digit_line-Inv env s = state_fields-Inv env s _

word_line-Inv : {st : VpnState} → (env : Env) (s : Text) → Keeps (Inv st) (word_line env s)
unfolding word_line
word_line-Inv env s = search (leaves, parse_socket_plain_word-Inv) depth 14

query_line-Inv : {st : VpnState} → (env : Env) (s : Text) → Keeps (Inv st) (query_line env s)
unfolding query_line
query_line-Inv env s = search (leaves, parse_socket_query_word-Inv) depth 14

pub parse_socket_line-Inv :
    {st : VpnState} → (env : Env) (s : Text) → Keeps (Inv st) (parse_socket_line env s)
unfolding parse_socket_line
parse_socket_line-Inv env s =
    search (leaves, query_line-Inv, digit_line-Inv, word_line-Inv) depth 14

parse_socket_lines-Inv :
    {st : VpnState} → (env : Env) (ls : List Text) → Keeps (Inv st) (parse_socket_lines env ls)
unfolding parse_socket_lines
parse_socket_lines-Inv env [] = Keeps-skip
parse_socket_lines-Inv env (l ∷ ls) =
    Keeps-bind (parse_socket_line-Inv env _) (λ _. parse_socket_lines-Inv env ls)

pub socket_ready_read-Inv :
    {st : VpnState} → (env : Env) (s : Text) → Keeps (Inv st) (socket_ready_read env s)
unfolding socket_ready_read
socket_ready_read-Inv env s = search (leaves, parse_socket_lines-Inv) depth 14

release_socket-Inv : {st : VpnState} → Keeps (Inv st) release_socket
unfolding release_socket
release_socket-Inv = search leaves depth 14

pub socket_error-Inv : {st : VpnState} → (closed : Bool) → Keeps (Inv st) (socket_error closed)
unfolding socket_error
socket_error-Inv closed =
    search (leaves, disconnect_from_openvpn_socket-Inv, release_socket-Inv) depth 14

emit_link-Inv : {st : VpnState} → (o : Option Text) → Keeps (Inv st) (emit_link o)
unfolding emit_link
emit_link-Inv none = Keeps-skip
emit_link-Inv (some ip) = emit-Inv _ tt

parse_new_ip-Inv : {st : VpnState} → (env : Env) (s : Text) → Keeps (Inv st) (parse_new_ip env s)
unfolding parse_new_ip
parse_new_ip-Inv env s = search (leaves, emit_link-Inv) depth 14

switch_port-Inv : {st : VpnState} → (env : Env) → Keeps (Inv st) (switch_port env)
unfolding switch_port
switch_port-Inv env = search (leaves, start_connecting-Inv) depth 14

log_event-Inv : {st : VpnState} → (env : Env) (s : Text) → Keeps (Inv st) (log_event env s)
unfolding log_event
log_event-Inv env s = search (leaves, parse_new_ip-Inv, got_connected-Inv, got_tun_err-Inv) depth 14

parse_openvpn_log_line-Inv :
    {st : VpnState} → (env : Env) (s : Text) → Keeps (Inv st) (parse_openvpn_log_line env s)
unfolding parse_openvpn_log_line
parse_openvpn_log_line-Inv env s = search (leaves, switch_port-Inv, log_event-Inv) depth 14

parse_log_lines-Inv :
    {st : VpnState} → (env : Env) (ls : List Text) → Keeps (Inv st) (parse_log_lines env ls)
unfolding parse_log_lines
parse_log_lines-Inv env [] = Keeps-skip
parse_log_lines-Inv env (l ∷ ls) =
    Keeps-bind (parse_openvpn_log_line-Inv env l) (λ _. parse_log_lines-Inv env ls)

read_log-Inv :
    {st : VpnState} → (env : Env) (file : Option Text) → Keeps (Inv st) (read_log env file)
unfolding read_log
read_log-Inv env none = Keeps-skip
read_log-Inv env (some file) = search (leaves, parse_log_lines-Inv) depth 14

pub openvpn_logfile_changed-Inv :
    {st : VpnState}
    → (env : Env) (pfn : Text) (file : Option Text)
    → Keeps (Inv st) (openvpn_logfile_changed env pfn file)
unfolding openvpn_logfile_changed
openvpn_logfile_changed-Inv env pfn file = search (leaves, read_log-Inv) depth 14
