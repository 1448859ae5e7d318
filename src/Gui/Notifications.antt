-- ===== src/Gui/Notifications.antt =====
-- VPNServiceManager: the notifications that it reads and the loop over the ports.
use celo_desktop_app.Base.{Bool, true, false, ◌&&◌, not, List, [], ◌∷◌, if◌then◌else◌}
use celo_desktop_app.Base.Int.{ℤ, pos, eqb_ℤ}
use celo_desktop_app.Base.State.{get, modify, skip, ◌>>=◌, ◌>>◌}
use celo_desktop_app.Base.Text.{Text, codes, split_skip}
use celo_desktop_app.Common
use celo_desktop_app.Common.{Qt, int_of, command_code, state_code}
use celo_desktop_app.Setting.Protocols.{switch_to_next_port}
use celo_desktop_app.Setting.Servers.{switch_to_next_node}
use celo_desktop_app.Gui.Manager.{
  GuiEnv, G, state_changed, state_word, error, timed_out, kill_switch, got_new_ip, raise,
  on_settings, send_connect_to_vpn_request,
}

module _ (env : GuiEnv) where
  unfoldable pub try_next_port : G (Unit {0})
  try_next_port = do
    g ← get
    if g.changing_ports
        then on_settings (switch_to_next_port env.cv)
        else on_settings (switch_to_next_node env.qt env.cv env.account)
    send_connect_to_vpn_request env

  unfoldable pub start_port_loop : Bool → G (Unit {0})
  start_port_loop change_port = do
    modify (λ g. record g {
      changing_ports = change_port;
      port_dialog_shown = false;
      in_port_loop = true;
    })
    try_next_port

  -- The case of notifyStatusChange.
  unfoldable pub status_changed : ℤ → G (Unit {0})
  status_changed st = do
    modify (λ g. record g { state = st })
    g ← get
    if eqb_ℤ st (pos (state_code Common.connected))
        then modify (λ k. record k { in_port_loop = false })
        else if eqb_ℤ st (pos (state_code Common.disconnected)) && not g.user_requested_disconnect
        then raise kill_switch
        else skip
    raise (state_changed st)

  -- The case of notifyTimeout.
  unfoldable pub on_timeout : G (Unit {0})
  on_timeout = do
    g ← get
    if g.in_port_loop
        then try_next_port
        else if g.port_dialog_shown
        then skip
        else (do modify (λ k. record k { port_dialog_shown = true }); raise timed_out)

  -- The switch on the notification's code.
  unfoldable pub on_code : Text → ℤ → G (Unit {0})
  on_code token code =
      if eqb_ℤ code (pos (command_code Common.status_change))
      then status_changed (env.json.int_at token (codes "state"))
      else if eqb_ℤ code (pos (command_code Common.status_word))
      then raise (state_word (env.json.int_at token (codes "state")))
      else if eqb_ℤ code (pos (command_code Common.got_ip))
      then raise (got_new_ip (env.json.text_at token (codes "ip")))
      else if eqb_ℤ code (pos (command_code Common.timeout))
      then on_timeout
      else if eqb_ℤ code (pos (command_code Common.error))
      then raise (error (env.json.text_at token (codes "message")))
      else skip

  unfoldable pub read_tokens : List Text → G (Unit {0})
  read_tokens [] = skip
  read_tokens (token ∷ rest) =
      (if env.json.has_no_members token
        then skip
        else on_code token (env.json.int_at token (codes "code")))
      >> read_tokens rest

  -- socket_readyRead, on what readAll() returns.
  unfoldable pub socket_ready_read : Text → G (Unit {0})
  socket_ready_read bytes = read_tokens (split_skip b'\n' bytes)
