-- ===== src/Service/Commands.antt =====
-- The commands of a client: the lines of the receive buffer and what each does.
use celo_desktop_app.Base.{
  ℕ, zero, suc, ◌+◌, true, false, Option, none, some, List, [], ◌∷◌, ◌++◌, if◌then◌else◌, length,
  drop,
}
use celo_desktop_app.Base.Int.{ℤ, pos, eqb_ℤ}
use celo_desktop_app.Base.State.{State, pure, get, modify, skip, maybe, ◌>>=◌, ◌>>◌}
use celo_desktop_app.Base.Text.{Text, codes, find_unit, is_found, split, remove_unit}
use celo_desktop_app.Common
use celo_desktop_app.Common.{connected, eqb_state, command_code}
use celo_desktop_app.Openvpn.Types.{Env}
use celo_desktop_app.Openvpn.Process.{stop, kill_running_openvpn}
use celo_desktop_app.Openvpn.Rights.{netdown}
use celo_desktop_app.Openvpn.Connect.{StartArgs, start}
use celo_desktop_app.Openvpn.Events.{Event, set_vpn_credentials, step}
use celo_desktop_app.Service.Client.{Json, Client, Service, vpn_state_changed, call}

unfoldable pub on_client : (Client → Client) → State Service (Unit {0})
on_client f = modify (λ s. record s { client = f s.client })

-- `.remove("\n").remove("\r")`.
unfoldable pub clean : Text → Text
clean t = remove_unit b'\r' (remove_unit b'\n' t)

module _ (env : Env) (json : Json) where
  unfoldable pub take_start : Text → Client → Client
  take_start doc c = record c {
    encryption = json.int_at doc (codes "encryption");
    server_id = json.int_at doc (codes "serverid");
    hostname = clean (json.text_at doc (codes "server"));
    port = clean (json.text_at doc (codes "port"));
    template_url = clean (json.text_at doc (codes "template"));
    local_port = clean (json.text_at doc (codes "localport"));
    tcp_or_udp = clean (json.text_at doc (codes "tcporudp"));
    reconnecting = true;
  }

  unfoldable pub start_args : Text → Client → StartArgs
  start_args doc c = record {
    encryption = c.encryption;
    server_id = c.server_id;
    server = c.hostname;
    port = c.port;
    template_url = c.template_url;
    local_port = c.local_port;
    tcp_or_udp = c.tcp_or_udp;
    fix_dns = json.bool_at doc (codes "fixDNS");
    dns1 = clean (json.text_at doc (codes "dns1"));
    dns2 = clean (json.text_at doc (codes "dns2"));
  }

  -- The case of cmdStart.
  unfoldable pub do_start : Text → State Service (Unit {0})
  do_start doc = do
    on_client (take_start doc)
    call json (netdown env false)
    s ← get
    if eqb_state s.manager.state connected then call json (stop env) else skip
    c ← get
    call json (start env (start_args doc c.client))
    on_client (λ k. record k { reconnecting = false })

  -- The case of cmdStop.
  unfoldable pub do_stop : State Service (Unit {0})
  do_stop = do
    on_client (λ k. record k { disconnect_requested = true })
    call json (stop env)
    on_client (λ k. record k { disconnect_requested = false })

  -- The switch on the command's code.
  unfoldable pub dispatch_code : Text → ℤ → State Service (Unit {0})
  dispatch_code doc cmd =
      if eqb_ℤ cmd (pos (command_code Common.kill_running_openvpn))
      then call json (kill_running_openvpn env)
      else if eqb_ℤ cmd (pos (command_code Common.get_status))
      then on_client (λ k. vpn_state_changed json k.state k)
      else if eqb_ℤ cmd (pos (command_code Common.set_credentials))
      then call json (
          set_vpn_credentials (json.text_at doc (codes "vpnusername"))
            (json.text_at doc (codes "vpnpassword")))
      else if eqb_ℤ cmd (pos (command_code Common.netdown))
      then call json (netdown env true)
      else if eqb_ℤ cmd (pos (command_code Common.start))
      then do_start doc
      else if eqb_ℤ cmd (pos (command_code Common.stop))
      then do_stop
      else skip

  unfoldable pub dispatch : Text → State Service (Unit {0})
  dispatch doc = dispatch_code doc (json.int_at doc (codes "cmd"))

-- `split('\n').at(0)`.
abbrev pub first_of : List Text → Text
first_of [] = []
first_of (w ∷ ws) = w

-- The first line of the buffer and what is left behind it, if it holds a line end.
unfoldable pub next_command : Text → Option (Text × Text)
next_command buffer =
    let command = first_of (split b'\n' buffer) in
    if is_found (find_unit b'\n' buffer)
    then some (command, drop (length command + 1) buffer)
    else none

-- What happens to the service: bytes from the client, or an event of the manager.
pub data Input : Type 0 where
  reads : Text → Input
  happens : Event → Input

module _ (env : Env) (json : Json) where
  -- The loop over the buffer, on fuel; the result is the buffer that is left.
  unfoldable pub serve : ℕ → Text → State Service Text
  serve zero buffer = pure buffer
  serve (suc n) buffer =
      maybe (pure buffer) (λ r. dispatch env json r.0 >> serve n r.1) (next_command buffer)

  -- socket_readyRead: every round takes at least one unit, so the buffer's length is fuel enough.
  unfoldable pub socket_ready_read : Text → Text → State Service Text
  socket_ready_read bytes buffer = serve (length (buffer ++ bytes)) (buffer ++ bytes)

  unfoldable pub step_service : Input → Text → State Service Text
  step_service (reads bytes) buffer = socket_ready_read bytes buffer
  step_service (happens e) buffer = call json (step env e) >> pure buffer

  unfoldable pub run_service : List Input → Text → State Service Text
  run_service [] buffer = pure buffer
  run_service (i ∷ is) buffer = step_service i buffer >>= run_service is
