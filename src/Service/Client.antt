-- ===== src/Service/Client.antt =====
-- A client's connection: its state, its messages, and the manager's signals that it receives.
use celo_desktop_app.Base.{ℕ, map, Bool, false, List, [], ◌∷◌, ◌++◌}
use celo_desktop_app.Base.Int.{ℤ, pos}
use celo_desktop_app.Base.State.{State}
use celo_desktop_app.Base.Text.{Text, codes}
use celo_desktop_app.Common.{
  VpnState, disconnected, state_code, StateWord, word_code, command_code, status_change,
  status_word, timeout, error, got_ip,
}
use celo_desktop_app.Openvpn.Types.{
  Action, Manager, M, got_new_ip, state_changed, state_word_changed, send_error, timed_out,
}

pub data Value : Type 0 where
  number : ℤ → Value
  string : Text → Value
  boolean : Bool → Value

-- Qt's JSON: `value(key).toInt()`, `toString()` and `toBool()` of the object in a line, the compact
-- print of an object, and QString::toLatin1.
pub record Json : Type 0 where
  pub int_at : Text → Text → ℤ
  pub text_at : Text → Text → Text
  pub bool_at : Text → Text → Bool
  -- The object has no members, or the text holds none.
  pub has_no_members : Text → Bool
  pub print : List (Text × Value) → Text
  pub to_latin1 : Text → Text

-- The members but mReceiveBuffer, which only socket_readyRead uses. `sent` is what was written.
pub record Client : Type 0 where
  pub state : VpnState
  pub reconnecting : Bool
  pub kill_switch : Bool
  pub disconnect_requested : Bool
  pub encryption : ℤ
  pub server_id : ℤ
  pub hostname : Text
  pub port : Text
  pub template_url : Text
  pub local_port : Text
  pub tcp_or_udp : Text
  pub sent : Text

-- A connection with its mReceiveBuffer. `id` stands for the object's address.
pub record Worker : Type 0 where
  pub id : ℕ
  pub buffer : Text
  pub client : Client

-- The manager, the connection that runs, and the server's connections before and behind it in
-- m_workers: the manager signals to all of them.
pub record Service : Type 0 where
  pub manager : Manager
  pub client : Client
  pub before : List Worker
  pub after : List Worker

-- The constructor, over what the memory held.
unfoldable pub create_client : Client → Client
create_client raw = record raw {
  state = disconnected;
  reconnecting = false;
  kill_switch = false;
  disconnect_requested = false;
  hostname = [];
  port = [];
  template_url = [];
  local_port = [];
  tcp_or_udp = [];
  sent = [];
}

module _ (json : Json) where
  unfoldable pub send_message : List (Text × Value) → Client → Client
  send_message obj c = record c {
    sent = c.sent ++ (json.to_latin1 (json.print obj) ++ (b'\n' ∷ []));
  }

  unfoldable pub vpn_status : VpnState → Client → Client
  vpn_status st = send_message (
      (codes "code", number (pos (command_code status_change)))
      ∷ (codes "state", number (pos (state_code st)))
      ∷ [])

  unfoldable pub vpn_state_changed : VpnState → Client → Client
  vpn_state_changed st c = vpn_status st (record c { state = st })

  unfoldable pub vpn_state_word : StateWord → Client → Client
  vpn_state_word word = send_message (
      (codes "code", number (pos (command_code status_word)))
      ∷ (codes "state", number (pos (word_code word)))
      ∷ [])

  unfoldable pub vpn_error : Text → Client → Client
  vpn_error message =
      send_message
        ((codes "code", number (pos (command_code error))) ∷ (codes "message", string message) ∷ [])

  unfoldable pub vpn_new_ip : Text → Client → Client
  vpn_new_ip ip =
      send_message
        ((codes "code", number (pos (command_code got_ip))) ∷ (codes "ip", string ip) ∷ [])

  unfoldable pub vpn_timed_out : Client → Client
  vpn_timed_out = send_message ((codes "code", number (pos (command_code timeout))) ∷ [])

  -- The slot that a signal is connected to.
  unfoldable pub notify : Action → Client → Client
  notify (state_changed st) c = vpn_state_changed st c
  notify (state_word_changed word) c = vpn_state_word word c
  notify (send_error message) c = vpn_error message c
  notify (got_new_ip ip) c = vpn_new_ip ip c
  notify timed_out c = vpn_timed_out c
  notify _ c = c

  -- The signals of one call, latest first.
  unfoldable pub deliver : List Action → Client → Client
  deliver [] c = c
  deliver (a ∷ rest) c = notify a (deliver rest c)

  abbrev pub deliver_to : List Action → Worker → Worker
  deliver_to signals w = record w { client = deliver signals w.client }

  -- A call of the manager. Its signals are direct: the slots read nothing of the manager and change
  -- nothing in it, so they may run behind the call, in their order.
  unfoldable pub call : M (Unit {0}) → State Service (Unit {0})
  call op s =
      let m = (op (record s.manager { trace = [] })).1 in
      (
        tt,
        record {
          manager = m;
          client = deliver m.trace s.client;
          before = map (deliver_to m.trace) s.before;
          after = map (deliver_to m.trace) s.after;
        },
      )
