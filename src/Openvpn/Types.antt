-- ===== src/Openvpn/Types.antt =====
-- The state of OpenvpnManager (service/openvpnmanager.h), what it does to the world, and what it
-- asks of the world. A pointer member is the Boolean "not null". The n-th question of a run is
-- answered by the environment's value at n, so a theorem over all environments covers all answers.
use celo_desktop_app.Base.{
  ℕ, suc, ◌+◌, ◌-◌, ◌%◌, Bool, true, false, Option, none, some, List, [], ◌∷◌, map,
}
use celo_desktop_app.Base.Int.{ℤ, pos}
use celo_desktop_app.Base.State.{State}
use celo_desktop_app.Base.Text.{Text, ◌=text◌, contains, trim_start, trim_end}
use celo_desktop_app.Common.{Qt, VpnState, disconnected, StateWord}

pub data Os : Type 0 where
  linux darwin windows : Os

abbrev pub is_windows : Os → Bool
is_windows windows = true
is_windows linux = false
is_windows darwin = false

-- A network adapter of Windows: its description and its friendly name.
pub record Adapter : Type 0 where
  pub description : Text
  pub friendly_name : Text

pub record Env : Type 0 where
  pub os : Os
  pub qt : Qt
  -- Rounds that the loop of stopObfsproxy may take.
  pub rounds : ℕ
  -- ServicePathHelper.
  pub openvpn_filename : Text
  pub config_filename : Text
  pub log_filename : Text
  pub net_down_filename : Text
  pub up_script_filename : Text
  pub down_script_filename : Text
  pub running_script_filename : Text
  pub windows10 : Bool
  -- QProcess::state() is Running or Starting.
  pub process_active : ℕ → Bool
  pub socket_open : ℕ → Bool
  pub socket_valid : ℕ → Bool
  pub socket_connected : ℕ → Bool
  pub can_read_line : ℕ → Bool
  -- The output of OsSpecific::runCommandFast, and what a temporary file holds.
  pub output : ℕ → Text
  pub exit_code : ℕ → ℤ
  pub temp_file_opens : ℕ → Bool
  pub config_opens : ℕ → Bool
  pub file_exists : ℕ → Bool
  pub owned_by_root : ℕ → Bool
  -- The mode that stat() reports.
  pub file_mode : ℕ → Option ℕ
  -- QDateTime::currentDateTimeUtc(), in seconds.
  pub now : ℕ → ℕ
  -- GetAdaptersAddresses: nothing, an error, or the size of the buffer and the adapters.
  pub adapters : ℕ → Option (Option (ℕ × List Adapter))
  pub shell_execute : ℕ → ℕ

pub data Action : Type 0 where
  -- Signals.
  got_new_ip : Text → Action
  state_changed : VpnState → Action
  state_word_changed : StateWord → Action
  send_error : Text → Action
  timed_out : Action
  block_on_disconnect : Action
  switching_port : Text → Action
  -- Effects.
  fetch_template : Text → ℤ → Action
  write_config : Text → Action
  execute : Text → List Text → Action
  start_process : Text → List Text → Action
  connect_socket : ℤ → Action
  abort_socket : Action
  write_socket : Text → Action
  close_socket : Action
  watch_log : Action
  unwatch_log : Action
  start_state_timer : Action
  start_reconnect_timer : ℕ → Action
  fix_dns_leak : Action

pub record Manager : Type 0 where
  pub state : VpnState
  pub state_timer : Bool
  pub pid : ℤ
  pub socket : Bool
  pub process : Bool
  pub obfsproxy : Bool
  pub file_watcher : Bool
  pub log_file_position : ℕ
  pub processing : Bool
  pub tun_error : Bool
  pub error : Bool
  pub previous_state_word : Text
  pub reconnect_attempt : ℕ
  -- `none` is the null QDateTime.
  pub start_date_time : Option ℕ
  pub testing : Bool
  pub vpn_username : Text
  pub vpn_password : Text
  pub hostname : Text
  pub port : Text
  pub local_port : Text
  pub template_url : Text
  pub tcp_or_udp : Text
  pub server_id : ℤ
  pub encryption : ℤ
  pub reconnect : Bool
  pub fix_dns : Bool
  pub dns1 : Text
  pub dns2 : Text
  pub net_down : Bool
  pub template_has_dns_options : Bool
  pub ovpn_template : List (ℤ × Text)
  -- Not in the source: the questions asked, what was done (latest first), a use of a null socket,
  -- and a loop that did not end within its rounds.
  pub asked : ℕ
  pub trace : List Action
  pub crashed : Bool
  pub hung : Bool

-- The constructor. `raw` holds what the members that it does not name hold before: the numbers and
-- Booleans among them are indeterminate, the rest are set here to their default value.
unfoldable pub create : Manager → Manager
create raw = record raw {
  state = disconnected;
  state_timer = false;
  pid = pos 0;
  socket = false;
  process = false;
  obfsproxy = false;
  file_watcher = false;
  previous_state_word = [];
  start_date_time = none;
  testing = false;
  vpn_username = [];
  vpn_password = [];
  hostname = [];
  port = [];
  local_port = [];
  template_url = [];
  tcp_or_udp = [];
  dns1 = [];
  dns2 = [];
  net_down = false;
  ovpn_template = [];
  asked = 0;
  trace = [];
  crashed = false;
  hung = false;
}

abbrev pub M : Type 0 → Type 0
M A = State Manager A

-- Asks the environment.
unfoldable pub ask : {A : Type 0} → (ℕ → A) → M A
ask q m = (q m.asked, record m { asked = suc m.asked })

unfoldable pub emit : Action → M (Unit {0})
emit a m = (tt, record m { trace = a ∷ m.trace })

abbrev pub when : Bool → M (Unit {0}) → M (Unit {0})
when true c = c
when false c = λ m. (tt, m)

-- A comparison and a search with Qt::CaseInsensitive.
abbrev pub same_word : Qt → Text → Text → Bool
same_word qt a b = map qt.fold a =text map qt.fold b

abbrev pub contains_word : Qt → Text → Text → Bool
contains_word qt s t = contains (map qt.fold s) (map qt.fold t)

unfoldable pub trimmed : Qt → Text → Text
trimmed qt s = trim_end qt.is_space (trim_start qt.is_space s)

-- `uint d = start.secsTo(now)`, with the wrap of a clock that went back; 0 from a null time.
abbrev pub secs_to : Option ℕ → ℕ → ℕ
secs_to none now = 0
secs_to (some start) now = (now + 4294967296 - start) % 4294967296
