-- ===== src/Tests.antt =====
-- Concrete inputs: an ASCII instance of Qt's tables, an environment on Linux in which nothing runs,
-- and the theorems at them.
pub mod ManagerExamples
pub mod ServiceExamples
pub mod SettingExamples
pub mod GuiExamples
pub mod PlacesExamples
pub mod UpdatesExamples
pub mod SortExamples
pub mod AuthExamples
pub mod DesktopExamples
pub mod ScreensExamples
use celo_desktop_app.Base.{
  ℕ, zero, suc, ◌+◌, ◌-◌, ◌*◌, ◌<◌, ◌≡◌, refl, ◌↔◌, ◌≢◌, Bool, true, false, ◌&&◌, Option, none,
  some, List, [], ◌∷◌, ◌++◌, arith, leb, ◌==◌, if◌then◌else◌, length, drop, All, ◌/◌, ◌%◌,
}
use celo_desktop_app.Base.Int.{ℤ, pos, negsuc}
use celo_desktop_app.Base.State.{pure, ◌>>=◌, ◌>>◌}
use celo_desktop_app.Base.Text.{Text, codes, split, split_skip}
use celo_desktop_app.Common.{
  Qt, VpnState, disconnected, connecting, connected, escape_psw, count_unit, is_valid_ip,
  is_valid_port,
}
use celo_desktop_app.Openvpn.Types.{
  linux, Env, Action, Manager, create, fetch_template, write_config, timed_out, state_changed,
}
use celo_desktop_app.Openvpn.Connect.{StartArgs}
use celo_desktop_app.Openvpn.Events.{Event, starts, stops, timer_fires, socket_reads, run}
use celo_desktop_app.Service.Client.{Json, Client, Service, create_client, Value, string}

abbrev pub is_ascii_digit : ℕ → Bool
is_ascii_digit c = leb b'0' c && leb c b'9'

abbrev pub digits : ℕ → Text → Option ℤ
digits n [] = some (pos n)
digits n (c ∷ cs) = if is_ascii_digit c then digits (n * 10 + (c - b'0')) cs else none

abbrev pub to_number : Text → Option ℤ
to_number [] = none
to_number (c ∷ cs) = digits 0 (c ∷ cs)

abbrev pub ascii : Qt
ascii = record {
  fold = λ c. if leb b'A' c && leb c b'Z' then c + 32 else c;
  is_digit = is_ascii_digit;
  is_space = λ c. c == b' ';
  to_int = to_number;
  number = λ n. codes "7505";
}

abbrev pub idle_env : Env
idle_env = record {
  os = linux;
  qt = ascii;
  rounds = 2;
  openvpn_filename = codes "/opt/openvpn";
  config_filename = codes "/tmp/config";
  log_filename = codes "/tmp/log";
  net_down_filename = codes "/opt/netdown";
  up_script_filename = codes "/opt/up.sh";
  down_script_filename = codes "/opt/down.sh";
  running_script_filename = codes "/opt/running.sh";
  windows10 = false;
  process_active = λ n. false;
  socket_open = λ n. false;
  socket_valid = λ n. false;
  socket_connected = λ n. false;
  can_read_line = λ n. false;
  output = λ n. [];
  exit_code = λ n. pos 1;
  temp_file_opens = λ n. true;
  config_opens = λ n. true;
  file_exists = λ n. true;
  owned_by_root = λ n. true;
  file_mode = λ n. some 511;
  now = λ n. 1000;
  adapters = λ n. none;
  shell_execute = λ n. 42;
}

-- What the memory of a new manager may hold.
abbrev pub raw_manager : Manager
raw_manager = record {
  state = disconnected;
  state_timer = false;
  pid = pos 7;
  socket = false;
  process = false;
  obfsproxy = false;
  file_watcher = false;
  log_file_position = 3;
  processing = true;
  tun_error = true;
  error = false;
  previous_state_word = [];
  reconnect_attempt = 9;
  start_date_time = none;
  testing = false;
  vpn_username = [];
  vpn_password = [];
  hostname = [];
  port = [];
  local_port = [];
  template_url = [];
  tcp_or_udp = [];
  server_id = pos 0;
  encryption = pos 0;
  reconnect = true;
  fix_dns = false;
  dns1 = [];
  dns2 = [];
  net_down = false;
  template_has_dns_options = false;
  ovpn_template = [];
  asked = 0;
  trace = [];
  crashed = false;
  hung = false;
}

abbrev pub start_args : StartArgs
start_args = record {
  encryption = pos 0;
  server_id = pos 3;
  server = codes "10.0.0.9";
  port = codes "53";
  template_url = codes "https://celo.net/t3";
  local_port = codes "9090";
  tcp_or_udp = codes "udp";
  fix_dns = false;
  dns1 = codes "8.8.8.8";
  dns2 = codes "8.8.4.4";
}

-- Connected since time 0, with a template at hand, in whose port class 53 is.
abbrev pub online : Manager
online = record raw_manager {
  state = connected;
  state_timer = true;
  previous_state_word = codes "CONNECTED";
  start_date_time = some 0;
  server_id = pos 3;
  port = codes "53";
  ovpn_template = (pos 32, codes "client\ndev tun") ∷ [];
}

abbrev pub raw_client : Client
raw_client = record {
  state = connected;
  reconnecting = true;
  kill_switch = true;
  disconnect_requested = true;
  encryption = pos 0;
  server_id = pos 0;
  hostname = [];
  port = [];
  template_url = [];
  local_port = [];
  tcp_or_udp = [];
  sent = [];
}

-- A reader that knows one command, and a printer that prints nothing but the texts.
abbrev pub texts : List (Text × Value) → Text
texts [] = []
texts ((k, string v) ∷ rest) = v ++ texts rest
texts (_ ∷ rest) = texts rest

abbrev pub plain_json : Json
plain_json = record {
  int_at = λ doc key. pos (length doc - 1);
  text_at = λ doc key. doc;
  bool_at = λ doc key. false;
  has_no_members = λ doc. false;
  print = texts;
  to_latin1 = λ t. t;
}

abbrev pub service : Service
service = record { manager = online; client = create_client raw_client; before = []; after = [] }
