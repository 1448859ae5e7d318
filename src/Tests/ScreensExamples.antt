-- ===== src/Tests/ScreensExamples.antt =====
-- The theorems about the screens, at concrete inputs.
use celo_desktop_app.Base.{
  ℕ, ◌+◌, ◌%◌, ◌≤◌, ◌≡◌, refl, ◌↔◌, true, false, none, some, List, [], ◌∷◌, arith, if◌then◌else◌,
  ltb,
}
use celo_desktop_app.Base.Int.{ℤ, pos, negsuc}
use celo_desktop_app.Base.Text.{codes, contains, find_text}
use celo_desktop_app.Auth.Servers.{
  current_encryption_servers, server_ix_from_name, find_name, fill_names, insert_name, get_server,
}
use celo_desktop_app.Setting.Store.{find}
use celo_desktop_app.Setting.Protocols.{
  names_for, tcp_or_udp, protocol_name, current_protocol, current_encryption_protocols,
  populate_colls,
}
use celo_desktop_app.Auth.Types.{Account}
use celo_desktop_app.Setting.Servers.{index_of_id}
use celo_desktop_app.Setting.Flags.{logging, is_on}
use celo_desktop_app.Screens.Map.{
  MapScreen, Chooser, MapEnv, second_step, done, set_location, slots, reselect,
}
use celo_desktop_app.Screens.Map.Choice.{IsChosen, set_location_lem}
use celo_desktop_app.Screens.Map.Redraw.{reselect_lem}
use celo_desktop_app.Screens.Dialog.{
  Dialog, red, DialogEvent, create_dialog, dialog_run, state, word, new_ip_loaded,
}
use celo_desktop_app.Screens.Dialog.Phases.{ready, phase_after, ShowsPhase, dialog_run_lem}
use celo_desktop_app.Screens.Settings.{
  Line, SettingsPanel, SettingsEnv, clicks, writes_dns1, create_settings, settings_run,
}
use celo_desktop_app.Screens.Settings.Boxes.{settings_run_lem}
use celo_desktop_app.Tests.AuthExamples.{auth}
use celo_desktop_app.Tests.SettingExamples.{
  unary, conversions, conversions-Converts, chosen, account,
}

-- An index out of range is no item.
abbrev item_at : ℕ → ℤ → ℤ
item_at n (pos i) = if ltb i n then pos i else negsuc 0
item_at n (negsuc i) = negsuc 0

item_at-in_range : (n i : ℕ) → i ≤ n → item_at (n + 1) (pos i) ≡ pos i
item_at-in_range n i h = ground arith

abbrev map_env : MapEnv
map_env = record {
  qt = unary;
  cv = conversions;
  select = item_at;
  refilled = pos 0;
  rand = 7;
  default_point = (1, 2);
}

-- The first row is selected; the servers of the protocol are 2, 0 and 1.
abbrev map_screen : MapScreen
map_screen = record {
  server_ids = pos 2 ∷ pos 0 ∷ pos 1 ∷ [];
  repopulating = false;
  rows = codes "--" ∷ codes "c" ∷ codes "a" ∷ codes "b" ∷ [];
  row = pos 0;
  protocol_rows = [];
  protocol_row = pos 2;
  rows_enabled = true;
  protocols_enabled = true;
  connect_enabled = true;
  first_mark = done;
  second_mark = second_step;
  spot = (0, 0);
  caption = [];
}

abbrev chooser : Chooser
chooser = record { screen = map_screen; preferences = chosen; auth = auth; hung = false }

set_location_lem_example :
    (f : ℕ) × (index_of_id (pos 0) (pos 2 ∷ pos 0 ∷ pos 1 ∷ []) ≡ some f)
    × IsChosen map_env
        (pos 2 ∷ pos 0 ∷ pos 1 ∷ [])
        0
        f
        (set_location map_env (slots map_env 2) (pos 2) chooser).1
unfolding current_encryption_servers tcp_or_udp contains find_text protocol_name current_protocol
    find current_encryption_protocols populate_colls names_for
set_location_lem_example =
    set_location_lem map_env conversions-Converts (pos 2 ∷ pos 0 ∷ pos 1 ∷ []) (item_at-in_range 3)
      0 0 1 chooser
      (record {
        ready = record { names = refl; numbers = refl; idle = refl };
        idle = refl;
        shown = refl;
        listed = refl;
        counted = refl;
        ends = refl;
      })
      refl refl

reselect_lem_example :
    (1 + 1 ≤ (reselect map_env (pos 2) (pos 1 ∷ []) account).0) ↔ (7 % (1 + 1) ≡ 1)
unfolding index_of_id server_ix_from_name find_name fill_names insert_name get_server
reselect_lem_example = reselect_lem map_env 2 (pos 1 ∷ []) account refl refl

abbrev dialog : Dialog
dialog = record {
  connect_shown = false;
  cancel_shown = false;
  rows = false;
  status = red;
  country = [];
  flag_shown = true;
  flag_box_shown = true;
  flag_png = [];
  percent = [];
  percent_shown = true;
  load_shown = true;
  new_ip = [];
  new_ip_shown = true;
  old_ip = [];
  old_ip_shown = true;
  login = [];
  login_shown = true;
  email = [];
  email_shown = true;
  encryption_text = [];
  protocol_text = [];
}

abbrev signals : List (Account × DialogEvent)
signals =
    (account, state (pos 1))
    ∷ (account, state (pos 2))
    ∷ (account, new_ip_loaded (codes "1.2.3.4"))
    ∷ (account, word (pos 8))
    ∷ []

dialog_run_lem_example :
    ShowsPhase
      (phase_after signals ready)
      (dialog_run unary conversions signals
        (create_dialog unary conversions account 4
          (record { dialog = dialog; preferences = chosen })).1).1.dialog
dialog_run_lem_example =
    dialog_run_lem unary conversions signals account 4
      (record { dialog = dialog; preferences = chosen })

abbrev settings_env : SettingsEnv
settings_env = record {
  qt = unary;
  cv = conversions;
  default_dns1 = codes "1.1.1.1";
  default_dns2 = codes "84.200.69.80";
  made = true;
  file = none;
  select = item_at;
  rand = 3;
}

abbrev line : Line
line = record { text = []; error = false }

abbrev settings_panel : SettingsPanel
settings_panel = record {
  form = record {
    checked = λ f. false;
    local_port = line;
    dns1 = line;
    dns2 = line;
    encryption_row = pos 0;
  };
  preferences = chosen;
  files = [];
  log_enabled = true;
}

settings_run_lem_example :
    let t =
      (settings_run settings_env
        (clicks logging ∷ writes_dns1 (codes "8.8") ∷ [])
        (create_settings settings_env settings_panel).1).1 in
    t.form.checked logging ≡ is_on conversions logging t.preferences
settings_run_lem_example =
    settings_run_lem settings_env conversions-Converts
      (clicks logging ∷ writes_dns1 (codes "8.8") ∷ []) logging settings_panel
