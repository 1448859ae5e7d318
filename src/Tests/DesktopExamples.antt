-- ===== src/Tests/DesktopExamples.antt =====
-- The theorems about the desktop, the saved server and the autostart file, at concrete inputs.
use celo_desktop_app.Base.{◌≡◌, refl, inl, inr, Bool-cases, true, false, none, [], ◌∷◌, is_empty}
use celo_desktop_app.Base.Int.{pos}
use celo_desktop_app.Base.State.{◌>>◌}
use celo_desktop_app.Base.Text.{Text, codes, ◌=text◌}
use celo_desktop_app.Auth.Servers.{failed, bytes, current_encryption_servers}
use celo_desktop_app.Auth.Login.Outcome.{listed, nodes_in}
use celo_desktop_app.Auth.Names.{first_named}
use celo_desktop_app.Setting.Load.{load_server}
use celo_desktop_app.Setting.Protocols.{current_protocol, protocol_name, tcp_or_udp}
use celo_desktop_app.Setting.Restore.{Holds, load_server_lem}
use celo_desktop_app.Setting.Store.{int_value, text_value, Preferences, find}
use celo_desktop_app.Desktop.Types.{no_icon, Desk, DeskEnv}
use celo_desktop_app.Desktop.Slots.{login_reply, logout_triggered}
use celo_desktop_app.Desktop.Reply.{Shows, login_reply_lem}
use celo_desktop_app.Desktop.Logout.{login_reply-logout_triggered}
use celo_desktop_app.Tests.AuthExamples.{auth, dom}
use celo_desktop_app.Tests.GuiExamples.{gui, gui_env}
use celo_desktop_app.Tests.SettingExamples.{
  unary, conversions, conversions-Converts, chosen, account,
}
use celo_desktop_app.Tests.SortExamples.{sort_pairs}

-- The saved index is that of `a`, and the saved name is `c`.
abbrev moved : Preferences
moved = record chosen {
  settings =
      (codes "dd_Location_ix", int_value (pos 0))
      ∷ (codes "dd_Location_str", text_value (codes "c"))
      ∷ chosen.settings;
}

listed_servers : (kind : Text) → is_empty (current_encryption_servers account kind) ≡ false
unfolding current_encryption_servers
listed_servers kind = elim (Bool-cases (kind =text codes "tcp")) [
  | inl t ↦ rw t refl
  | inr f ↦ rw f refl
]

load_server_lem_example :
    Holds unary conversions account
      (codes "c")
      (load_server unary conversions sort_pairs [] 0 0 account moved).1
unfolding tcp_or_udp protocol_name current_protocol find first_named
load_server_lem_example =
    load_server_lem unary conversions conversions-Converts sort_pairs [] 0 0 account moved 0 2
      (codes "c") (record { names = refl; numbers = refl; idle = refl }) (listed_servers _) refl
      refl refl refl (inl refl)

abbrev desk_env : DeskEnv
desk_env = record {
  gui = gui_env;
  dom = dom;
  sort = sort_pairs;
  testing = true;
  rand = λ n. 3;
  insecure_wifi = true;
}

abbrev desk : Desk
desk = record {
  gui = gui;
  auth = record auth { account = record account { logged_in = false } };
  form = record {
    name = codes "me";
    password = codes "pw";
    remember = true;
    buttons = false;
    connect_after_login = true;
    cancel_login = false;
    wifi_timer = true;
    wifi_processing = false;
  };
  tray = record {
    connect = true;
    connect_to = false;
    disconnect = false;
    jump = false;
    switch_country = false;
    logout = false;
    menu = none;
    menu_enabled = false;
    icon = no_icon;
  };
  windows = [];
  crashed = false;
}

login_reply_lem_example :
    Shows
      (listed dom (failed (codes "no route")))
      desk
      (login_reply desk_env (failed (codes "no route")) desk).1
login_reply_lem_example = login_reply_lem desk_env (failed (codes "no route")) desk refl

login_reply-logout_triggered_example :
    ((login_reply desk_env (bytes (codes "x")) >> logout_triggered desk_env) desk).1.crashed ≡ true
unfolding listed nodes_in
login_reply-logout_triggered_example =
    login_reply-logout_triggered desk_env (bytes (codes "x")) _ [] desk tt refl refl refl
