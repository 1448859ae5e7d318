-- ===== src/Tests/UpdatesExamples.antt =====
-- The check for updates, at concrete replies.
use celo_desktop_app.Base.{◌≡◌, refl, true, false, some, List, [], ◌∷◌, arith}
use celo_desktop_app.Base.Text.{codes}
use celo_desktop_app.Auth.Servers.{failed, bytes}
use celo_desktop_app.Setting.Store.{Preferences}
use celo_desktop_app.Auth.Updates.{
  Updates, UpdateEnv, Start, start_update, start_updates, check_updates, process_updates_xml,
  offer_update, do_update, on_preferences,
}
use celo_desktop_app.Auth.Updates.Rest.{messages, AreSpaced, InOrder, start_updates-AreSpaced}
use celo_desktop_app.Tests.SettingExamples.{
  unary, unary-Numbers, conversions, conversions-Converts, chosen,
}

abbrev update_env : UpdateEnv
update_env = record {
  qt = unary;
  cv = conversions;
  update_url = codes "https://www.celo.net/celovpn_linux.xml";
  testing = false;
  builds = λ s. some (s ∷ []);
}

-- Build 5 is offered, build 4 is not, and a request that fails shows nothing.
abbrev starts : List Start
starts =
    record { time = 2; reply = failed (codes "no route"); answered = 2; accepts = true }
    ∷ record { time = 5; reply = bytes (codes "4"); answered = 6; accepts = true }
    ∷ record { time = 8; reply = bytes (codes "5"); answered = 9; accepts = true }
    ∷ record { time = 20; reply = bytes (codes "6"); answered = 21; accepts = true }
    ∷ []

abbrev shown_updates : Unit {0} × Updates
shown_updates = start_updates update_env starts (record { preferences = chosen; trace = [] })

starts-messages : messages shown_updates.1.trace ≡ 9 ∷ []
unfolding start_updates start_update check_updates process_updates_xml offer_update do_update
    on_preferences celo_desktop_app.Setting.Values.check_for_updates
    celo_desktop_app.Setting.Values.update_message_shown celo_desktop_app.Setting.Store.set_value
    celo_desktop_app.Setting.Store.find celo_desktop_app.Setting.Store.put
starts-messages = refl

start_updates-AreSpaced_example : AreSpaced (messages shown_updates.1.trace)
unfolding InOrder
start_updates-AreSpaced_example =
    start_updates-AreSpaced update_env unary-Numbers conversions-Converts starts chosen refl (
      omega arith,
      omega arith,
      omega arith,
      (
        omega arith,
        omega arith,
        omega arith,
        (omega arith, omega arith, omega arith, (omega arith, omega arith, omega arith, tt)),
      ),
    )
