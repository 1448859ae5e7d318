-- ===== src/Setting/Flags.antt =====
-- The settings of Setting that are on or off, each with its check box on the settings screen.
use celo_desktop_app.Base.{Bool, true, false}
use celo_desktop_app.Base.State.{◌>>◌}
use celo_desktop_app.Base.Text.{Text, codes}
use celo_desktop_app.Setting.Store.{
  Conversions, Preferences, P, bool_value, detect_insecure_wifi_changed, value, set_value, signal,
}

pub data Flag : Type 0 where
  autoconnect block_on_disconnect fix_dns reconnect startup detect_insecure_wifi logging : Flag

unfoldable pub key : Flag → Text
key autoconnect = codes "cb_AutoConnect"
key block_on_disconnect = codes "cb_BlockOnDisconnect"
key fix_dns = codes "cb_FixDnsLeak"
key reconnect = codes "cb_Reconnect"
key startup = codes "cb_Startup"
key detect_insecure_wifi = codes "cb_InsecureWiFi"
key logging = codes "logging"

-- What value() gives without the key.
unfoldable pub by_default : Flag → Bool
by_default autoconnect = false
by_default block_on_disconnect = false
by_default fix_dns = true
by_default reconnect = true
by_default startup = true
by_default detect_insecure_wifi = false
by_default logging = true

module _ (cv : Conversions) where
  -- autoconnect, blockOnDisconnect, fixDns, reconnect, startup, detectInsecureWifi and logging.
  unfoldable pub is_on : Flag → Preferences → Bool
  is_on f p = cv.to_bool (value (key f) (bool_value (by_default f)) p)

-- What the setters store and emit.
unfoldable pub set_flag : Flag → Bool → P (Unit {0})
set_flag detect_insecure_wifi v = do
  set_value (key detect_insecure_wifi) (bool_value v)
  signal detect_insecure_wifi_changed
set_flag f v = set_value (key f) (bool_value v)
