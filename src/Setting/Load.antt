-- ===== src/Setting/Load.antt =====
-- Setting::loadServer: the server of the last run, found again in the lists of this run.
use celo_desktop_app.Base.{ℕ, not, ◌&&◌, List, if◌then◌else◌, is_empty}
use celo_desktop_app.Base.Int.{ℤ, pos, negsuc, ltb_ℤ}
use celo_desktop_app.Base.State.{get, pure, ◌>>=◌, ◌>>◌}
use celo_desktop_app.Base.Text.{Text, codes, ◌=text◌}
use celo_desktop_app.Common.{Qt}
use celo_desktop_app.Auth.Types.{Account}
use celo_desktop_app.Auth.Servers.{get_server, current_encryption_servers, server_ix_from_name}
use celo_desktop_app.Auth.Jump.{get_server_to_jump}
use celo_desktop_app.Setting.Store.{int_value, text_value, Conversions, P, value}
use celo_desktop_app.Setting.Protocols.{tcp_or_udp}
use celo_desktop_app.Setting.Servers.{server_id, set_server}

-- The saved index, if its server has the saved name, or else the index of the saved name; -1 where
-- there is neither. The account goes along for its cache of the names.
unfoldable pub saved_ix : ℤ → Text → Account → ℤ × Account
saved_ix saved name a =
    if ltb_ℤ saved (pos 0)
    then (negsuc 0, a)
    else if not (is_empty (get_server a saved).name) && ((get_server a saved).name =text name)
    then (saved, a)
    else if name =text codes "undefined"
    then (negsuc 0, a)
    else server_ix_from_name name a

module _ (qt : Qt) (cv : Conversions) (sort : List (ℤ × ℤ) → List (ℤ × ℤ)) (pings : List ℤ)
    (first second : ℕ) where
  unfoldable pub select_saved : ℤ × Account → P Account
  select_saved (ix, a) = do
    p ← get
    let jump = get_server_to_jump sort first second (server_id qt cv a p) a pings
    set_server qt cv a (if ltb_ℤ ix (pos 0) then jump else ix)
    pure a

  unfoldable pub load_server : Account → P Account
  load_server a = do
    kind ← tcp_or_udp cv qt
    p ← get
    let saved = cv.to_int (value (codes "dd_Location_ix") (int_value (negsuc 0)) p)
    let name = cv.to_text (value (codes "dd_Location_str") (text_value (codes "undefined")) p)
    if is_empty (current_encryption_servers a kind)
        then pure a
        else select_saved (saved_ix saved name a)
