-- ===== src/Setting/Servers.antt =====
-- The server of the settings: celovpn/setting.cpp with the lists of celovpn/authmanager.cpp that it
-- reads.
use celo_desktop_app.Base.{ℕ, ◌+◌, Option, none, some, List, [], ◌∷◌, if◌then◌else◌, get_elem?}
use celo_desktop_app.Base.Int.{ℤ, pos, eqb_ℤ}
use celo_desktop_app.Base.State.{get, skip, maybe, ◌>>=◌, ◌>>◌}
use celo_desktop_app.Base.Text.{codes, shift}
use celo_desktop_app.Common.{Qt}
use celo_desktop_app.Auth.Types.{Account}
use celo_desktop_app.Auth.Servers.{get_server, current_encryption_servers}
use celo_desktop_app.Setting.Store.{
  int_value, text_value, Conversions, Preferences, P, server_changed, value, set_value, signal,
}
use celo_desktop_app.Setting.Protocols.{tcp_or_udp}

-- QList::indexOf.
unfoldable pub index_of_id : ℤ → List ℤ → Option ℕ
index_of_id i [] = none
index_of_id i (j ∷ js) = if eqb_ℤ j i then some 0 else shift (index_of_id i js)

abbrev pub place_after : List ℤ → Option ℕ → Option ℤ
place_after ids none = none
place_after ids (some which) = get_elem? ids (which + 1)

-- The id behind `i` in the list, if there is one.
unfoldable pub id_after : ℤ → List ℤ → Option ℤ
id_after i ids = place_after ids (index_of_id i ids)

module _ (qt : Qt) (cv : Conversions) (a : Account) where
  unfoldable pub server_id : Preferences → ℤ
  server_id p = cv.to_int (value (codes "dd_Location_ix") (int_value (pos 0)) p)

  unfoldable pub set_server : ℤ → P (Unit {0})
  set_server ix = do
    set_value (codes "dd_Location_ix") (int_value ix)
    set_value (codes "dd_Location_str") (text_value (get_server a ix).name)
    signal server_changed

  -- switchToNextNode.
  unfoldable pub switch_to_next_node : P (Unit {0})
  switch_to_next_node = do
    kind ← tcp_or_udp cv qt
    p ← get
    maybe skip set_server (id_after (server_id p) (current_encryption_servers a kind))
