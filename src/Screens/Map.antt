-- ===== src/Screens/Map.antt =====
-- MapScreen (celovpn/mapscreen.cpp): the lists of protocols and of servers over Setting and
-- AuthManager. A combo box is its items and its current index.
pub mod Rows
pub mod Choice
pub mod Redraw
use celo_desktop_app.Base.{
  ℕ, zero, suc, ◌+◌, ◌%◌, Bool, true, false, not, ◌&&◌, Option, none, some, List, [], ◌∷◌, ◌++◌,
  if◌then◌else◌, ltb, ◌==◌, length, is_empty, get_elem?, map, take,
}
use celo_desktop_app.Base.Int.{ℤ, pos, negsuc, ltb_ℤ, eqb_ℤ, ◌+ℤ◌}
use celo_desktop_app.Base.State.{State, get, modify, skip, pure, maybe, ◌>>=◌, ◌>>◌}
use celo_desktop_app.Base.Text.{Text, codes, ◌=text◌}
use celo_desktop_app.Common.{Qt}
use celo_desktop_app.Auth.Types.{Account, Auth, A}
use celo_desktop_app.Auth.Servers.{
  get_server, current_encryption_servers, server_ix_from_name, set_new_ip,
}
use celo_desktop_app.Setting.Store.{
  Conversions, Preferences, P, Signal, encryption_changed, protocol_changed, server_changed,
  detect_insecure_wifi_changed,
}
use celo_desktop_app.Setting.Protocols.{
  current_encryption_protocols, current_protocol, set_protocol, tcp_or_udp,
}
use celo_desktop_app.Setting.Servers.{index_of_id, server_id, set_server}
use celo_desktop_app.Screens.Flag.{coords_from_srv_name, short_name}

-- gs_stIcon1, gs_stIcon2, gs_stIcon2inact and gs_stIconV.
pub data Mark : Type 0 where
  first_step second_step second_inactive done : Mark

-- mShowingNodes and mUseServerColumn are true wherever they are read.
pub record MapScreen : Type 0 where
  pub server_ids : List ℤ
  pub repopulating : Bool
  pub rows : List Text
  pub row : ℤ
  pub protocol_rows : List Text
  pub protocol_row : ℤ
  pub rows_enabled : Bool
  pub protocols_enabled : Bool
  pub connect_enabled : Bool
  -- L_1 and L_2.
  pub first_mark : Mark
  pub second_mark : Mark
  -- L_Mark.
  pub spot : ℕ × ℕ
  pub caption : Text

-- The screen and what it reads and writes. `hung` is set where the slots call one another too deep.
pub record Chooser : Type 0 where
  pub screen : MapScreen
  pub preferences : Preferences
  pub auth : Auth
  pub hung : Bool

-- The parameters: `select n i` is the index after QComboBox::setCurrentIndex(i) on n items, and
-- `refilled` the one after clear() and the addItem() calls; `rand` is what qrand() returns.
pub record MapEnv : Type 0 where
  pub qt : Qt
  pub cv : Conversions
  pub select : ℕ → ℤ → ℤ
  pub refilled : ℤ
  pub rand : ℕ
  pub default_point : ℕ × ℕ

abbrev pub C : Type 0 → Type 0
C B = State Chooser B

unfoldable pub on_screen : (MapScreen → MapScreen) → C (Unit {0})
on_screen f = modify (λ c. record c { screen = f c.screen })

-- An operation of Setting that emits nothing.
unfoldable pub ask_settings : {B : Type 0} → P B → C B
ask_settings op c = let r = op c.preferences in (r.0, record c { preferences = r.1 })

unfoldable pub on_account_of : A (Unit {0}) → C (Unit {0})
on_account_of op = modify (λ c. record c { auth = (op c.auth).1 })

-- The slots of the signals, latest first, in their order.
unfoldable pub deliver_signals : (Signal → C (Unit {0})) → List Signal → C (Unit {0})
deliver_signals slot [] = skip
deliver_signals slot (s ∷ older) = do deliver_signals slot older; slot s

-- An operation of Setting, and the slots of what it has emitted.
unfoldable pub on_setting : (Signal → C (Unit {0})) → P (Unit {0}) → C (Unit {0})
on_setting slot op c =
    let p = (op (record c.preferences { signals = [] })).1 in
    deliver_signals slot p.signals
      (record c { preferences = record p { signals = p.signals ++ c.preferences.signals } })

abbrev pub id_or_none : Option ℤ → ℤ
id_or_none none = negsuc 0
id_or_none (some id) = id

-- The id in the row of that index, where the items begin behind the first one.
abbrev pub id_in_row : List ℤ → ℤ → ℤ
id_in_row ids (pos (suc k)) = id_or_none (get_elem? ids k)
id_in_row ids _ = negsuc 0

-- currentServerId.
unfoldable pub current_server_id : MapScreen → ℤ
current_server_id m = id_in_row m.server_ids m.row

-- The row that a loop over the ids finds, `0` for none.
abbrev pub row_of : Option ℕ → ℕ
row_of none = 0
row_of (some k) = suc k

unfoldable pub map_state_changed : ℤ → C (Unit {0})
map_state_changed st = on_screen (λ m. record m { connect_enabled = not (eqb_ℤ st (pos 1)) })

module _ (env : MapEnv) where
  abbrev pub or_default : ℕ × ℕ → ℕ × ℕ
  or_default (x, y) = if x == 0 && y == 0 then env.default_point else (x, y)

  unfoldable pub display_mark : Text → C (Unit {0})
  display_mark name = on_screen (λ m. record m {
    spot = or_default (coords_from_srv_name env.qt name);
    caption = short_name env.qt name;
  })

  -- The ids of the current protocol's servers.
  unfoldable pub current_servers : C (List ℤ)
  current_servers = do
    kind ← ask_settings (tcp_or_udp env.cv env.qt)
    c ← get
    pure (current_encryption_servers c.auth.account kind)

  -- The row of the server that was selected, by its id and name; what the account is afterwards
  -- goes along for its cache of the names.
  unfoldable pub row_by_id : Account → ℤ → Text → List ℤ → Option ℕ
  row_by_id a id name ids = if (get_server a id).name =text name then index_of_id id ids else none

  abbrev pub row_by_name : ℤ × Account → List ℤ → Option ℕ × Account
  row_by_name (ix, a) ids = (if ltb_ℤ (negsuc 0) ix then index_of_id ix ids else none, a)

  abbrev pub row_found : Option ℕ → Account → Text → List ℤ → Option ℕ × Account
  row_found (some k) a name ids = (some k, a)
  row_found none a name ids = row_by_name (server_ix_from_name name a) ids

  -- Where neither is found the row is drawn: qrand() % count() + 1.
  abbrev pub or_drawn : ℕ → Option ℕ → ℕ
  or_drawn count none = env.rand % count + 1
  or_drawn count (some k) = suc k

  unfoldable pub reselect : ℤ → List ℤ → Account → ℕ × Account
  reselect old ids a =
      let name = (get_server a old).name in
      let r = row_found (row_by_id a old name ids) a name ids in
      if ltb_ℤ (negsuc 0) old then (or_drawn (length ids + 1) r.0, r.1) else (0, a)

  module _ (slot : Signal → C (Unit {0})) where
    -- on_locationComboBox_currentIndexChanged.
    unfoldable pub location_changed : ℤ → C (Unit {0})
    location_changed ix = do
      c ← get
      if c.screen.repopulating then skip else (do
        if ltb_ℤ (pos 0) ix
            then (do
              on_screen (λ m. record m { second_mark = done })
              on_account_of (set_new_ip []))
            else on_screen (λ m. record m { second_mark = second_step })
        let id = if ltb_ℤ (pos 0) ix then current_server_id c.screen else negsuc 0
        on_setting slot (set_server env.qt env.cv c.auth.account id)
        display_mark (get_server c.auth.account id).name)

    -- locationComboBox->setCurrentIndex: the slot is called when the index changes.
    unfoldable pub set_location : ℤ → C (Unit {0})
    set_location i = do
      c ← get
      let row = env.select (length c.screen.rows) i
      if eqb_ℤ row c.screen.row
          then skip
          else (do on_screen (λ m. record m { row = row }); location_changed row)

    unfoldable pub update_location : C (Unit {0})
    update_location = do
      c ← get
      let id = server_id env.qt env.cv c.auth.account c.preferences
      ids ← current_servers
      let row = if ltb_ℤ (negsuc 0) id then row_of (index_of_id id ids) else 0
      if is_empty ids then skip else set_location (pos row)

    -- on_protocolComboBox_currentIndexChanged.
    unfoldable pub protocol_row_changed : ℤ → C (Unit {0})
    protocol_row_changed ix = do
      c ← get
      if c.screen.repopulating then skip else (do
        if ltb_ℤ (pos 0) ix
            then on_screen (λ m. record m {
              rows_enabled = true;
              first_mark = done;
              second_mark = if ltb_ℤ (pos 0) m.row then done else second_step;
            })
            else on_screen (λ m. record m {
              rows_enabled = false;
              first_mark = first_step;
              second_mark = second_inactive;
            })
        on_setting slot (set_protocol env.cv (ix +ℤ negsuc 0)))

    unfoldable pub set_protocol_row : ℤ → C (Unit {0})
    set_protocol_row i = do
      c ← get
      let row = env.select (length c.screen.protocol_rows) i
      if eqb_ℤ row c.screen.protocol_row
          then skip
          else (do on_screen (λ m. record m { protocol_row = row }); protocol_row_changed row)

    unfoldable pub update_protocol : C (Unit {0})
    update_protocol = do c ← get; set_protocol_row (current_protocol env.cv c.preferences +ℤ pos 1)

    -- While mRepopulationInProgress is set, the slots of the boxes return at once.
    unfoldable pub repopulate_protocols : C (Unit {0})
    repopulate_protocols = do
      v ← ask_settings current_encryption_protocols
      on_screen (λ m. record m {
        protocol_rows = codes "-- Select protocol & port --" ∷ v;
        protocol_row = env.refilled;
        repopulating = false;
      })
      if length v == 1 then set_protocol_row (pos 1) else skip
      on_screen (λ m. record m { protocols_enabled = not (length v == 1) })
      update_protocol

    unfoldable pub repopulate_locations : C (Unit {0})
    repopulate_locations = do
      c ← get
      let used = ltb 1 (length c.screen.rows)
      let old = if used then current_server_id c.screen else negsuc 0
      ids ← current_servers
      on_screen (λ m. record m {
        rows =
            (if used then take 1 m.rows else m.rows)
            ++ map (λ id. (get_server c.auth.account id).name ++ codes "\t\t") ids;
        row = if used then env.select (length m.rows) (pos 0) else m.row;
        server_ids = ids;
        repopulating = false;
      })
      let r = reselect old ids c.auth.account
      modify (λ d. record d { auth = record d.auth { account = r.1 } })
      set_location (pos r.0)
      update_location

    unfoldable pub repopulate : C (Unit {0})
    repopulate = do repopulate_protocols; repopulate_locations

  -- The slots that the constructor connects, on fuel.
  unfoldable pub slots : ℕ → Signal → C (Unit {0})
  slots zero s = modify (λ c. record c { hung = true })
  slots (suc n) server_changed = update_location (slots n)
  slots (suc n) protocol_changed = repopulate_locations (slots n)
  slots (suc n) encryption_changed = repopulate (slots n)
  slots (suc n) detect_insecure_wifi_changed = skip

  -- The constructor, over the widgets' first state: nothing is connected yet.
  unfoldable pub create_map : C (Unit {0})
  create_map = do on_screen (λ m. record m { repopulating = false }); repopulate (λ s. skip)
