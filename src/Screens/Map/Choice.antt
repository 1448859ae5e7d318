-- ===== src/Screens/Map/Choice.antt =====
-- A choice in the list of locations.
use celo_desktop_app.Base.{
  ℕ, suc, ◌+◌, ◌≤◌, ◌<◌, ◌≡◌, refl, sym, ap, ◌∙◌, false, some, List, [], ◌++◌, arith, length,
  get_elem?, Bool-cases, inl, inr,
}
use celo_desktop_app.Base.Int.{ℤ, pos, eqb_ℤ}
use celo_desktop_app.Base.Text.{Text}
use celo_desktop_app.Auth.Types.{act, on_account}
use celo_desktop_app.Auth.Servers.{current_encryption_servers, set_new_ip, get_server}
use celo_desktop_app.Setting.Store.{Converts, Signal, set_value, signal}
use celo_desktop_app.Setting.Protocols.{current_protocol}
use celo_desktop_app.Setting.Ports.{IsReady, tcp_or_udp-ready}
use celo_desktop_app.Setting.Nodes.{eqb-same, kind, server_id-set}
use celo_desktop_app.Setting.Servers.{index_of_id, server_id, set_server}
use celo_desktop_app.Screens.Map.{
  Chooser, MapEnv, C, on_screen, ask_settings, on_account_of, deliver_signals, on_setting,
  id_or_none, id_in_row, current_server_id, display_mark, current_servers, location_changed,
  set_location, update_location, slots, done,
}
use celo_desktop_app.Screens.Map.Rows.{
  eqb_sound, get-index_of_id, index_of_id-found, get-lt, kind-same, current_protocol-set_server,
  nonempty, not_negative, positive,
}

module _ (env : MapEnv) where
  -- The list of locations shows the current servers `ids`, and no slot has gone too deep.
  pub record Shows (ids : List ℤ) (c : Chooser) : Type 0 where
    pub ready : IsReady c.preferences
    pub idle : c.screen.repopulating ≡ false
    pub shown : c.screen.server_ids ≡ ids
    pub listed : current_encryption_servers c.auth.account (kind env.qt env.cv c.preferences) ≡ ids
    pub counted : length c.screen.rows ≡ length ids + 1
    pub ends : c.hung ≡ false

  -- The settings' server is `j`, in row `k + 1`.
  pub record IsChosen (ids : List ℤ) (j k : ℕ) (c : Chooser) : Type 0 where
    pub shows : Shows ids c
    pub server : server_id env.qt env.cv c.auth.account c.preferences ≡ pos j
    pub row : c.screen.row ≡ pos (suc k)

module _ (env : MapEnv) (laws : Converts env.cv env.qt.number) (ids : List ℤ)
    (in_range : (i : ℕ) → i ≤ length ids → env.select (length ids + 1) (pos i) ≡ pos i) where
  current_servers-Shows : (c : Chooser) → Shows env ids c → current_servers env c ≡ (ids, c)
  unfolding current_servers ask_settings
  current_servers-Shows c h =
      rw (tcp_or_udp-ready env.cv env.qt c.preferences h.ready) (rw (h.listed) refl)

  select-row :
      (c : Chooser) (i : ℕ)
      → Shows env ids c
      → i ≤ length ids
      → env.select (length c.screen.rows) (pos i) ≡ pos i
  select-row c i h le = ap (λ (n : ℕ). env.select n (pos i)) h.counted ∙ in_range i le

  set_location-stays :
      (slot : Signal → C (Unit {0})) (i : ℤ) (c : Chooser)
      → env.select (length c.screen.rows) i ≡ c.screen.row
      → set_location env slot i c ≡ (tt, c)
  unfolding set_location
  set_location-stays slot i c e = rw (e, eqb-same c.screen.row) refl

  set_location-moves :
      (slot : Signal → C (Unit {0})) (i : ℕ) (c : Chooser)
      → env.select (length c.screen.rows) (pos i) ≡ pos i
      → eqb_ℤ (pos i) c.screen.row ≡ false
      → set_location env slot (pos i) c
        ≡ location_changed env slot (pos i) (record c { screen = record c.screen { row = pos i } })
  unfolding set_location on_screen
  set_location-moves slot i c e n = rw (e, n) refl

  -- The settings' server stands in a row: this row is selected.
  update_location-row :
      (slot : Signal → C (Unit {0})) (c : Chooser) (j f : ℕ)
      → Shows env ids c
      → server_id env.qt env.cv c.auth.account c.preferences ≡ pos j
      → index_of_id (pos j) ids ≡ some f
      → f < length ids
      → update_location env slot c ≡ set_location env slot (pos (suc f)) c
  unfolding update_location
  update_location-row slot c j f h e found below =
      rw (current_servers-Shows c h, e, not_negative j, found, nonempty ids f below) refl

  update_location-stays :
      (slot : Signal → C (Unit {0})) (c : Chooser) (j f : ℕ)
      → IsChosen env ids j f c
      → index_of_id (pos j) ids ≡ some f
      → f < length ids
      → update_location env slot c ≡ (tt, c)
  update_location-stays slot c j f h found below =
      update_location-row slot c j f h.shows h.server found below
      ∙ set_location-stays slot (pos (suc f)) c
          (select-row c (suc f) h.shows (omega arith) ∙ sym h.row)

  -- The state in which the slot of the boxes' signal leaves the parts, before it tells of the server.
  landed : Chooser → ℤ → Chooser
  landed c id =
      let p =
        (set_server env.qt env.cv c.auth.account id (record c.preferences { signals = [] })).1 in
      record c {
        screen = record c.screen { second_mark = done };
        auth = (set_new_ip [] c.auth).1;
        preferences = record p { signals = p.signals ++ c.preferences.signals };
      }

  landed-IsChosen :
      (c : Chooser) (j k : ℕ)
      → Shows env ids c
      → c.screen.row ≡ pos (suc k)
      → IsChosen env ids j k (landed c (pos j))
  unfolding landed set_server set_value signal set_new_ip on_account act current_encryption_servers
      server_id current_protocol
  landed-IsChosen c j k h r = record {
    shows = record {
      ready = record { names = h.ready.names; numbers = h.ready.numbers; idle = h.ready.idle };
      idle = h.idle;
      shown = h.shown;
      listed =
          ap (current_encryption_servers c.auth.account) (
            kind-same env.qt env.cv (landed c (pos j)).preferences c.preferences
              (record { names = h.ready.names; numbers = h.ready.numbers; idle = h.ready.idle })
              h.ready
              (current_protocol-set_server env.qt env.cv c.auth.account (pos j)
                (record c.preferences { signals = [] })))
          ∙ h.listed;
      counted = h.counted;
      ends = h.ends;
    };
    server =
        server_id-set env.qt env.cv c.auth.account laws (pos j)
          (record c.preferences { signals = [] });
    row = r;
  }

  current-row :
      (c : Chooser) (k j : ℕ)
      → Shows env ids c
      → c.screen.row ≡ pos (suc k)
      → get_elem? ids k ≡ some (pos j)
      → current_server_id c.screen ≡ pos j
  unfolding current_server_id
  current-row c k j h r e =
      ap (id_in_row c.screen.server_ids) r
      ∙ ap (λ (is : List ℤ). id_or_none (get_elem? is k)) h.shown
      ∙ ap id_or_none e

  location_changed-landed :
      (m k j : ℕ) (c : Chooser)
      → Shows env ids c
      → c.screen.row ≡ pos (suc k)
      → get_elem? ids k ≡ some (pos j)
      → location_changed env (slots env (suc m)) (pos (suc k)) c
        ≡ display_mark env
            (get_server c.auth.account (pos j)).name
            (update_location env (slots env m) (landed c (pos j))).1
  unfolding location_changed on_setting slots on_screen on_account_of landed deliver_signals
      set_server signal set_value
  location_changed-landed m k j c h r e = simp (h.idle, positive k, current-row c k j h r e)

  display_mark-IsChosen :
      (name : Text) (j k : ℕ) (c : Chooser)
      → IsChosen env ids j k c
      → IsChosen env ids j k (display_mark env name c).1
  unfolding display_mark on_screen
  display_mark-IsChosen name j k c h = record {
    shows = record {
      ready = h.shows.ready;
      idle = h.shows.idle;
      shown = h.shows.shown;
      listed = h.shows.listed;
      counted = h.shows.counted;
      ends = h.shows.ends;
    };
    server = h.server;
    row = h.row;
  }

  -- The first row of a server is selected: the slots settle at once.
  settles :
      (m j f : ℕ) (c : Chooser)
      → Shows env ids c
      → c.screen.row ≡ pos (suc f)
      → index_of_id (pos j) ids ≡ some f
      → f < length ids
      → IsChosen env ids j f (location_changed env (slots env (suc m)) (pos (suc f)) c).1
  settles m j f c h r found below =
      let stays =
        update_location-stays (slots env m) (landed c (pos j)) j f (landed-IsChosen c j f h r) found
          below in
      rw (location_changed-landed m f j c h r (get-index_of_id (pos j) ids f found), stays)
        (display_mark-IsChosen (get_server c.auth.account (pos j)).name j f (landed c (pos j))
          (landed-IsChosen c j f h r))

  moved :
      (c : Chooser) (i : ℤ)
      → Shows env ids c
      → Shows env ids (record c { screen = record c.screen { row = i } })
  moved c i h = record {
    ready = h.ready;
    idle = h.idle;
    shown = h.shown;
    listed = h.listed;
    counted = h.counted;
    ends = h.ends;
  }

  -- The settings hold a server that stands in a row of the list: the list goes to its first row.
  update_location-IsChosen :
      (m j k f : ℕ) (c : Chooser)
      → IsChosen env ids j k c
      → index_of_id (pos j) ids ≡ some f
      → f < length ids
      → IsChosen env ids j f (update_location env (slots env (suc m)) c).1
  update_location-IsChosen m j k f c h found below =
      let to = select-row c (suc f) h.shows (omega arith) in
      rw (update_location-row (slots env (suc m)) c j f h.shows h.server found below)
        (elim (Bool-cases (eqb_ℤ (pos (suc f)) c.screen.row)) [
          | inl same ↦
              let here = eqb_sound (pos (suc f)) c.screen.row same in
              rw (set_location-stays (slots env (suc m)) (pos (suc f)) c (to ∙ here))
                (record { shows = h.shows; server = h.server; row = sym here })
          | inr other ↦ rw (set_location-moves (slots env (suc m)) (suc f) c to other) (
              settles m j f (record c { screen = record c.screen { row = pos (suc f) } })
                (moved c (pos (suc f)) h.shows) refl found below)
        ])

  -- When the list of locations shows the current servers, and a row other than the current one is chosen
  -- in it, whose id is not negative, then the slots that call one another come to an end within two
  -- calls of update_location, the settings hold the id of that row, and the list stands on the first row
  -- with this id.
  pub set_location_lem :
      (m j k : ℕ) (c : Chooser)
      → Shows env ids c
      → get_elem? ids k ≡ some (pos j)
      → eqb_ℤ (pos (suc k)) c.screen.row ≡ false
      → (f : ℕ) × (index_of_id (pos j) ids ≡ some f)
        × IsChosen env ids j f (set_location env (slots env (suc (suc m))) (pos (suc k)) c).1
  set_location_lem m j k c h e other =
      let (f, found, below) = index_of_id-found ids k (pos j) e in
      let lt = get-lt ids k e in
      let c' = record c { screen = record c.screen { row = pos (suc k) } } in
      let h' = moved c (pos (suc k)) h in
      let last =
        update_location-IsChosen m j k f (landed c' (pos j)) (landed-IsChosen c' j k h' refl) found
          below in
      (
        f,
        found,
        rw
            (
              set_location-moves (slots env (suc (suc m))) (suc k) c
                  (select-row c (suc k) h (omega arith)) other,
              location_changed-landed (suc m) k j c' h' refl e,
            )
            (display_mark-IsChosen (get_server c.auth.account (pos j)).name j f
              (update_location env (slots env (suc m)) (landed c' (pos j))).1 last),
      )
