-- ===== src/Gui/PortLoop.antt =====
-- The loop over the ports: which port every timeout leads to.
use celo_desktop_app.Base.{
  ℕ, zero, suc, ◌+◌, ◌%◌, ◌<◌, ◌≡◌, refl, sym, ap, Bool, true, false, Option, none, some, List,
  arith, if◌then◌else◌, replicate, subst,
}
use celo_desktop_app.Base.Int.{ℤ, pos}
use celo_desktop_app.Base.State.{Keeps, keeps_rules, modify, ◌>>◌}
use celo_desktop_app.Base.Text.{Text, codes}
use celo_desktop_app.Service.Client.{Value}
use celo_desktop_app.Setting.Store.{Conversions, Converts}
use celo_desktop_app.Setting.Protocols.{current_protocol, tcp_or_udp}
use celo_desktop_app.Setting.Ports.{IsReady, tcp_or_udp-ready, switch-step}
use celo_desktop_app.Gui.Manager.{
  GuiEnv, GuiSignal, Gui, G, raise, on_settings, ask_socket, set_connected, connect_to_core,
  try_connect, ensure_connected, send_command, send_start, send_connect_to_vpn_request,
}
use celo_desktop_app.Gui.Notifications.{
  try_next_port, start_port_loop, on_timeout, on_code, read_tokens,
}

-- The loop over the ports runs and stands at place i of the table.
pub record Loops (cv : Conversions) (i : ℕ) (g : Gui) : Type 0 where
  pub changing : g.changing_ports ≡ true
  pub looping : g.in_port_loop ≡ true
  pub ready : IsReady g.preferences
  pub place : current_protocol cv g.preferences ≡ pos i

module _ (env : GuiEnv) {i : ℕ} where
  raise-Loops : (s : GuiSignal) → Keeps (Loops env.cv i) (raise s)
  unfolding raise
  raise-Loops s = record {
    at = λ g h. record {
      changing = h.changing;
      looping = h.looping;
      ready = h.ready;
      place = h.place;
    };
  }

  ask_socket-Loops : (q : ℕ → Bool) → Keeps (Loops env.cv i) (ask_socket q)
  unfolding ask_socket
  ask_socket-Loops q = record {
    at = λ g h. record {
      changing = h.changing;
      looping = h.looping;
      ready = h.ready;
      place = h.place;
    };
  }

  set_connected-Loops : (b : Bool) → Keeps (Loops env.cv i) (set_connected b)
  unfolding set_connected
  set_connected-Loops b = record {
    at = λ g h. record {
      changing = h.changing;
      looping = h.looping;
      ready = h.ready;
      place = h.place;
    };
  }

  send_command-Loops : (obj : List (Text × Value)) → Keeps (Loops env.cv i) (send_command env obj)
  unfolding send_command
  send_command-Loops obj = record {
    at = λ g h. record {
      changing = h.changing;
      looping = h.looping;
      ready = h.ready;
      place = h.place;
    };
  }

  kind-Loops : Keeps (Loops env.cv i) (on_settings (tcp_or_udp env.cv env.qt))
  unfolding on_settings
  kind-Loops = record { at = λ g h. rw (tcp_or_udp-ready env.cv env.qt g.preferences h.ready) h }

  ruleset loops = (
    keeps_rules, raise-Loops, ask_socket-Loops, set_connected-Loops, send_command-Loops, kind-Loops,
  )

  connect_to_core-Loops : Keeps (Loops env.cv i) (connect_to_core env)
  unfolding connect_to_core
  connect_to_core-Loops = search loops depth 14

  try_connect-Loops : Keeps (Loops env.cv i) (try_connect env)
  unfolding try_connect
  try_connect-Loops = search (loops, connect_to_core-Loops) depth 14

  ensure_connected-Loops : Keeps (Loops env.cv i) (ensure_connected env)
  unfolding ensure_connected
  ensure_connected-Loops = search (loops, try_connect-Loops) depth 16

  send_start-Loops : (o : Option ℤ) → Keeps (Loops env.cv i) (send_start env o)
  unfolding send_start
  send_start-Loops none = record {
    at = λ g h. record {
      changing = h.changing;
      looping = h.looping;
      ready = h.ready;
      place = h.place;
    };
  }
  send_start-Loops (some v) = search loops depth 14

  asked_again-Loops :
      Keeps
        (Loops env.cv i)
        (modify {S = Gui} (λ g. record g { user_requested_disconnect = false }))
  asked_again-Loops = record {
    at = λ g h. record {
      changing = h.changing;
      looping = h.looping;
      ready = h.ready;
      place = h.place;
    };
  }

  send_connect-Loops : Keeps (Loops env.cv i) (send_connect_to_vpn_request env)
  unfolding send_connect_to_vpn_request
  send_connect-Loops =
      search (loops, ensure_connected-Loops, send_start-Loops, asked_again-Loops) depth 14

if_true : {x : G (Unit {0})} (y : G (Unit {0})) (b : Bool) → b ≡ true → (if b then x else y) ≡ x
if_true y true e = refl
if_true y false e = absurd (cc e)

module _ (env : GuiEnv) (laws : Converts env.cv env.qt.number) where
  try_next_port-Loops :
      (i : ℕ) (g : Gui)
      → i < 3
      → Loops env.cv i g
      → Loops env.cv ((i + 1) % 3) (try_next_port env g).1
  unfolding try_next_port on_settings
  try_next_port-Loops i g b h =
      let (place, ready) =
        switch-step env.cv env.qt.number laws i g.preferences h.ready h.place b in
      rw h.changing (
        (send_connect-Loops env).at _
          (record { changing = refl; looping = h.looping; ready = ready; place = place }))

  -- The notification of a timeout.
  pub record IsTimeout (token : Text) : Type 0 where
    pub filled : env.json.has_no_members token ≡ false
    pub code : env.json.int_at token (codes "code") ≡ pos 8

  on_timeout-loops : (g : Gui) → g.in_port_loop ≡ true → on_timeout env g ≡ try_next_port env g
  unfolding on_timeout
  on_timeout-loops g e = ap (λ (f : G (Unit {0})). f g) (if_true _ g.in_port_loop e)

  timeouts-Loops :
      (n i : ℕ) (token : Text) (g : Gui)
      → IsTimeout token
      → i < 3
      → Loops env.cv i g
      → Loops env.cv ((i + n) % 3) (read_tokens env (replicate n token) g).1
  unfolding read_tokens on_code
  timeouts-Loops zero i token g t b h = let k : (i + 0) % 3 ≡ i = omega arith in rw k h
  timeouts-Loops (suc n) i token g t b h =
      let k : ((i + 1) % 3 + n) % 3 ≡ (i + suc n) % 3 = omega arith in
      let next =
        timeouts-Loops n ((i + 1) % 3) token (try_next_port env g).1 t (omega arith)
          (try_next_port-Loops i g b h) in
      rw (t.filled, t.code)
        (subst
          (λ (r : Unit {0} × Gui).
            Loops env.cv ((i + suc n) % 3) (read_tokens env (replicate n token) r.1).1)
          (sym (on_timeout-loops g h.looping)) (rw⁻¹ k next))

  -- With filled tables and a stored place i of the table, after startPortLoop(true) and n
  -- notifications of a timeout the loop still runs and the settings hold the place n + 1 further
  -- on, around the end of the table.
  pub start_port_loop_lem :
      (n i : ℕ) (token : Text) (g : Gui)
      → IsTimeout token
      → IsReady g.preferences
      → current_protocol env.cv g.preferences ≡ pos i
      → i < 3
      → Loops env.cv
          ((i + 1 + n) % 3)
          ((start_port_loop env true >> read_tokens env (replicate n token)) g).1
  unfolding start_port_loop
  start_port_loop_lem n i token g t ready place b =
      let k : ((i + 1) % 3 + n) % 3 ≡ (i + 1 + n) % 3 = omega arith in
      let started =
        try_next_port-Loops i
          (record g { changing_ports = true; port_dialog_shown = false; in_port_loop = true }) b
          (record { changing = refl; looping = refl; ready = ready; place = place }) in
      rw⁻¹ k (timeouts-Loops n ((i + 1) % 3) token _ t (omega arith) started)
