-- ===== src/Gui/KillSwitch.antt =====
-- The kill switch after the user's own disconnect.
use celo_desktop_app.Base.{
  ℕ, suc, ◌≡◌, refl, Bool, true, false, List, [], ◌∷◌, Bool-cases, inl, inr,
}
use celo_desktop_app.Base.Int.{ℤ, pos, eqb_ℤ}
use celo_desktop_app.Base.State.{Keeps, Keeps-bind, Keeps-if, Keeps-skip, keeps_rules, skip, ◌>>◌}
use celo_desktop_app.Base.Text.{Text}
use celo_desktop_app.Service.Client.{Value}
use celo_desktop_app.Gui.Manager.{
  GuiEnv, GuiSignal, kill_switch, Gui, G, raise, send_disconnect_from_vpn_request, send_or,
  ensure_connected, try_connect, connect_to_core, ask_socket, set_connected, send_command,
}
use celo_desktop_app.Gui.Notifications.{
  status_changed, on_timeout, on_code, read_tokens, socket_ready_read,
}

abbrev pub kills : List GuiSignal → ℕ
kills [] = 0
kills (kill_switch ∷ rest) = suc (kills rest)
kills (_ ∷ rest) = kills rest

-- The user has asked for the disconnect, no loop over the ports runs, and the kill switch was
-- signalled n times.
pub record Waits (n : ℕ) (g : Gui) : Type 0 where
  pub requested : g.user_requested_disconnect ≡ true
  pub no_loop : g.in_port_loop ≡ false
  pub count : kills g.signals ≡ n

abbrev pub IsHarmless : GuiSignal → Type 0
IsHarmless kill_switch = ⊥
IsHarmless _ = Unit {0}

-- One read after another.
abbrev pub read_all_bytes : GuiEnv → List Text → G (Unit {0})
read_all_bytes env [] = skip
read_all_bytes env (bytes ∷ rest) = socket_ready_read env bytes >> read_all_bytes env rest

module _ {n : ℕ} where
  raise-Waits : (s : GuiSignal) → IsHarmless s → Keeps (Waits n) (raise s)
  unfolding raise
  raise-Waits kill_switch q = absurd q
  raise-Waits _ q = record {
    at = λ g h. record { requested = h.requested; no_loop = h.no_loop; count = h.count };
  }

  module _ (env : GuiEnv) where
    status_changed-Waits : (st : ℤ) → Keeps (Waits n) (status_changed env st)
    unfolding status_changed raise
    status_changed-Waits st = record {
      at = λ g h. elim (Bool-cases (eqb_ℤ st (pos 2))) [
        | inl up ↦ rw up (record { requested = h.requested; no_loop = refl; count = h.count })
        | inr other ↦ elim (Bool-cases (eqb_ℤ st (pos 0))) [
          | inl down ↦
              rw (other, down, h.requested)
                (record { requested = refl; no_loop = h.no_loop; count = h.count })
          | inr up ↦
              rw (other, up)
                (record { requested = h.requested; no_loop = h.no_loop; count = h.count })
        ]
      ];
    }

    on_timeout-Waits : Keeps (Waits n) (on_timeout env)
    unfolding on_timeout raise
    on_timeout-Waits = record {
      at = λ g h. elim (Bool-cases g.port_dialog_shown) [
        | inl shown ↦
            rw (h.no_loop, shown)
              (record { requested = h.requested; no_loop = refl; count = h.count })
        | inr hidden ↦
            rw (h.no_loop, hidden)
              (record { requested = h.requested; no_loop = refl; count = h.count })
      ];
    }

    on_code-Waits : (token : Text) (code : ℤ) → Keeps (Waits n) (on_code env token code)
    unfolding on_code
    on_code-Waits token code =
        search (keeps_rules, raise-Waits, tt, status_changed-Waits, on_timeout-Waits) depth 14

    read_tokens-Waits : (tokens : List Text) → Keeps (Waits n) (read_tokens env tokens)
    unfolding read_tokens
    read_tokens-Waits [] = Keeps-skip
    read_tokens-Waits (token ∷ rest) =
        Keeps-bind (Keeps-if (env.json.has_no_members token) Keeps-skip (on_code-Waits token _))
          (λ _. read_tokens-Waits rest)

    ask_socket-Waits : (q : ℕ → Bool) → Keeps (Waits n) (ask_socket q)
    unfolding ask_socket
    ask_socket-Waits q = record {
      at = λ g h. record { requested = h.requested; no_loop = h.no_loop; count = h.count };
    }

    set_connected-Waits : (b : Bool) → Keeps (Waits n) (set_connected b)
    unfolding set_connected
    set_connected-Waits b = record {
      at = λ g h. record { requested = h.requested; no_loop = h.no_loop; count = h.count };
    }

    send_command-Waits : (obj : List (Text × Value)) → Keeps (Waits n) (send_command env obj)
    unfolding send_command
    send_command-Waits obj = record {
      at = λ g h. record { requested = h.requested; no_loop = h.no_loop; count = h.count };
    }

    ruleset waits =
        (keeps_rules, raise-Waits, tt, ask_socket-Waits, set_connected-Waits, send_command-Waits)

    connect_to_core-Waits : Keeps (Waits n) (connect_to_core env)
    unfolding connect_to_core
    connect_to_core-Waits = search waits depth 14

    try_connect-Waits : Keeps (Waits n) (try_connect env)
    unfolding try_connect
    try_connect-Waits = search (waits, connect_to_core-Waits) depth 14

    ensure_connected-Waits : Keeps (Waits n) (ensure_connected env)
    unfolding ensure_connected
    ensure_connected-Waits = search (waits, try_connect-Waits) depth 16

    send_or-Waits :
        (otherwise : G (Unit {0})) (obj : List (Text × Value))
        → Keeps (Waits n) otherwise
        → Keeps (Waits n) (send_or env otherwise obj)
    unfolding send_or
    send_or-Waits otherwise obj h = search (waits, ensure_connected-Waits) depth 14

    read_all-Waits : (reads : List Text) → Keeps (Waits n) (read_all_bytes env reads)
    unfolding socket_ready_read
    read_all-Waits [] = Keeps-skip
    read_all-Waits (bytes ∷ rest) = Keeps-bind (read_tokens-Waits _) (λ _. read_all-Waits rest)

-- When the user disconnects while no loop over the ports runs, then whatever the service sends until
-- the next request, in any number of reads, the kill switch is not signalled.
pub disconnect_is_quiet :
    (env : GuiEnv) (g : Gui) (reads : List Text)
    → g.in_port_loop ≡ false
    → kills (read_all_bytes env reads (send_disconnect_from_vpn_request env g).1).1.signals
      ≡ kills g.signals
unfolding send_disconnect_from_vpn_request
disconnect_is_quiet env g reads h =
    let asked =
      (send_or-Waits {n = kills g.signals} env skip _ Keeps-skip).at
        (record g { user_requested_disconnect = true })
        (record { requested = refl; no_loop = h; count = refl }) in
    ((read_all-Waits {n = kills g.signals} env reads).at _ asked).count
