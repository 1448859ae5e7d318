-- ===== src/Openvpn/Words.antt =====
-- The state words of the management socket: which of them connect, and what a repeated word does.
use celo_desktop_app.Base.{◌≡◌, refl, ◌≢◌, ◌∙◌, Bool, true, false, map, Bool-cases, inl, inr}
use celo_desktop_app.Base.State.{Keeps, keeps_rules}
use celo_desktop_app.Base.Text.{Text, codes, ◌=text◌}
use celo_desktop_app.Base.Separators.{=text-refl}
use celo_desktop_app.Common.{disconnected, connecting, connected, StateWord}
use celo_desktop_app.Openvpn.Types.{Env, Action, Manager, M, emit, when, same_word}
use celo_desktop_app.Openvpn.Process.{set_state, start_reconnect, stop}
use celo_desktop_app.Openvpn.Connect.{StartArgs, start}
use celo_desktop_app.Openvpn.Management.{
  enter_connecting, exiting, resolving, other_word, state_word, parse_socket_state_word,
}
use celo_desktop_app.Openvpn.Stop.{state-set_state, stop_lem}
use celo_desktop_app.Openvpn.Starting.{start_lem}

-- The manager is not connected.
pub record IsApart (m : Manager) : Type 0 where
  pub apart : m.state ≢ connected

emit-IsApart : (a : Action) → Keeps IsApart (emit a)
unfolding emit
emit-IsApart a = record { at = λ m h. record { apart = h.apart } }

connecting-IsApart : Keeps IsApart (set_state connecting)
connecting-IsApart = record {
  at = λ m h. record { apart = λ e. cc (state-set_state connecting m) };
}

disconnected-IsApart : Keeps IsApart (set_state disconnected)
disconnected-IsApart = record {
  at = λ m h. record { apart = λ e. cc (state-set_state disconnected m) };
}

stop-IsApart : (env : Env) → Keeps IsApart (stop env)
stop-IsApart env = record { at = λ m h. record { apart = λ e. cc ((stop_lem env m).0) } }

when-IsApart : (b : Bool) {c : M (Unit {0})} → Keeps IsApart c → Keeps IsApart (when b c)
when-IsApart true k = k
when-IsApart false k = record { at = λ m h. h }

ruleset apart_rules = (
  keeps_rules, emit-IsApart, connecting-IsApart, disconnected-IsApart, stop-IsApart, when-IsApart,
)

enter_connecting-IsApart : (w : StateWord) → Keeps IsApart (enter_connecting w)
unfolding enter_connecting
enter_connecting-IsApart w = search apart_rules

exiting-IsApart : (env : Env) → Keeps IsApart (exiting env)
unfolding exiting start_reconnect
exiting-IsApart env = search apart_rules depth 12

resolving-IsApart : (env : Env) → Keeps IsApart (resolving env)
unfolding resolving
resolving-IsApart env = search apart_rules depth 12

-- Every word but CONNECTED leaves a manager that is not connected so.
other_word-IsApart : (env : Env) (word : Text) → Keeps IsApart (other_word env word)
unfolding other_word
other_word-IsApart env word =
    search (apart_rules, enter_connecting-IsApart, exiting-IsApart, resolving-IsApart) depth 14

-- A state line leaves a manager that was not connected connected only with the word CONNECTED, in
-- any case of its letters, and only if the word differs from that of the last state line.
pub connected_needs_word :
    (env : Env) (word s : Text) (m : Manager)
    → m.state ≢ connected
    → (parse_socket_state_word env word s m).1.state ≡ connected
    → (same_word env.qt word (codes "CONNECTED") ≡ true)
      × ((word =text m.previous_state_word) ≡ false)
unfolding parse_socket_state_word state_word
connected_needs_word env word s m apart now =
    elim (Bool-cases (same_word env.qt word (codes "CONNECTED"))) [
      | inr other ↦
          absurd (
            ((other_word-IsApart env word).at m (record { apart = apart })).apart (rw other at now))
      | inl hit ↦ elim (Bool-cases (word =text m.previous_state_word)) [
        | inl old ↦ absurd (apart (rw (hit, old) at now))
        | inr new ↦ (hit, new)
      ]
    ]

-- The same CONNECTED line again changes nothing.
pub repeated_word :
    (env : Env) (word s : Text) (m : Manager)
    → (word =text m.previous_state_word) ≡ true
    → same_word env.qt word (codes "CONNECTED") ≡ true
    → parse_socket_state_word env word s m ≡ (tt, record m { previous_state_word = word })
unfolding parse_socket_state_word state_word
repeated_word env word s m same hit = rw (same, hit) refl

-- When the last state word was CONNECTED, a stop and a new start() leave it remembered, so that a
-- first state line CONNECTED of the new connection leaves the manager connecting.
pub stale_word :
    (env : Env) (a : StartArgs) (s : Text) (m : Manager)
    → m.previous_state_word ≡ codes "CONNECTED"
    → (parse_socket_state_word env (codes "CONNECTED") s (start env a (stop env m).1).1).1.state
      ≡ connecting
stale_word env a s m old =
    let stopped = (stop env m).1 in
    let n = (start env a stopped).1 in
    let kept : n.previous_state_word ≡ codes "CONNECTED" =
      (start_lem env a stopped).2.previous_state_word
      ∙ (stop_lem env m).3.previous_state_word
      ∙ old in
    rw
      (repeated_word env (codes "CONNECTED") s n (rw kept (=text-refl (codes "CONNECTED")))
        (=text-refl (map env.qt.fold (codes "CONNECTED"))))
      ((start_lem env a stopped).0)
