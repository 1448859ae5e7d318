-- ===== src/Openvpn/Timeout.antt =====
-- checkState: the timeout of an attempt, and what it does to a reconnection after a crash.
use celo_desktop_app.Base.{
  ℕ, suc, ◌≡◌, ◌≢◌, ◌⊎◌, inl, inr, refl, ◌<◌, ◌≤◌, ◌∙◌, ◌++◌, Bool, true, false, some, arith,
  lt→ltb, ltb, ltb→lt, if◌then◌else◌, Bool-cases,
}
use celo_desktop_app.Base.Int.{pos}
use celo_desktop_app.Base.State.{pure}
use celo_desktop_app.Base.Text.{codes}
use celo_desktop_app.Common.{VpnState, disconnected, connecting, connected, total, eqb_state}
use celo_desktop_app.Openvpn.Types.{
  Os, linux, darwin, windows, Env, Manager, timed_out, send_error, ask, emit, secs_to,
}
use celo_desktop_app.Openvpn.Process.{
  openvpn_running, ask_if, lookup_child, linux_lookup, run_script, note_pid, cancel,
}
use celo_desktop_app.Openvpn.Connect.{
  start_connecting, handle_crash, check_running, give_up, timeout_message, check_timeout,
  check_state, try_next_port_seconds,
}
use celo_desktop_app.Openvpn.Settings.{Like-refl, openvpn_running-Like, start_connecting-Like}
use celo_desktop_app.Openvpn.Stop.{stop_lem}
use celo_desktop_app.Openvpn.Starting.{latest, state-start_connecting}

state-ask_if : (b : Bool) (q : ℕ → Bool) (m : Manager) → (ask_if b q m).1.state ≡ m.state
unfolding ask_if ask
state-ask_if true q m = refl
state-ask_if false q m = refl

state-linux_lookup : (env : Env) (m : Manager) → (linux_lookup env m).1.state ≡ m.state
unfolding linux_lookup run_script note_pid ask
state-linux_lookup env m = ground arith

state-lookup_child :
    (env : Env) (os : Os) (b : Bool) (m : Manager) → (lookup_child env os b m).1.state ≡ m.state
unfolding lookup_child ask
state-lookup_child env linux true m = refl
state-lookup_child env linux false m = state-linux_lookup env m
state-lookup_child env darwin b m = refl
state-lookup_child env windows b m = refl

state-second :
    (b c : Bool) (q : ℕ → Bool) (m : Manager)
    → ((if b then pure true else ask_if c q) m).1.state ≡ m.state
state-second true c q m = refl
state-second false c q m = state-ask_if c q m

pub state-openvpn_running : (env : Env) (m : Manager) → (openvpn_running env m).1.state ≡ m.state
unfolding openvpn_running
state-openvpn_running env m =
    state-lookup_child env env.os _ _
    ∙ state-second _ _ env.socket_open _
    ∙ state-ask_if m.process env.process_active m

-- More than a minute has passed since the start time, whenever the clock is asked.
abbrev pub Elapsed : Env → Manager → Type 0
Elapsed env m = (k : ℕ) → try_next_port_seconds < secs_to m.start_date_time (env.now k)

timed_out-check_timeout :
    (env : Env) (m : Manager)
    → m.state ≡ connecting
    → m.testing ≡ false
    → Elapsed env m
    → ((check_timeout env m).1.state ≡ disconnected)
      × (latest (check_timeout env m).1.trace ≡ some timed_out)
unfolding check_timeout give_up ask emit
timed_out-check_timeout env m c t late =
    rw (c, t, lt→ltb _ _ (late m.asked)) ((stop_lem env _).0, refl)

is_connecting :
    (st : VpnState) → (st ≡ connecting) ⊎ ((st ≢ connecting) × (eqb_state st connecting ≡ false))
is_connecting disconnected = inr (λ e. cc, refl)
is_connecting connecting = inl refl
is_connecting connected = inr (λ e. cc, refl)
is_connecting total = inr (λ e. cc, refl)

-- What the second part of checkState comes to: the manager gives up an attempt that is older than a
-- minute, or does nothing.
abbrev pub GivesUp : Env → Manager → Manager → Type 0
GivesUp env m k =
    (m.state ≡ connecting)
    × (60 < secs_to m.start_date_time (env.now m.asked))
    × (k.state ≡ disconnected)
    × (latest k.trace
        ≡ some (
            if m.testing
            then send_error (codes "Timeout at " ++ (env.qt.number (pos 60) ++ codes " seconds"))
            else timed_out))

abbrev pub Waits : Env → Manager → Manager → Type 0
Waits env m k =
    ((m.state ≢ connecting) ⊎ (secs_to m.start_date_time (env.now m.asked) ≤ 60))
    × (k.state ≡ m.state)
    × (k.trace ≡ m.trace)

given_up :
    (env : Env) (m : Manager) (b : Bool)
    → let k = (if b then cancel env (timeout_message env) else give_up env) m in
      (k.1.state ≡ disconnected)
      × (latest k.1.trace
          ≡ some (
              if b
              then send_error (codes "Timeout at " ++ (env.qt.number (pos 60) ++ codes " seconds"))
              else timed_out))
unfolding cancel give_up ask emit timeout_message
given_up env m true = ((stop_lem env _).0, refl)
given_up env m false = ((stop_lem env _).0, refl)

-- The second part of checkState: where the manager connects and the clock, when it is asked, is more
-- than 60 seconds behind the start time, the manager ends disconnected, and what it does last is to
-- tell the clients of the timeout, or of an error in the testing mode. In every other case the state
-- is what it was and nothing is signalled or done.
pub check_timeout_lem :
    (env : Env) (m : Manager)
    → GivesUp env m (check_timeout env m).1 ⊎ Waits env m (check_timeout env m).1
unfolding check_timeout ask
check_timeout_lem env m = elim (is_connecting m.state) [
  | inr (other, e) ↦ rw e (inr (inl other, refl, refl))
  | inl c ↦
      elim (Bool-cases (ltb try_next_port_seconds (secs_to m.start_date_time (env.now m.asked)))) [
        | inr early ↦ rw (c, early) (inr (inr (ground arith), refl, refl))
        | inl late ↦
            rw (c, late)
              (let (state, told) =
                  given_up env (record m { state = connecting; asked = suc m.asked }) m.testing in
                inl (refl, ltb→lt _ _ late, state, told))
      ]
]

crashed_again :
    (env : Env) (m n : Manager)
    → n ≡ (openvpn_running env m).1
    → (openvpn_running env m).0 ≡ false
    → n.state ≡ connected
    → n.reconnect ≡ true
    → (check_running env m).1 ≡ (start_connecting env n).1
unfolding check_running handle_crash
crashed_again env m n e f c r = ground arith

-- When OpenVPN is gone and the manager is connected, set to reconnect and not testing, and the
-- start time lies more than a minute back whenever the clock is asked, then checkState, which
-- begins to connect, ends disconnected, and the last thing done is to tell the clients of a
-- timeout.
pub crash_times_out :
    (env : Env) (m : Manager)
    → m.state ≡ connected
    → m.reconnect ≡ true
    → m.testing ≡ false
    → (openvpn_running env m).0 ≡ false
    → Elapsed env m
    → ((check_state env m).1.state ≡ disconnected)
      × (latest (check_state env m).1.trace ≡ some timed_out)
unfolding check_state
crash_times_out env m c r t gone late =
    let n = (openvpn_running env m).1 in
    let same = (openvpn_running-Like {k = m} env).at m (Like-refl m) in
    let started = (start_connecting env n).1 in
    let alike = (start_connecting-Like {k = m} env).at n same in
    rw (crashed_again env m n refl gone (state-openvpn_running env m ∙ c) (same.reconnect ∙ r)) (
      timed_out-check_timeout env started (state-start_connecting env n) (alike.testing ∙ t)
        (rw alike.start_date_time late))
