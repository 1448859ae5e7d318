-- ===== src/Auth/Pings/Timers.antt =====
-- The timers: startWorker connects a timeout again at every start of a worker and never disconnects it.
use celo_desktop_app.Base.{ℕ, zero, suc, ◌-◌, ◌≡◌, refl, ap, ◌∙◌, some, arith, length, get_elem?}
use celo_desktop_app.Base.Int.{ℤ}
use celo_desktop_app.Auth.Types.{Auth}
use celo_desktop_app.Auth.Pings.{ping_over, or_zero, terminate_times, timer_fires}
use celo_desktop_app.Auth.Pings.Progress.{stored-Waits}
use celo_desktop_app.Auth.Pings.Start.{start_worker-queue}

ping_over-queue :
    (id : ℕ) (v : ℤ) (m : Auth)
    → length (ping_over id v m).1.pings.to_ping ≡ length m.pings.to_ping - 1
unfolding ping_over
ping_over-queue id v m =
    start_worker-queue id _
    ∙ ap (λ (n : ℕ). n - 1)
        ((stored-Waits (λ loaded q. length q ≡ length m.pings.to_ping) id v).at m refl)

terminate_times-queue :
    (n id : ℕ) (out : ℕ → ℤ) (m : Auth)
    → length (terminate_times n id out m).1.pings.to_ping ≡ length m.pings.to_ping - n
unfolding terminate_times
terminate_times-queue zero id out m = omega arith
terminate_times-queue (suc n) id out m =
    let rest = terminate_times-queue n id out (ping_over id (out n) m).1 in
    omega (arith, rest, ping_over-queue id (out n) m)

-- One timeout of a worker whose timer was connected `c` times takes `c` servers from the queue, or
-- all that wait.
pub timer_fires-queue :
    (id c : ℕ) (out : ℕ → ℤ) (m : Auth)
    → get_elem? m.pings.timers id ≡ some c
    → length (timer_fires id out m).1.pings.to_ping ≡ length m.pings.to_ping - c
unfolding timer_fires
timer_fires-queue id c out m e =
    terminate_times-queue (or_zero (get_elem? m.pings.timers id)) id out m
    ∙ ap (λ o. length m.pings.to_ping - or_zero o) e
