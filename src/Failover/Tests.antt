-- ===== src/Failover/Tests.antt =====
-- The theorems at a failover that measures two transports, and runs of the code on it.
use nyxora.Common.{ℕ, ◌≡◌, refl, true, false, List, [], ◌∷◌, arith, String, Has, done, panic}
use nyxora.Common.Words.{add_int, lt_int}
use nyxora.Common.Float.{nat_float}
use nyxora.Common.Assoc.{get, put}
use nyxora.Failover.{
  degraded, down, is_healthy_status, is_down_status, Failover, Call, on_failover, default_threshold,
  new_failover, update, evaluate, status, start, stop,
}
use nyxora.Failover.Trace.{Sample, run, status_after_run}
use nyxora.Failover.Switch.{Stands, evaluate_switches}
use nyxora.Failover.Lifecycle.{stop_after_stop}

abbrev sample : String → ℕ → ℕ → Sample ℕ
sample name latency loss = record { name = name; latency = latency; loss = loss; at = 9 }

-- Three bad measurements of "ssh", with a good one of "wg" in between.
abbrev outage : List (Sample ℕ)
outage = sample "ssh" 250 0 ∷ sample "wg" 20 0 ∷ sample "ssh" 90 40 ∷ sample "ssh" 999 100 ∷ []

abbrev fresh_start : Failover ℕ
unfolding new_failover
fresh_start = new_failover 15

status_after_run_example : status (run outage (new_failover 15)) "ssh" ≡ down
unfolding new_failover get default_threshold
status_after_run_example =
    status_after_run outage (new_failover 15) "ssh" (omega arith) (omega arith) (omega arith) refl

two_failures :
    status (run (sample "ssh" 250 0 ∷ sample "ssh" 90 40 ∷ []) (new_failover 15)) "ssh" ≡ degraded
unfolding status run update get put new_failover default_threshold add_int lt_int
two_failures = refl

abbrev watched : Failover ℕ
watched = record (run outage (new_failover 15)) { has_on_failover = true }

switches : evaluate watched ≡ on_failover "ssh" "wg" ∷ []
unfolding evaluate run update get put new_failover default_threshold add_int lt_int
switches = refl

evaluate_switches_example :
    ((c : Call)
      → Has c (evaluate watched)
      → (d : String) × (h : String) × (c ≡ on_failover d h)
        × Stands is_down_status watched.states d
        × Stands is_healthy_status watched.states h)
    × ((d x : String)
        → true ≡ true
        → Stands is_down_status watched.states d
        → Stands is_healthy_status watched.states x
        → (h : String) × Has (on_failover d h) (evaluate watched))
evaluate_switches_example = evaluate_switches watched

abbrev stopped : Failover ℕ
stopped = record (new_failover 15) { stop_closed = true; running = false }

first_stop : stop (start (new_failover {F = ℕ} 15)) ≡ done stopped
unfolding start stop new_failover
first_stop = refl

stop_after_stop_example : (stop stopped ≡ done stopped) × (stop (start stopped) ≡ panic)
stop_after_stop_example = stop_after_stop (new_failover 15) stopped first_stop
