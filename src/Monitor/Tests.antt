-- ===== src/Monitor/Tests.antt =====
-- The theorem on internal/monitor at a monitor of two targets, and runs of the code.
use nyxora.Common.{ℕ, ◌≡◌, refl, String, some, List, [], ◌∷◌, ◌++◌}
use nyxora.Common.Float.{nat_float}
use nyxora.Common.Assoc.{get, put}
use nyxora.Monitor.{Result, new_monitor, store, history, last_result, average_latency, sum_latency}
use nyxora.Common.Latest.{latest}
use nyxora.Monitor.History.{results_of, store_all, store_all-latest}

abbrev ping : ℕ → Result ℕ
ping latency = record {
  latency_ms = latency;
  jitter_ms = 1;
  packet_loss = 0;
  jitter = 1;
  timestamp = 7;
}

abbrev pings : List (String × Result ℕ)
pings = ("fra", ping 20) ∷ ("ams", ping 30) ∷ ("fra", ping 40) ∷ []

last_run : last_result (store_all pings (new_monitor 10)) "fra" ≡ some (ping 40)
unfolding last_result store new_monitor get put
last_run = refl

average_run : average_latency (store_all pings (new_monitor 10)) "fra" 5 ≡ some 30
unfolding average_latency sum_latency store new_monitor get put
average_run = refl

nothing_yet : history (new_monitor {F = ℕ} 10) "fra" ≡ latest 100 []
unfolding history new_monitor get
nothing_yet = refl

store_all-latest_example :
    history (store_all pings (new_monitor 10)) "fra" ≡ latest 100 ([] ++ results_of "fra" pings)
store_all-latest_example = store_all-latest pings (new_monitor 10) "fra" [] nothing_yet
