-- ===== src/Multipath/State.antt =====
-- The data of the scheduler. `paths` is a Go map, in the order in which a `range` comes by it.
use nyxora.Common.{ℕ, Bool, String, List, [], str_eq, if◌then◌else◌}

-- `DistributionMode`, an `int`; `other` is any value without a name.
pub data DistributionMode : Type 0 where
  weighted lowest_latency lowest_loss even all : DistributionMode
  other : ℕ → DistributionMode

pub record PathState (F : Type 0) : Type 0 where
  pub name : String
  pub transport : String
  pub score : F
  pub latency : F
  pub loss : F
  pub weight : ℕ
  pub active : Bool
  pub bandwidth : ℕ

-- Times are numbers, with 0 for Go's zero time; `uptime` is the text that the clock gives.
pub record Stats : Type 0 where
  pub total_bytes_sent : ℕ
  pub total_bytes_received : ℕ
  pub active_paths : ℕ
  pub best_path : String
  pub failover_count : ℕ
  pub last_switch : ℕ
  pub uptime : String
  pub start_time : ℕ

pub record Scheduler (F : Type 0) : Type 0 where
  pub paths : List (String × PathState F)
  pub total_weight : ℕ
  pub mode : DistributionMode
  pub stats : Stats

unfoldable pub new_scheduler : {F : Type 0} → ℕ → Scheduler F
new_scheduler now = record {
  paths = [];
  total_weight = 0;
  mode = weighted;
  stats = record {
    total_bytes_sent = 0;
    total_bytes_received = 0;
    active_paths = 0;
    best_path = "";
    failover_count = 0;
    last_switch = 0;
    uptime = "";
    start_time = now;
  };
}

unfoldable pub mode_from_string : String → DistributionMode
mode_from_string mode =
    if str_eq mode "weighted"
    then weighted
    else if str_eq mode "lowest-latency"
    then lowest_latency
    else if str_eq mode "lowest-loss"
    then lowest_loss
    else if str_eq mode "even"
    then even
    else if str_eq mode "all"
    then all
    else weighted

unfoldable pub mode_string : DistributionMode → String
mode_string weighted = "weighted"
mode_string lowest_latency = "lowest-latency"
mode_string lowest_loss = "lowest-loss"
mode_string even = "even"
mode_string all = "all"
mode_string (other n) = "unknown"
