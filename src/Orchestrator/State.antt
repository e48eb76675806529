-- ===== src/Orchestrator/State.antt =====
-- The state of internal/orchestrator/orchestrator.go, and its creation.
use nyxora.Common.{ℕ, Bool, true, false, String, List, [], ◌∷◌, ◌++◌}
use nyxora.Common.Float.{Float64}
use nyxora.Config.Settings.{Config}
use nyxora.Failover.{Failover, new_failover}
use nyxora.Monitor.{Monitor, new_monitor}
use nyxora.Multipath.State.{Scheduler, new_scheduler}
use nyxora.Routing.{Engine, new_engine}
use nyxora.Transport.Manager.{Manager, new_manager}

pub data Phase : Type 0 where
  initializing connecting setting_up establishing multipath_active active failed : Phase

-- The statuses that the code gives to a step.
pub data StepResult : Type 0 where
  running ok warn failed : StepResult

pub record StepStatus : Type 0 where
  pub name : String
  pub status : StepResult
  pub detail : String
  pub is_done : Bool
  pub time_ms : ℕ

abbrev pub is_ok : StepResult → Bool
is_ok ok = true
is_ok _ = false

-- `has_remote`: `remoteHost` is not nil.
pub record Orchestrator (F : Type 0) : Type 0 where
  pub cfg : Config
  pub transport_m : Manager F
  pub mon : Monitor F
  pub route_engine : Engine F
  pub fail : Failover F
  pub scheduler : Scheduler F
  pub has_remote : Bool
  pub remote_iface : String
  pub local_node_id : String
  pub running : Bool
  pub connected : Bool
  pub phase : Phase
  pub steps : List StepStatus

module _ {F : Type 0} ⦃fl : Float64 F⦄ where
  -- `node_id` is what `generateNodeID` gives, and `now` the clock of `NewScheduler`.
  unfoldable pub new : String → ℕ → Config → Orchestrator F
  new node_id now cfg = record {
    cfg = cfg;
    transport_m = new_manager cfg.all_tunnels_active;
    mon = new_monitor cfg.monitor_interval;
    route_engine = new_engine;
    fail = new_failover cfg.failover_interval;
    scheduler = new_scheduler now;
    has_remote = false;
    remote_iface = "";
    local_node_id = node_id;
    running = false;
    connected = false;
    phase = initializing;
    steps = [];
  }

abbrev pub step : String → StepResult → String → ℕ → StepStatus
step name status detail time_ms = record {
  name = name;
  status = status;
  detail = detail;
  is_done = is_ok status;
  time_ms = time_ms;
}

-- `time_ms` is the time since the start; the callback that hears of each step is left out.
abbrev pub add_step :
    {F : Type 0} → String → StepResult → String → ℕ → Orchestrator F → Orchestrator F
add_step name status detail time_ms o = record o {
  steps = o.steps ++ (step name status detail time_ms ∷ []);
}
