-- ===== src/Failover.antt =====
-- internal/failover/failover.go: the health of the transports, as measured, and the switch away
-- from those that are down. A call of a callback, which runs in a goroutine of its own, is an
-- entry of the list that an operation returns.
pub mod Trace
pub mod Switch
pub mod Lifecycle
pub mod Tests
use nyxora.Common.{
  ℕ, Bool, true, false, ◌&&◌, ◌||◌, not, String, Option, none, some, List, [], ◌∷◌, map, ltb, ◌==◌,
  if◌then◌else◌, length, Outcome, done, panic,
}
use nyxora.Common.Words.{add_int, mul_int, lt_int}
use nyxora.Common.Float.{Float64, float_zero}
use nyxora.Common.Assoc.{get, put}

pub data TransportStatus : Type 0 where
  healthy degraded down : TransportStatus

abbrev pub is_healthy_status : TransportStatus → Bool
is_healthy_status healthy = true
is_healthy_status _ = false

abbrev pub is_down_status : TransportStatus → Bool
is_down_status down = true
is_down_status _ = false

pub record TransportState (F : Type 0) : Type 0 where
  pub name : String
  pub status : TransportStatus
  pub latency : F
  pub packet_loss : F
  pub last_good : ℕ
  pub fail_count : ℕ

pub record Threshold (F : Type 0) : Type 0 where
  pub max_latency : F
  pub max_packet_loss : F
  pub max_jitter : F
  pub max_fail_count : ℕ
  pub score_diff : F

-- The callbacks are there or nil; the stop channel is open or closed.
pub record Failover (F : Type 0) : Type 0 where
  pub states : List (String × TransportState F)
  pub threshold : Threshold F
  pub interval : ℕ
  pub has_on_failover : Bool
  pub has_on_recover : Bool
  pub running : Bool
  pub stop_closed : Bool

pub data Call : Type 0 where
  on_failover : String → String → Call
  on_recover : String → Call

module _ {F : Type 0} ⦃fl : Float64 F⦄ where
  pub default_threshold : Threshold F
  default_threshold = record {
    max_latency = fl.of_int 200;
    max_packet_loss = fl.of_int 10;
    max_jitter = fl.of_int 50;
    max_fail_count = 3;
    score_diff = fl.of_int 20;
  }

  pub new_failover : ℕ → Failover F
  unfolding default_threshold
  new_failover interval_sec = record {
    states = [];
    threshold = default_threshold;
    interval = mul_int interval_sec 1_000_000_000;
    has_on_failover = false;
    has_on_recover = false;
    running = false;
    stop_closed = false;
  }

  -- `&TransportState{Name: name}`: the status that is zero is `StatusHealthy`.
  abbrev pub fresh : String → TransportState F
  fresh name = record {
    name = name;
    status = healthy;
    latency = float_zero;
    packet_loss = float_zero;
    last_good = 0;
    fail_count = 0;
  }

  abbrev pub is_good : Threshold F → F → F → Bool
  is_good t latency loss = fl.lt latency t.max_latency && fl.lt loss t.max_packet_loss

  abbrev pub is_bad : Threshold F → F → F → Bool
  is_bad t latency loss = fl.le t.max_latency latency || fl.le t.max_packet_loss loss

  -- The branches of `Update`. `now` is the last reading of the clock.
  unfoldable pub assess : Threshold F → F → F → ℕ → TransportState F → TransportState F
  assess t latency loss now s =
      let seen = record s { latency = latency; packet_loss = loss } in
      let failures = add_int s.fail_count 1 in
      if is_good t latency loss
      then (if is_healthy_status s.status
          then record seen { last_good = now }
          else record seen { status = healthy; fail_count = 0; last_good = now })
      else if is_bad t latency loss
      then record seen {
        fail_count = failures;
        status = if lt_int failures t.max_fail_count then degraded else down;
      }
      else seen

  abbrev pub known : Option (TransportState F) → String → TransportState F
  known none name = fresh name
  known (some s) name = s

  unfoldable pub update : String → F → F → ℕ → Failover F → Failover F × List Call
  unfolding assess
  update name latency loss now f =
      let s = known (get f.states name) name in
      let recovers =
        is_good f.threshold latency loss && not (is_healthy_status s.status) && f.has_on_recover in
      (
        record f { states = put f.states name (assess f.threshold latency loss now s) },
        if recovers then on_recover name ∷ [] else [],
      )

-- The callbacks that `evaluate` starts; its log lines are left out.
pub switch_calls : Bool → List String → List String → List Call
switch_calls has_callback downs [] = []
switch_calls has_callback downs (h ∷ hs) =
    if has_callback then map (λ d. on_failover d h) downs else []

module _ {F : Type 0} where
  -- The names with a status, in the order of a `range` over the map.
  pub names_with : (TransportStatus → Bool) → List (String × TransportState F) → List String
  names_with test [] = []
  names_with test (e ∷ m) =
      let rest = names_with test m in if test (e.1).status then e.0 ∷ rest else rest

  pub evaluate : Failover F → List Call
  unfolding names_with switch_calls
  evaluate f =
      switch_calls f.has_on_failover (names_with is_down_status f.states)
        (names_with is_healthy_status f.states)

  pub status : Failover F → String → TransportStatus
  status f name = elim (get f.states name) [ none ↦ down | some s ↦ s.status ]

  pub is_healthy : Failover F → String → Bool
  is_healthy f name = elim (get f.states name) [
    | none ↦ false
    | some s ↦ is_healthy_status s.status
  ]

  pub all_status : List (String × TransportState F) → List (String × TransportStatus)
  all_status [] = []
  all_status (e ∷ m) = (e.0, (e.1).status) ∷ all_status m

  unfoldable pub set_on_failover : Bool → Failover F → Failover F
  set_on_failover given f = record f { has_on_failover = given }

  unfoldable pub set_on_recover : Bool → Failover F → Failover F
  set_on_recover given f = record f { has_on_recover = given }

  pub start : Failover F → Failover F
  start f = record f { running = true }

  -- Closing a closed channel panics.
  pub stop : Failover F → Outcome (Failover F)
  stop f =
      if f.running
      then (if f.stop_closed
          then panic
          else done (record f { stop_closed = true; running = false }))
      else done f
