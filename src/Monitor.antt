-- ===== src/Monitor.antt =====
-- internal/monitor/monitor.go. A result of `Ping` is an argument of the operation that stores it.
pub mod History
pub mod Tests
use nyxora.Common.{
  ℕ, ◌-◌, Bool, true, false, String, Option, none, some, List, [], ◌∷◌, ◌++◌, if◌then◌else◌, ltb,
  length, drop, Outcome, done, panic,
}
use nyxora.Common.Words.{mul_int, neg_int, is_negative, lt_int}
use nyxora.Common.Float.{Float64, float_zero}
use nyxora.Common.Assoc.{get, put}

pub record Result (F : Type 0) : Type 0 where
  pub latency_ms : F
  pub jitter_ms : F
  pub packet_loss : F
  pub jitter : F
  pub timestamp : ℕ

pub record Monitor (F : Type 0) : Type 0 where
  pub history : List (String × List (Result F))
  pub interval : ℕ
  pub running : Bool
  pub stop_closed : Bool

module _ {F : Type 0} where
  unfoldable pub new_monitor : ℕ → Monitor F
  new_monitor interval_sec = record {
    history = [];
    interval = mul_int interval_sec 1_000_000_000;
    running = false;
    stop_closed = false;
  }

  -- `m.history[target]`: a missing key reads as nil.
  abbrev pub or_nil : Option (List (Result F)) → List (Result F)
  or_nil none = []
  or_nil (some rs) = rs

  -- `append`, and all but the last hundred dropped.
  abbrev pub append_capped : List (Result F) → Result F → List (Result F)
  append_capped rs r =
      let grown = rs ++ (r ∷ []) in
      if ltb 100 (length grown) then drop (length grown - 100) grown else grown

  -- The body of the loop of `Start` for one target.
  unfoldable pub store : String → Result F → Monitor F → Monitor F
  store target r m = record m {
    history = put m.history target (append_capped (or_nil (get m.history target)) r);
  }

  unfoldable pub start : Monitor F → Monitor F
  start m = record m { running = true }

  -- Closing a closed channel panics.
  unfoldable pub stop : Monitor F → Outcome (Monitor F)
  stop m =
      if m.running
      then (if m.stop_closed
          then panic
          else done (record m { stop_closed = true; running = false }))
      else done m

  abbrev pub last : List (Result F) → Option (Result F)
  last [] = none
  last (r ∷ []) = some r
  last (r ∷ s ∷ rs) = last (s ∷ rs)

  -- `none` is the answer `false`.
  unfoldable pub last_result : Monitor F → String → Option (Result F)
  last_result m target = last (or_nil (get m.history target))

  unfoldable pub history : Monitor F → String → List (Result F)
  history m target = or_nil (get m.history target)

module _ {F : Type 0} ⦃fl : Float64 F⦄ where
  unfoldable pub sum_latency : F → List (Result F) → F
  sum_latency total [] = total
  sum_latency total (r ∷ rs) = sum_latency (fl.add total r.latency_ms) rs

  -- For an `n` that is not negative; an `n` of 0 divides by zero as floats do.
  abbrev pub average : ℕ → List (Result F) → Option F
  average n [] = none
  average n (r ∷ rs) =
      let size = length (r ∷ rs) in
      let count = if ltb size n then size else n in
      some (fl.div (sum_latency float_zero (drop (size - count) (r ∷ rs))) (fl.of_int count))

  unfoldable pub average_latency : Monitor F → String → ℕ → Option F
  unfolding sum_latency
  average_latency m target n = average n (or_nil (get m.history target))
