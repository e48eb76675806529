-- ===== src/Multipath/Paths.antt =====
-- The operations that change the scheduler.
use nyxora.Common.{ℕ, Bool, true, false, ◌&&◌, String, none, some, if◌then◌else◌}
use nyxora.Common.Words.{add_int}
use nyxora.Common.Float.{Float64, float_zero}
use nyxora.Common.Assoc.{get, put, remove, modify}
use nyxora.Multipath.State.{DistributionMode, weighted, PathState, Scheduler}
use nyxora.Multipath.Weights.{recalculate, adjust_weights}

module _ {F : Type 0} where
  unfoldable pub set_mode : DistributionMode → Scheduler F → Scheduler F
  set_mode mode s = recalculate (record s { mode = mode })

  unfoldable pub remove_path : String → Scheduler F → Scheduler F
  remove_path name s = recalculate (record s { paths = remove s.paths name })

  unfoldable pub set_active : String → Bool → Scheduler F → Scheduler F
  set_active name active s = elim (get s.paths name) [
    | none ↦ s
    | some p ↦
        recalculate (record s { paths = modify s.paths name (λ q. record q { active = active }) })
  ]

  unfoldable pub record_failover : ℕ → Scheduler F → Scheduler F
  record_failover now s = record s {
    stats = record s.stats { failover_count = add_int s.stats.failover_count 1; last_switch = now };
  }

  unfoldable pub record_bytes : ℕ → ℕ → Scheduler F → Scheduler F
  record_bytes sent received s = record s {
    stats = record s.stats {
      total_bytes_sent = add_int s.stats.total_bytes_sent sent;
      total_bytes_received = add_int s.stats.total_bytes_received received;
    };
  }

abbrev pub is_weighted : DistributionMode → Bool
is_weighted weighted = true
is_weighted _ = false

module _ {F : Type 0} ⦃fl : Float64 F⦄ where
  -- The fields that the literal leaves out are zero.
  unfoldable pub add_path : String → String → ℕ → Scheduler F → Scheduler F
  add_path name transport weight s = recalculate (record s {
    paths = put s.paths name (record {
      name = name;
      transport = transport;
      score = float_zero;
      latency = float_zero;
      loss = float_zero;
      weight = weight;
      active = false;
      bandwidth = 0;
    });
  })

  abbrev pub measured : F → F → F → ℕ → PathState F → PathState F
  measured score latency loss bandwidth p = record p {
    score = score;
    latency = latency;
    loss = loss;
    bandwidth = bandwidth;
    active = fl.lt float_zero score && fl.lt loss (fl.of_int 50);
  }

  unfoldable pub update_path : String → F → F → F → ℕ → Scheduler F → Scheduler F
  update_path name score latency loss bandwidth s =
      let t = record s { paths = modify s.paths name (measured score latency loss bandwidth) } in
      elim (get s.paths name) [
        | none ↦ s
        | some p ↦ if is_weighted s.mode then adjust_weights t else t
      ]
