-- ===== src/Transport/Base.antt =====
-- internal/transport/base.go: the state that the transports embed. A context is live until it is
-- cancelled; the files to remove are names. The scoring function is
-- what it answers during the call, and the figures of `MeasureLatency` are an argument.
use nyxora.Common.{
  ℕ, Bool, true, false, String, Option, none, some, List, [], ◌∷◌, ◌++◌, if◌then◌else◌,
}
use nyxora.Common.Float.{Float64, float_zero}
use nyxora.Transport.Manager.{Status, active, inactive, failed, testing, Metrics}
use nyxora.Transport.Scoring.{ScoringWeights, Measured, compute_score, update_stability}

pub record BaseTransport (F : Type 0) : Type 0 where
  pub name : String
  pub transport : String
  pub status : Status
  pub metrics : Metrics F
  pub remote_addr : String
  pub port : ℕ
  pub weights : ScoringWeights F
  pub bandwidth : ℕ
  pub is_live : Bool
  -- The command, if any: whether it has a process.
  pub cmd : Option Bool
  pub tmp_files : List String
  pub scoring_fn : Option F

module _ {F : Type 0} where
  abbrev pub base_health : BaseTransport F → Bool
  base_health b = elim b.status [ active ↦ true | _ ↦ false ]

  unfoldable pub set_scoring_fn : F → BaseTransport F → BaseTransport F
  set_scoring_fn s b = record b { scoring_fn = some s }

  -- The old context is cancelled, and a new one takes its place.
  unfoldable pub cancel_context : BaseTransport F → BaseTransport F
  cancel_context b = record b { is_live = true }

  unfoldable pub kill_existing : BaseTransport F → BaseTransport F
  kill_existing b = record b { is_live = false }

  -- The transport, and whether a process was killed.
  unfoldable pub kill_old_process : BaseTransport F → BaseTransport F × Bool
  kill_old_process b = elim b.cmd [ some true ↦ (record b { cmd = none }, true) | _ ↦ (b, false) ]

  -- The transport, and the files that were removed.
  unfoldable pub clean_tmp_files : BaseTransport F → BaseTransport F × List String
  clean_tmp_files b = (record b { tmp_files = [] }, b.tmp_files)

  unfoldable pub set_status : Status → BaseTransport F → BaseTransport F
  set_status s b = record b { status = s }

  unfoldable pub set_cmd : Bool → BaseTransport F → BaseTransport F
  set_cmd has_process b = record b { cmd = some has_process }

  unfoldable pub add_tmp_file : String → BaseTransport F → BaseTransport F
  add_tmp_file path b = record b { tmp_files = b.tmp_files ++ (path ∷ []) }

  -- Whether the function that is handed over is run.
  unfoldable pub run_in_background : BaseTransport F → Bool
  run_in_background b = b.is_live

  -- The transport, whether a process was killed, and the files that were removed.
  unfoldable pub base_disconnect : BaseTransport F → BaseTransport F × Bool × List String
  unfolding kill_existing kill_old_process clean_tmp_files
  base_disconnect b =
      let killed = kill_old_process (kill_existing b) in
      let cleaned = clean_tmp_files killed.0 in
      (record cleaned.0 { status = inactive }, killed.1, cleaned.1)

  unfoldable pub base_update_metrics : Measured F → BaseTransport F → BaseTransport F
  base_update_metrics x b = record b {
    metrics = record b.metrics {
      latency_ms = x.latency;
      packet_loss = x.packet_loss;
      jitter_ms = x.jitter;
      bandwidth = b.bandwidth;
    };
  }

module _ {F : Type 0} ⦃fl : Float64 F⦄ where
  unfoldable pub new_base : String → String → ℕ → ScoringWeights F → ℕ → BaseTransport F
  new_base name transport port weights bandwidth = record {
    name = name;
    transport = transport;
    status = inactive;
    metrics = record {
      latency_ms = float_zero;
      jitter_ms = float_zero;
      packet_loss = float_zero;
      bandwidth = 0;
      stability = float_zero;
    };
    remote_addr = "";
    port = port;
    weights = weights;
    bandwidth = bandwidth;
    is_live = true;
    cmd = none;
    tmp_files = [];
    scoring_fn = none;
  }

  unfoldable pub base_update_stability : BaseTransport F → BaseTransport F
  base_update_stability b = record b {
    metrics =
        update_stability (fl.of_int 10) (fl.of_int 200) (fl.ratio 5 100) (fl.ratio 10 100)
          b.metrics;
  }

  abbrev pub score_of : BaseTransport F → F
  score_of b = elim b.scoring_fn [ none ↦ compute_score b.metrics b.weights | some s ↦ s ]

  unfoldable pub base_score : Measured F → BaseTransport F → BaseTransport F × F
  unfolding base_update_metrics base_update_stability
  base_score x b =
      let measured = base_update_stability (base_update_metrics x b) in
      (measured, score_of measured)

  -- The transport, and whether the call ended without an error.
  unfoldable pub base_connect_init : String → Measured F → BaseTransport F → BaseTransport F × Bool
  unfolding kill_existing base_update_metrics
  base_connect_init remote_addr x b =
      let started =
        base_update_metrics x
          (record (kill_existing b) { remote_addr = remote_addr; status = testing }) in
      if fl.lt (fl.of_int 80) x.packet_loss
      then (record started { status = failed }, false)
      else (started, true)
