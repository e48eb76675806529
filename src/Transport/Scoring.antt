-- ===== src/Transport/Scoring.antt =====
-- internal/transport/scoring.go: the score of a transport, its stability, and the figures that
-- `MeasureLatency` draws from the pings. A ping is the time it took in milliseconds, or `none`
-- when the command failed; running it is not modelled, nor are the files that the code writes.
use nyxora.Common.{
  ℕ, suc, String, str_eq, Option, none, some, List, [], ◌∷◌, if◌then◌else◌, length, ◌&&◌,
}
use nyxora.Common.Float.{Float64, float_zero, fmax, fmin}
use nyxora.Transport.Manager.{Metrics}

pub record ScoringWeights (F : Type 0) : Type 0 where
  pub latency : F
  pub loss : F
  pub jitter : F
  pub stability : F

-- Latency, packet loss and jitter.
pub record Measured (F : Type 0) : Type 0 where
  pub latency : F
  pub packet_loss : F
  pub jitter : F

module _ {F : Type 0} ⦃fl : Float64 F⦄ where
  abbrev pub default_scoring_weights : ScoringWeights F
  default_scoring_weights = record {
    latency = fl.ratio 30 100;
    loss = fl.ratio 30 100;
    jitter = fl.ratio 15 100;
    stability = fl.ratio 25 100;
  }

  -- `math.Max(0, 100-x)`
  abbrev pub points : F → F
  points x = fmax float_zero (fl.sub (fl.of_int 100) x)

  unfoldable pub weigh : Metrics F → ScoringWeights F → F
  weigh m w =
      fl.add
        (fl.add
          (fl.add (fl.mul (points (fl.div m.latency_ms (fl.of_int 2))) w.latency)
            (fl.mul (points (fl.mul m.packet_loss (fl.of_int 2))) w.loss))
          (fl.mul (points (fl.mul m.jitter_ms (fl.of_int 3))) w.jitter))
        (fl.mul (fl.mul m.stability (fl.of_int 100)) w.stability)

  unfoldable pub compute_score : Metrics F → ScoringWeights F → F
  compute_score m w =
      if fl.lt (fl.of_int 50) m.packet_loss
      then float_zero
      else if fl.le m.latency_ms float_zero
      then fl.of_int 5
      else weigh m w

  unfoldable pub update_stability : F → F → F → F → Metrics F → Metrics F
  update_stability good_threshold bad_latency up_rate down_rate m =
      if fl.lt m.packet_loss good_threshold && fl.lt m.latency_ms bad_latency
      then record m { stability = fmin (fl.of_int 1) (fl.add m.stability up_rate) }
      else record m { stability = fmax float_zero (fl.sub m.stability down_rate) }

  -- The loop over the pings: the times of those that came back, and the number of the others.
  unfoldable pub round_trips : List (Option F) → List F
  round_trips [] = []
  round_trips (none ∷ ps) = round_trips ps
  round_trips (some t ∷ ps) = t ∷ round_trips ps

  unfoldable pub lost : List (Option F) → ℕ
  lost [] = 0
  lost (none ∷ ps) = suc (lost ps)
  lost (some t ∷ ps) = lost ps

  unfoldable pub sum_times : F → List F → F
  sum_times total [] = total
  sum_times total (t ∷ ts) = sum_times (fl.add total t) ts

  -- The sum of the differences of neighbours, without their signs; -x is 0 - x.
  unfoldable pub sum_diffs : F → F → List F → F
  sum_diffs total last [] = total
  sum_diffs total last (t ∷ ts) =
      let diff = fl.sub t last in
      sum_diffs (fl.add total (if fl.lt diff float_zero then fl.sub float_zero diff else diff)) t ts

  unfoldable pub jitter_of : List F → F
  jitter_of [] = float_zero
  jitter_of (t ∷ []) = float_zero
  jitter_of (t ∷ u ∷ ts) = fl.div (sum_diffs float_zero t (u ∷ ts)) (fl.of_int (length (u ∷ ts)))

  abbrev pub unreachable : Measured F
  unreachable = record {
    latency = fl.of_int 999;
    packet_loss = fl.of_int 100;
    jitter = fl.of_int 999;
  }

  abbrev pub figures : List (Option F) → List F → Measured F
  figures pings [] = unreachable
  figures pings (t ∷ ts) = record {
    latency = fl.div (sum_times float_zero (t ∷ ts)) (fl.of_int (length (t ∷ ts)));
    packet_loss =
        fl.mul (fl.div (fl.of_int (lost pings)) (fl.of_int (length pings))) (fl.of_int 100);
    jitter = jitter_of (t ∷ ts);
  }

  unfoldable pub measure_latency : String → List (Option F) → Measured F
  measure_latency addr pings =
      if str_eq addr "" then unreachable else figures pings (round_trips pings)
