-- ===== src/Routing.antt =====
-- internal/routing: engine.go and scorer.go. `BestPath` and `AllPaths` range over the map of paths.
pub mod Best
pub mod Tests
use nyxora.Common.{ℕ, Bool, true, false, String, Option, none, some, List, [], ◌∷◌, if◌then◌else◌}
use nyxora.Common.Float.{Float64, float_zero}
use nyxora.Common.Sort.{sort_slice}
use nyxora.Common.Best.{keep_least}
use nyxora.Common.Assoc.{get, put, values}
use nyxora.Transport.Manager.{Metrics}
use nyxora.Transport.Scoring.{ScoringWeights, compute_score}

pub record PathScore (F : Type 0) : Type 0 where
  pub name : String
  pub kind : String
  pub score : F
  pub latency : F
  pub jitter : F
  pub loss : F
  pub stability : F
  pub bandwidth : ℕ

pub record Engine (F : Type 0) : Type 0 where
  pub scorer : ScoringWeights F
  pub paths : List (String × PathScore F)
  pub current : String

module _ {F : Type 0} ⦃fl : Float64 F⦄ where
  abbrev pub default_weights : ScoringWeights F
  default_weights = record {
    latency = fl.ratio 30 100;
    loss = fl.ratio 25 100;
    jitter = fl.ratio 15 100;
    stability = fl.ratio 20 100;
  }

  unfoldable pub score : ScoringWeights F → F → F → F → F → ℕ → F
  unfolding compute_score
  score scorer latency jitter loss stability bandwidth =
      compute_score
        (record {
          latency_ms = latency;
          jitter_ms = jitter;
          packet_loss = loss;
          stability = stability;
          bandwidth = bandwidth;
        })
        scorer

  abbrev pub higher_score : PathScore F → PathScore F → Bool
  higher_score p q = fl.lt q.score p.score

  unfoldable pub rank : List (PathScore F) → List (PathScore F)
  rank scores = sort_slice higher_score scores

  abbrev pub first : List (PathScore F) → Option (PathScore F)
  first [] = none
  first (p ∷ ps) = some p

  unfoldable pub best : List (PathScore F) → Option (PathScore F)
  unfolding rank
  best [] = none
  best (p ∷ ps) = first (rank (p ∷ ps))

  unfoldable pub new_engine : Engine F
  new_engine = record { scorer = default_weights; paths = []; current = "" }

  unfoldable pub update : String → String → F → F → F → F → ℕ → Engine F → Engine F
  unfolding score
  update name transport_type latency jitter loss stability bandwidth e = record e {
    paths = put e.paths name (record {
      name = name;
      kind = transport_type;
      score = score e.scorer latency jitter loss stability bandwidth;
      latency = latency;
      jitter = jitter;
      loss = loss;
      stability = stability;
      bandwidth = bandwidth;
    });
  }

  unfoldable pub current : Engine F → String
  current e = e.current

  unfoldable pub set_current : String → Engine F → Engine F
  set_current name e = record e { current = name }

  unfoldable pub best_path : Engine F → Option (PathScore F)
  best_path e = keep_least higher_score none (values e.paths)

  unfoldable pub all_paths : Engine F → List (PathScore F)
  unfolding rank
  all_paths e = rank (values e.paths)

  abbrev pub exceeds : F → Option (PathScore F) → PathScore F → Bool
  exceeds threshold none p = true
  exceeds threshold (some b) p = fl.lt threshold (fl.sub b.score p.score)

  abbrev pub needs_failover_from : F → Option (PathScore F) → Engine F → Bool
  needs_failover_from threshold none e = true
  needs_failover_from threshold (some p) e = exceeds threshold (best_path e) p

  unfoldable pub needs_failover : F → Engine F → Bool
  needs_failover threshold e = needs_failover_from threshold (get e.paths e.current) e
