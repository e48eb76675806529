-- ===== src/Metrics.antt =====
-- internal/metrics/metrics.go. The maps of the collector hold pointers; an operation on a metric
-- that the collector gave out is a write under its name. The texts for Prometheus and the HTTP
-- server are left out.
pub mod Tallied
pub mod Tests
use nyxora.Common.{
  ℕ, zero, suc, ◌+◌, Bool, true, false, String, Option, none, some, List, [], ◌∷◌, ◌++◌, map,
  if◌then◌else◌, length, replicate, Outcome, done, panic, ◌>>=◌, ◌==◌,
}
use nyxora.Common.Words.{add_int}
use nyxora.Common.Float.{Float64, float_zero}
use nyxora.Common.Assoc.{get, put, modify}

abbrev pub Tags : Type 0
Tags = List (String × String)

pub record Counter (F : Type 0) : Type 0 where
  pub value : F
  pub tags : Tags

pub record Gauge (F : Type 0) : Type 0 where
  pub value : F
  pub tags : Tags

pub record Histogram (F : Type 0) : Type 0 where
  pub buckets : List F
  pub counts : List ℕ
  pub total : F
  pub count : ℕ

pub record Collector (F : Type 0) : Type 0 where
  pub counters : List (String × Counter F)
  pub gauges : List (String × Gauge F)
  pub histograms : List (String × Histogram F)
  pub start_time : ℕ

-- `counts[i]++`, which panics out of range.
unfoldable pub bump : ℕ → List ℕ → Outcome (List ℕ)
bump i [] = panic
bump zero (c ∷ cs) = done (add_int c 1 ∷ cs)
bump (suc i) (c ∷ cs) = bump i cs >>= λ ds. done (c ∷ ds)

-- `m[name]`, where a metric that is not there yet is made.
abbrev pub ensure : {V : Type 0} → Option V → String → V → List (String × V) → List (String × V)
ensure (some v) name new m = m
ensure none name new m = put m name new

module _ {F : Type 0} ⦃fl : Float64 F⦄ where
  unfoldable pub new_counter : Tags → Counter F
  new_counter tags = record { value = float_zero; tags = tags }

  unfoldable pub add_counter : F → Counter F → Counter F
  add_counter v c = record c { value = fl.add c.value v }

  unfoldable pub inc_counter : Counter F → Counter F
  unfolding add_counter
  inc_counter c = add_counter (fl.of_int 1) c

  unfoldable pub reset_counter : Counter F → Counter F
  reset_counter c = record c { value = float_zero }

  unfoldable pub new_gauge : Tags → Gauge F
  new_gauge tags = record { value = float_zero; tags = tags }

  unfoldable pub set_gauge : F → Gauge F → Gauge F
  set_gauge v g = record g { value = v }

  unfoldable pub add_gauge : F → Gauge F → Gauge F
  add_gauge v g = record g { value = fl.add g.value v }

  unfoldable pub inc_gauge : Gauge F → Gauge F
  unfolding add_gauge
  inc_gauge g = add_gauge (fl.of_int 1) g

  -- -1 as 0 - 1.
  unfoldable pub dec_gauge : Gauge F → Gauge F
  unfolding add_gauge
  dec_gauge g = add_gauge (fl.sub float_zero (fl.of_int 1)) g

  abbrev pub buckets_or_default : List F → List F
  buckets_or_default [] = map fl.of_int (1 ∷ 5 ∷ 10 ∷ 25 ∷ 50 ∷ 100 ∷ 250 ∷ 500 ∷ 1000 ∷ [])
  buckets_or_default (b ∷ bs) = b ∷ bs

  unfoldable pub new_histogram : List F → Histogram F
  new_histogram buckets = record {
    buckets = buckets_or_default buckets;
    counts = replicate (length (buckets_or_default buckets) + 1) 0;
    total = float_zero;
    count = 0;
  }

  -- The index that the loop of `Observe` stops at, or the number of the buckets.
  unfoldable pub slot : F → List F → ℕ
  slot v [] = 0
  slot v (b ∷ bs) = let rest = slot v bs in if fl.le v b then 0 else suc rest

  unfoldable pub observe : F → Histogram F → Outcome (Histogram F)
  unfolding slot bump
  observe v h = bump (slot v h.buckets) h.counts >>= λ counts.
      done (record h { total = fl.add h.total v; count = add_int h.count 1; counts = counts })

  unfoldable pub mean : Histogram F → F
  mean h = if h.count == 0 then float_zero else fl.div h.total (fl.of_int h.count)

  unfoldable pub new_collector : ℕ → Collector F
  new_collector now = record { counters = []; gauges = []; histograms = []; start_time = now }

  unfoldable pub counter : String → Tags → Collector F → Collector F
  counter name tags c = record c {
    counters = ensure (get c.counters name) name (new_counter tags) c.counters;
  }

  unfoldable pub gauge : String → Tags → Collector F → Collector F
  gauge name tags c = record c {
    gauges = ensure (get c.gauges name) name (new_gauge tags) c.gauges;
  }

  unfoldable pub histogram : String → List F → Collector F → Collector F
  histogram name buckets c = record c {
    histograms = ensure (get c.histograms name) name (new_histogram buckets) c.histograms;
  }
