-- ===== src/Ratelimit.antt =====
-- internal/ratelimit/ratelimit.go. A reading of the clock is a number and an argument of the
-- operation, once for each time the code reads it; `elapsed last now` stands for
-- `now.Sub(last).Seconds()` of Go's time package.
pub mod Bounded
pub mod Limits
pub mod Waiting
pub mod Tests
use nyxora.Common.{
  ℕ, ◌+◌, Bool, true, false, String, Option, none, some, List, [], ◌∷◌, if◌then◌else◌, ltb, length,
}
use nyxora.Common.Float.{Float64}
use nyxora.Common.Words.{add_duration}
use nyxora.Common.Assoc.{get, put, remove}

pub record TokenBucket (F : Type 0) : Type 0 where
  pub tokens : F
  pub max_tokens : F
  pub refill_rate : F
  pub last_refill : ℕ

pub record Config (F : Type 0) : Type 0 where
  pub enabled : Bool
  pub max_tokens : F
  pub refill_rate : F

pub record Limiter (F : Type 0) : Type 0 where
  pub buckets : List (String × TokenBucket F)
  pub config : Config F

pub record Stats (F : Type 0) : Type 0 where
  pub enabled : Bool
  pub max_tokens : F
  pub refill_rate : F
  pub buckets : ℕ

module _ {F : Type 0} where
  unfoldable pub new_token_bucket : F → F → ℕ → TokenBucket F
  new_token_bucket max_tokens refill_rate now = record {
    tokens = max_tokens;
    max_tokens = max_tokens;
    refill_rate = refill_rate;
    last_refill = now;
  }

  unfoldable pub new_limiter : Config F → Limiter F
  new_limiter cfg = record { buckets = []; config = cfg }

  abbrev pub ensure : Option (TokenBucket F) → String → ℕ → Limiter F → Limiter F × TokenBucket F
  ensure (some tb) key now l = (l, tb)
  ensure none key now l =
      let tb = new_token_bucket l.config.max_tokens l.config.refill_rate now in
      (record l { buckets = put l.buckets key tb }, tb)

  unfoldable pub get_bucket : String → ℕ → Limiter F → Limiter F × TokenBucket F
  get_bucket key now l = ensure (get l.buckets key) key now l

  unfoldable pub remove_bucket : String → Limiter F → Limiter F
  remove_bucket key l = record l { buckets = remove l.buckets key }

  unfoldable pub stats : Limiter F → Stats F
  stats l = record {
    enabled = l.config.enabled;
    max_tokens = l.config.max_tokens;
    refill_rate = l.config.refill_rate;
    buckets = length l.buckets;
  }

module _ {F : Type 0} ⦃fl : Float64 F⦄ where
  abbrev pub default_config : Config F
  default_config = record {
    enabled = true;
    max_tokens = fl.of_int 1000;
    refill_rate = fl.of_int 100;
  }

  -- The end of `Allow`, after the refill.
  abbrev pub take_tokens : F → TokenBucket F → TokenBucket F × Bool
  take_tokens tokens tb =
      if fl.le tokens tb.tokens
      then (record tb { tokens = fl.sub tb.tokens tokens }, true)
      else (tb, false)

module _ {F : Type 0} ⦃fl : Float64 F⦄ (elapsed : ℕ → ℕ → F) where
  unfoldable pub refill : ℕ → TokenBucket F → TokenBucket F
  refill now tb =
      let more = fl.add tb.tokens (fl.mul (elapsed tb.last_refill now) tb.refill_rate) in
      record tb {
        tokens = if fl.lt tb.max_tokens more then tb.max_tokens else more;
        last_refill = now;
      }

  unfoldable pub allow : F → ℕ → TokenBucket F → TokenBucket F × Bool
  allow tokens now tb = take_tokens tokens (refill now tb)

  unfoldable pub available : ℕ → TokenBucket F → TokenBucket F × F
  available now tb = let filled = refill now tb in (filled, filled.tokens)

  -- The loop of `Wait`: a turn reads the clock in `Allow`, and again for the deadline. It is `none`
  -- when the readings of the turns do not suffice for the loop to end.
  unfoldable pub wait_until : F → ℕ → List (ℕ × ℕ) → TokenBucket F → Option (TokenBucket F × Bool)
  wait_until tokens deadline [] tb = none
  wait_until tokens deadline (t ∷ ts) tb =
      let tried = allow tokens t.0 tb in
      let rest = wait_until tokens deadline ts tried.0 in
      if tried.1 then some tried else if ltb deadline t.1 then some (tried.0, false) else rest

  -- `timeout` is a duration.
  unfoldable pub wait : F → ℕ → ℕ → List (ℕ × ℕ) → TokenBucket F → Option (TokenBucket F × Bool)
  unfolding wait_until
  wait tokens timeout start turns tb = wait_until tokens (add_duration start timeout) turns tb

  -- `opened` is the reading for a new bucket, `now` that of `Allow`; the pointer's bucket is
  -- written in place.
  unfoldable pub allow_key : String → F → ℕ → ℕ → Limiter F → Limiter F × Bool
  unfolding get_bucket
  allow_key key tokens opened now l =
      let (l', tb) = get_bucket key opened l in
      let tried = allow tokens now tb in
      if l.config.enabled
      then (record l' { buckets = put l'.buckets key tried.0 }, tried.1)
      else (l, true)

  -- `bytes` is an `int64`, as a float.
  unfoldable pub allow_transport : String → F → ℕ → ℕ → Limiter F → Limiter F × Bool
  unfolding allow_key
  allow_transport name bytes opened now l = allow_key name bytes opened now l
