-- ===== src/Ratelimit/Tests.antt =====
-- The theorems on internal/ratelimit at a bucket of ten tokens that gains one in a unit of time.
use nyxora.Common.{ℕ, ◌-◌, ◌≡◌, refl, Bool, true, false, none, some, [], ◌∷◌, arith, here, there}
use nyxora.Common.Float.{nat_float, nat-IsOrdered, nat-IsMonotone}
use nyxora.Common.Assoc.{get}
use nyxora.Common.Words.{add_duration}
use nyxora.Ratelimit.{TokenBucket, Limiter, refill, allow, wait, wait_until}
use nyxora.Ratelimit.Bounded.{IsClock, IsBounded, allow_all, allow_all-IsBounded}
use nyxora.Ratelimit.Waiting.{Tries, wait_lem}

abbrev gone : ℕ → ℕ → ℕ
gone last now = now - last

gone-IsClock : IsClock gone
gone-IsClock = record { forward = λ last now h. ground arith }

abbrev bucket : ℕ → TokenBucket ℕ
bucket tokens = record { tokens = tokens; max_tokens = 10; refill_rate = 1; last_refill = 100 }

bucket-IsBounded : IsBounded (bucket 4)
bucket-IsBounded = record { no_debt = refl; no_more = refl; rate = refl }

granted_run : allow gone 6 103 (bucket 4) ≡ (record (bucket 1) { last_refill = 103 }, true)
unfolding allow refill
granted_run = refl

refused_run : allow gone 8 103 (bucket 4) ≡ (record (bucket 7) { last_refill = 103 }, false)
unfolding allow refill
refused_run = refl

waited_run :
    wait gone 8 5 100 ((101, 101) ∷ (103, 103) ∷ (105, 105) ∷ []) (bucket 4)
    ≡ some (record (bucket 1) { last_refill = 105 }, true)
unfolding wait wait_until allow refill add_duration
waited_run = refl

allow_all-IsBounded_example :
    IsBounded (
      allow_all nat-IsOrdered nat-IsMonotone gone gone-IsClock
        ((6, 103) ∷ (8, 120) ∷ [])
        (bucket 4))
allow_all-IsBounded_example =
    allow_all-IsBounded nat-IsOrdered nat-IsMonotone gone gone-IsClock ((6, 103) ∷ (8, 120) ∷ [])
      (bucket 4) (refl, omega arith, (refl, omega arith, tt)) bucket-IsBounded

wait_lem_example :
    (out : TokenBucket ℕ × Bool) × (wait gone 9 2 100 ((101, 101) ∷ (103, 103) ∷ []) (bucket 4)
      ≡ some out)
    × Tries gone 9 (add_duration 100 2) ((101, 101) ∷ (103, 103) ∷ []) (bucket 4) out
unfolding add_duration
wait_lem_example =
    wait_lem gone 9 2 100 ((101, 101) ∷ (103, 103) ∷ []) (bucket 4) (there here) (omega arith)

abbrev limits : Limiter ℕ
limits = record {
  buckets = ("ssh", bucket 4) ∷ [];
  config = record { enabled = true; max_tokens = 10; refill_rate = 1 };
}

no_quic : get limits.buckets "quic" ≡ none
unfolding get
no_quic = refl
