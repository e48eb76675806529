-- ===== src/Metrics/Tests.antt =====
-- The theorem on internal/metrics at a small input, and runs of the code.
use nyxora.Common.{ℕ, ◌%◌, ◌^◌, ◌≡◌, refl, some, List, [], ◌∷◌, arith, length, get_elem?, done}
use nyxora.Common.Float.{nat_float}
use nyxora.Common.Assoc.{get, put}
use nyxora.Metrics.{
  Histogram, new_collector, counter, new_counter, new_histogram, buckets_or_default,
}
use nyxora.Metrics.Tallied.{observe_all, tally, observe_all-tally}

abbrev values : List ℕ
values = 3 ∷ 5 ∷ 7 ∷ 2000 ∷ []

-- 3 and 5 lie in the second of the default buckets.
observe_all-tally_example :
    (after : Histogram ℕ) × (observe_all values (new_histogram []) ≡ done after)
    × (after.count ≡ length values % 2 ^ 64)
    × (get_elem? after.counts 1 ≡ some (tally (buckets_or_default []) 1 values % 2 ^ 64))
observe_all-tally_example = observe_all-tally [] values 1 (omega arith)

-- The tags of the first call stay.
counter_run :
    get
      (counter "hits" [] (counter "hits" (("a", "b") ∷ []) (new_collector {F = ℕ} 0))).counters
      "hits"
    ≡ some (record { value = 0; tags = ("a", "b") ∷ [] })
unfolding counter new_collector new_counter get put
counter_run = refl
