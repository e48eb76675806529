-- ===== src/Balancer/Tests.antt =====
-- The theorems at a pool of three backends, one of them down, and runs of the code on it.
use nyxora.Common.{
  ℕ, ◌%◌, ◌≡◌, ◌≢◌, refl, true, false, some, List, [], ◌∷◌, arith, String, All, done, get_elem?,
}
use nyxora.Common.Best.{keep_least}
use nyxora.Common.Words.{lt_int}
use nyxora.Common.Assoc.{name_ne}
use nyxora.Common.Float.{nat_float}
use nyxora.Balancer.{
  Algorithm, round_robin, weighted_round_robin, least_connections, least_latency, ip_hash, Backend,
  Balancer, get_healthy, mark_unhealthy, update_first, big_endian, select, next, next_with_ip,
}
use nyxora.Balancer.Select.{Serves, next-Serves}
use nyxora.Balancer.Rotation.{serve, round_robin_fair, weighted_round_robin_exact}
use nyxora.Balancer.Health.{IsDistinct}
use nyxora.Balancer.Affinity.{next_with_ip_affinity}

abbrev backend : String → ℕ → ℕ → ℕ → Backend ℕ
backend name weight conns latency = record {
  name = name;
  address = "10.0.0.1";
  port = 8080;
  weight = weight;
  active_conns = conns;
  total_conns = 0;
  latency = latency;
  failure_count = 0;
  last_failure = 0;
  healthy = true;
}

abbrev fra : Backend ℕ
fra = backend "fra" 2 7 30

abbrev ams : Backend ℕ
ams = backend "ams" 1 4 80

abbrev par : Backend ℕ
par = record (backend "par" 5 0 10) { healthy = false; failure_count = 2 }

abbrev pool : Algorithm → Balancer ℕ
pool a = record { backends = fra ∷ par ∷ ams ∷ []; algorithm = a; current = 3; round_robin = 1 }

-- Stands for MD5: one byte.
abbrev toy_md5 : String → List ℕ
toy_md5 _ = 17 ∷ []

picks_idle : next 5 (pool least_connections) ≡ done (some ams, pool least_connections)
unfolding next get_healthy select keep_least lt_int
picks_idle = refl

picks_fast : next 5 (pool least_latency) ≡ done (some fra, pool least_latency)
unfolding next get_healthy select keep_least
picks_fast = refl

next-Serves_example :
    Serves (pool round_robin) (next 5 (pool round_robin))
    × Serves (pool round_robin) (next_with_ip toy_md5 "192.0.2.7" 5 (pool round_robin))
next-Serves_example =
    next-Serves toy_md5 "192.0.2.7" 5 (pool round_robin) (omega arith) (omega arith)

round_robin_fair_example : serve 5 2 (pool round_robin) ≡ done (some ams ∷ some fra ∷ [])
unfolding get_healthy
round_robin_fair_example = round_robin_fair 5 (pool round_robin) refl (omega arith) (omega arith)

weighted_round_robin_exact_example :
    serve 5 3 (pool weighted_round_robin) ≡ done (some ams ∷ some fra ∷ some fra ∷ [])
unfolding get_healthy
weighted_round_robin_exact_example =
    weighted_round_robin_exact 5 (pool weighted_round_robin) refl (omega arith) (omega arith)
      (omega arith)

IsDistinct-pool : IsDistinct (pool round_robin).backends
IsDistinct-pool = (
  (name_ne "par" "fra" refl, (name_ne "ams" "fra" refl, tt)),
  ((name_ne "ams" "par" refl, tt), (tt, tt)),
)

after_failure :
    next 5 (mark_unhealthy "ams" 99 (pool least_connections))
    ≡ done (some fra, mark_unhealthy "ams" 99 (pool least_connections))
unfolding next get_healthy select keep_least lt_int mark_unhealthy update_first
after_failure = refl

nyc_is_new : All (λ b. b.name ≢ "nyc") (pool round_robin).backends
nyc_is_new = (name_ne "fra" "nyc" refl, (name_ne "par" "nyc" refl, (name_ne "ams" "nyc" refl, tt)))

next_with_ip_affinity_example :
    (b : Backend ℕ) × (get_elem? (fra ∷ fra ∷ ams ∷ []) (big_endian 0 (17 ∷ []) % 3) ≡ some b)
    × (next_with_ip toy_md5 "192.0.2.7" 5 (pool ip_hash) ≡ done (some b, pool ip_hash))
unfolding get_healthy
next_with_ip_affinity_example =
    next_with_ip_affinity toy_md5 "192.0.2.7" 5 (pool ip_hash) refl (omega arith) (omega arith)
