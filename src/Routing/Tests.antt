-- ===== src/Routing/Tests.antt =====
-- The theorems on internal/routing at an engine with two paths.
use nyxora.Common.{ℕ, ◌≡◌, ◌⊎◌, ◌↔◌, refl, true, String, none, some, [], ◌∷◌, arith, Has}
use nyxora.Common.Float.{nat_float, nat-IsOrdered}
use nyxora.Common.Assoc.{get, put, values}
use nyxora.Transport.Scoring.{compute_score, weigh}
use nyxora.Routing.{PathScore, Engine, score, update, needs_failover}
use nyxora.Routing.Best.{needs_failover_iff}

abbrev scored_path : String → ℕ → PathScore ℕ
scored_path name score = record {
  name = name;
  kind = name;
  score = score;
  latency = 50;
  jitter = 5;
  loss = 0;
  stability = 1;
  bandwidth = 100;
}

abbrev two : Engine ℕ
two = record {
  scorer = record { latency = 1; loss = 1; jitter = 1; stability = 1 };
  paths = ("ssh", scored_path "ssh" 50) ∷ ("wireguard", scored_path "wireguard" 90) ∷ [];
  current = "ssh";
}

updated :
    get (update "quic" "quic" 20 2 0 1 100 two).paths "quic"
    ≡ some (record (scored_path "quic" 384) { latency = 20; jitter = 2 })
unfolding update score compute_score weigh get put
updated = refl

sub_mono_nat :
    (a b c : ℕ)
    → nat_float.le a b ≡ true
    → nat_float.le (nat_float.sub a c) (nat_float.sub b c) ≡ true
sub_mono_nat a b c h = ground arith

needs_failover_iff_example : (needs_failover 15 two ≡ true) ↔ (
    (get two.paths two.current ≡ none)
    ⊎ ((p : PathScore ℕ) × (q : PathScore ℕ) × (get two.paths two.current ≡ some p)
        × Has q (values two.paths)
        × (nat_float.lt 15 (nat_float.sub q.score p.score) ≡ true)))
needs_failover_iff_example = needs_failover_iff nat-IsOrdered sub_mono_nat 15 two
