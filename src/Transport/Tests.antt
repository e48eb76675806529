-- ===== src/Transport/Tests.antt =====
-- The theorems on internal/transport at a manager with three transports, and runs of the code on
-- it.
use nyxora.Common.{
  ℕ, ◌≡◌, ◌≢◌, refl, Bool, true, false, String, none, some, List, [], ◌∷◌, arith, Has, here, there,
  eq_iff, ltb, ◌++◌, ◌&&◌,
}
use nyxora.Common.Words.{add_int, mul_int, div_int, is_negative}
use nyxora.Common.Float.{nat_float, nat-IsOrdered, nat-IsMonotone, ◌≼◌}
use nyxora.Common.Assoc.{get, put, update_all}
use nyxora.Common.Sort.{sort_slice}
use nyxora.Common.Bytes.{Bytes, codes}
use nyxora.Transport.Vless.{
  hex_value, hex_pairs, parse_uuid, hex, generate_random_uuid, encode_address, payload,
  send_vless_header,
}
use nyxora.Transport.Uuid.{AreBytes, parse_uuid-generate_random_uuid}
use nyxora.Transport.Registry.{relay, TunnelMeta}
use nyxora.Transport.Manager.{
  active, inactive, Metrics, Transport, Manager, ConnectResult, flag, register, registered_weight,
  activate, deactivate, disconnect_all, connect_all, settle, normalize_weights, sum_weights, best,
  best_from,
}
use nyxora.Transport.Scoring.{
  ScoringWeights, Measured, compute_score, measure_latency, round_trips, lost, sum_times, sum_diffs,
  jitter_of,
}
use nyxora.Transport.Settled.{
  IsSingle, IsEvery, connect_all-IsSingle, connect_all-IsEvery, connect_all-keeps_active,
}
use nyxora.Transport.Active.{IsKnown, mutators-IsKnown}
use nyxora.Transport.Score.{IsBetter, IsWeighting, compute_score_mono}
use nyxora.Transport.Base.{BaseTransport}

abbrev metrics : ℕ → ℕ → ℕ → Metrics ℕ
metrics latency loss stability = record {
  latency_ms = latency;
  jitter_ms = 3;
  packet_loss = loss;
  bandwidth = 100;
  stability = stability;
}

abbrev transport : String → ℕ → Transport ℕ
transport name score = record {
  name = name;
  kind = name;
  status = active;
  metrics = metrics 40 1 1;
  score = score;
}

abbrev three : Bool → Manager ℕ
three all_active = record {
  transports =
      ("ssh", transport "ssh" 60)
      ∷ ("quic", transport "quic" 80)
      ∷ ("frp", transport "frp" 70)
      ∷ [];
  active = ("ssh", true) ∷ [];
  weights = ("ssh", 5) ∷ ("quic", 15) ∷ ("frp", 10) ∷ [];
  all_active = all_active;
}

abbrev result : String → ℕ → Bool → ConnectResult ℕ
result name score is_error = record { name = name; score = score; is_error = is_error }

abbrev results : List (ConnectResult ℕ)
results = result "ssh" 60 false ∷ result "frp" 0 true ∷ result "quic" 80 false ∷ []

-- The better transport wins, the other one is disconnected, and yet stays marked as active.
single_run : connect_all results (three false) ≡ (
  record (three false) { active = ("ssh", true) ∷ ("quic", true) ∷ [] },
  true,
  "frp" ∷ "ssh" ∷ [],
)
unfolding connect_all settle sort_slice put
single_run = refl

registered :
    (register (transport "tcp" 50) (three false)).weights
    ≡ ("ssh", 5) ∷ ("quic", 15) ∷ ("frp", 10) ∷ ("tcp", 3) ∷ []
unfolding register registered_weight put
registered = refl

normalized :
    (normalize_weights (three false)).weights ≡ ("ssh", 16) ∷ ("quic", 50) ∷ ("frp", 33) ∷ []
unfolding normalize_weights sum_weights update_all add_int mul_int div_int is_negative
normalized = refl

best_run : best (three false) ≡ (some (transport "quic" 80), 80)
unfolding best best_from
best_run = refl

measured_run :
    measure_latency {F = ℕ} "10.0.0.1" (some 30 ∷ none ∷ some 40 ∷ some 50 ∷ [])
    ≡ record { latency = 40; packet_loss = 0; jitter = 10 }
unfolding measure_latency round_trips lost sum_times sum_diffs jitter_of
measured_run = refl

connect_all-IsSingle_example : IsSingle results (three false) (connect_all results (three false))
connect_all-IsSingle_example =
    connect_all-IsSingle nat-IsOrdered (three false) results refl here refl

connect_all-IsEvery_example : IsEvery results (three true) (connect_all results (three true))
connect_all-IsEvery_example = connect_all-IsEvery (three true) results refl here refl

abbrev no_luck : List (ConnectResult ℕ)
no_luck = result "ssh" 0 true ∷ result "frp" 0 true ∷ []

ssh_is_active : (all_active : Bool) → flag (three all_active).active "ssh" ≡ true
unfolding get
ssh_is_active all_active = refl

connect_all-keeps_active_example : flag ((connect_all results (three false)).0).active "ssh" ≡ true
connect_all-keeps_active_example =
    connect_all-keeps_active (three false) results "ssh" (ssh_is_active false)

three-IsKnown : IsKnown (three false)
unfolding get
three-IsKnown k h = ground (arith, eq_iff "ssh" k, eq_iff "quic" k, eq_iff "frp" k, h)

results_are_known :
    (c : ConnectResult ℕ) → Has c results → get (three false).transports c.name ≢ none
unfolding get
results_are_known c here = λ e. ground arith
results_are_known c (there here) = λ e. ground arith
results_are_known c (there (there here)) = λ e. ground arith
results_are_known c (there (there (there h))) = elim h [ ]

mutators-IsKnown_example :
    IsKnown (register (transport "tcp" 50) (three false))
    × IsKnown (activate "frp" (three false)).0
    × IsKnown (deactivate "frp" (three false))
    × IsKnown (disconnect_all (three false)).0
    × IsKnown (connect_all results (three false)).0
mutators-IsKnown_example =
    mutators-IsKnown (three false) (transport "tcp" 50) "frp" results three-IsKnown
      results_are_known

abbrev even : ScoringWeights ℕ
even = record { latency = 1; loss = 1; jitter = 1; stability = 1 }

better : IsBetter nat-IsOrdered nat-IsMonotone (metrics 60 2 0) (metrics 40 1 1)
better = record { latency = refl; loss = refl; jitter = refl; stability = refl }

even-IsWeighting : IsWeighting nat-IsOrdered nat-IsMonotone even
even-IsWeighting = record { latency = refl; loss = refl; jitter = refl; stability = refl }

compute_score_mono_example :
    compute_score (metrics 60 2 0) even ≼ compute_score (metrics 40 1 1) even
compute_score_mono_example =
    compute_score_mono nat-IsOrdered nat-IsMonotone (metrics 60 2 0) (metrics 40 1 1) even
      even-IsWeighting better refl refl

abbrev fresh : BaseTransport ℕ
fresh = record {
  name = "ssh";
  transport = "ssh";
  status = inactive;
  metrics = metrics 0 0 0;
  remote_addr = "";
  port = 22;
  weights = even;
  bandwidth = 50;
  is_live = true;
  cmd = none;
  tmp_files = [];
  scoring_fn = none;
}

abbrev measurement : ℕ → Measured ℕ
measurement loss = record { latency = 20; packet_loss = loss; jitter = 2 }

abbrev frp_entry : TunnelMeta
frp_entry = record {
  name = "frp";
  transport = "frp";
  category = relay;
  description = "Fast reverse proxy, NAT traversal king";
  port = 7000;
  protocol = "tcp";
  binary = "frpc";
  deps = "frpc" ∷ [];
  score = 70;
  weight = 10;
}

abbrev random_bytes : Bytes
random_bytes =
    0 ∷ 17 ∷ 34 ∷ 51 ∷ 68 ∷ 85 ∷ 102 ∷ 119 ∷ 136 ∷ 153 ∷ 170 ∷ 187 ∷ 204 ∷ 221 ∷ 238 ∷ 255 ∷ []

abbrev all_fit : Bytes → Bool
all_fit [] = true
all_fit (b ∷ bs) = ltb b 256 && all_fit bs

random_bytes_fit : (bs : Bytes) → all_fit bs ≡ true → AreBytes bs
random_bytes_fit [] h = tt
random_bytes_fit (b ∷ bs) h = (ground arith, random_bytes_fit bs (ground arith))

parse_uuid-generate_random_uuid_example :
    parse_uuid (generate_random_uuid random_bytes) ≡ some random_bytes
parse_uuid-generate_random_uuid_example =
    parse_uuid-generate_random_uuid random_bytes (random_bytes_fit random_bytes refl) refl

uuid_run : generate_random_uuid random_bytes ≡ codes "00112233-4455-6677-8899-aabbccddeeff"
unfolding generate_random_uuid hex
uuid_run = refl

-- A header for the domain go.dev with a flow.
header_run :
    send_vless_header
      (λ addr. none)
      443
      (codes "00112233-4455-6677-8899-AABBCCDDEEFF")
      (codes "go.dev")
      (codes "x")
    ≡ ((0 ∷ random_bytes) ++ (13 ∷ 0 ∷ 1 ∷ 1 ∷ 187 ∷ 2 ∷ (codes "go.dev" ++ (1 ∷ codes "x"))), true)
unfolding send_vless_header parse_uuid hex_pairs hex_value payload encode_address
header_run = refl
