-- ===== src/Orchestrator/Tests.antt =====
-- The theorems on internal/orchestrator at small inputs, and runs of the code.
use nyxora.Common.{map, ℕ, ◌≤◌, ◌≡◌, ◌↔◌, ◌⊎◌, refl, true, String, some, [], ◌∷◌, All, Has}
use nyxora.Common.Float.{nat_float}
use nyxora.Config.Modes.{mode_lite, is_valid_mode, mode_in}
use nyxora.Config.Settings.{
  Config, default_config, validate, check_all_overrides, get_effective_transports, detect_mode,
}
use nyxora.Failover.{set_on_failover}
use nyxora.Routing.{PathScore, all_paths}
use nyxora.Common.Assoc.{get}
use nyxora.Common.Sort.{sort_slice, insert_sorted}
use nyxora.Transport.Manager.{Transport, inactive, list}
use nyxora.Orchestrator.State.{Orchestrator, new}
use nyxora.Orchestrator.Starting.{init}
use nyxora.Orchestrator.Rounds.{switch, monitor_round}
use nyxora.Orchestrator.Connecting.{
  Remote, panicking, connect_to_remote, get_min_ram_for_mode, install_all,
}
use nyxora.Orchestrator.Registered.{has_transport, init_iff}
use nyxora.Orchestrator.Switching.{IsScoreIn, IsSwitch, IsSwitched, switch_lem}
use nyxora.Orchestrator.Measured.{IsMeasured, monitor_round-IsMeasured}
use nyxora.Orchestrator.Connected.{IsEnd, nothing, connect_to_remote_lem}
use nyxora.Orchestrator.Required.{get_min_ram_for_mode-detect_mode}

abbrev lite : Config
lite = record default_config { mode = mode_lite }

abbrev no_score : String → ℕ
no_score _ = 0

abbrev fresh_node : Orchestrator ℕ
fresh_node = new "nyx-0123456789ab" 0 lite

init_iff_example :
    (has_transport "quic" (init no_score true fresh_node).0.transport_m ≡ true)
    ↔ Has "quic" (get_effective_transports lite)
unfolding validate is_valid_mode mode_in check_all_overrides
init_iff_example = init_iff lite "nyx-0123456789ab" 0 no_score "quic" refl

abbrev path : String → ℕ → PathScore ℕ
path name score = record {
  name = name;
  kind = name;
  score = score;
  latency = 0;
  jitter = 0;
  loss = 0;
  stability = 0;
  bandwidth = 0;
}

-- WireGuard is in use, and QUIC is 30 points better.
abbrev behind : Orchestrator ℕ
behind = record fresh_node {
  connected = true;
  fail = set_on_failover true fresh_node.fail;
  route_engine = record fresh_node.route_engine {
    paths = ("wireguard", path "wireguard" 40) ∷ ("quic", path "quic" 70) ∷ [];
    current = "wireguard";
  };
}

switch_lem_example :
    let after = switch 1 2 behind in
    (x : ℕ) × IsScoreIn "wireguard" (all_paths behind.route_engine) x
    × (((best : PathScore ℕ) × IsSwitch best x behind × IsSwitched best 2 behind after)
        ⊎ (((best : PathScore ℕ) → ¬ IsSwitch best x behind) × (after ≡ behind)))
unfolding set_on_failover
switch_lem_example = switch_lem 1 2 behind refl

abbrev wireguard : Transport ℕ
wireguard = record {
  name = "wireguard";
  kind = "wireguard";
  status = inactive;
  metrics = record { latency_ms = 0; jitter_ms = 0; packet_loss = 0; bandwidth = 0; stability = 0 };
  score = 0;
}

abbrev clock : String → ℕ
clock _ = 9

-- One transport is registered.
abbrev tunnelled : Orchestrator ℕ
tunnelled = record behind {
  transport_m = record behind.transport_m { transports = ("wireguard", wireguard) ∷ [] };
}

listed_run : map (λ i. i.name) (list tunnelled.transport_m) ≡ "wireguard" ∷ []
unfolding list new sort_slice insert_sorted get
listed_run = refl

monitor_round-IsMeasured_example :
    All
      (λ i. IsMeasured 20 1 (monitor_round 20 1 clock 1 2 tunnelled).0 i.name)
      (list tunnelled.transport_m)
unfolding new
monitor_round-IsMeasured_example = monitor_round-IsMeasured 20 1 clock 1 2 tunnelled refl

-- A host on which everything works, but there is no `wg` on this side to make a key.
abbrev keyless : Remote ℕ
keyless = record {
  loss = 0;
  has_ssh = true;
  has_os = true;
  has_resources = λ n. true;
  has_tool = λ s. true;
  install_script = λ s. "";
  is_installed = λ s. true;
  local_public = "";
  remote_iface = "nyxora51820";
  remote_public = some "0123456789012345678901234567890123456789";
  wireguard = wireguard;
  is_connected = true;
  is_provisioned = true;
  results = [];
  detail = λ name. "";
  time_ms = λ name status. 0;
}

connect_to_remote_lem_example :
    IsEnd keyless fresh_node.connected fresh_node.local_node_id
      (connect_to_remote keyless fresh_node)
unfolding new
connect_to_remote_lem_example = connect_to_remote_lem keyless fresh_node nothing

keyless_run : connect_to_remote keyless fresh_node ≡ panicking
unfolding connect_to_remote get_min_ram_for_mode install_all new
keyless_run = refl

get_min_ram_for_mode-detect_mode_example :
    get_min_ram_for_mode (record lite { mode = detect_mode {F = ℕ} 0 4 600 lite }) ≤ 600
get_min_ram_for_mode-detect_mode_example = get_min_ram_for_mode-detect_mode {F = ℕ} 0 4 600 lite
