-- ===== src/Orchestrator/Starting.antt =====
-- `Init` of internal/orchestrator/orchestrator.go, and the transports that the constructors in
-- internal/transport make.
use nyxora.Common.{ℕ, Bool, true, false, String, List, [], ◌∷◌, map, if◌then◌else◌}
use nyxora.Common.Float.{Float64}
use nyxora.Common.Assoc.{put}
use nyxora.Config.Settings.{get_effective_transports}
use nyxora.Failover.{set_on_failover, set_on_recover}
use nyxora.Multipath.State.{Scheduler}
use nyxora.Multipath.Paths.{add_path}
use nyxora.Transport.Registry.{TunnelMeta, list_tunnels}
use nyxora.Transport.Scoring.{ScoringWeights}
use nyxora.Transport.Base.{BaseTransport, new_base}
use nyxora.Transport.Manager.{Manager, Transport, register, flag}
use nyxora.Orchestrator.State.{Orchestrator}

unfoldable pub enable_all : List String → List (String × Bool) → List (String × Bool)
enable_all [] enabled = enabled
enable_all (name ∷ names) enabled = enable_all names (put enabled name true)

module _ {F : Type 0} ⦃fl : Float64 F⦄ where
  -- `ScoringWeights{a, b, c, d}` in hundredths, in the order of the fields.
  abbrev weights : ℕ → ℕ → ℕ → ℕ → ScoringWeights F
  weights latency loss jitter stability = record {
    latency = fl.ratio latency 100;
    loss = fl.ratio loss 100;
    jitter = fl.ratio jitter 100;
    stability = fl.ratio stability 100;
  }

  unfoldable pub new_wireguard : BaseTransport F
  new_wireguard = new_base "wireguard" "wireguard" 51820 (weights 35 30 15 20) 0

  unfoldable pub new_openvpn : BaseTransport F
  new_openvpn = new_base "openvpn" "openvpn" 1194 (weights 30 30 15 25) 50

  unfoldable pub new_ssh : BaseTransport F
  new_ssh = new_base "ssh" "ssh" 22 (weights 30 30 15 25) 0

  unfoldable pub new_quic : BaseTransport F
  new_quic = new_base "quic" "quic" 9923 (weights 35 30 15 20) 0

  unfoldable pub new_frp : BaseTransport F
  new_frp = new_base "frp" "frp" 7000 (weights 35 30 15 20) 100

  unfoldable pub new_rathole : BaseTransport F
  new_rathole = new_base "rathole" "rathole" 2333 (weights 30 35 10 25) 200

  unfoldable pub new_ipsec : BaseTransport F
  new_ipsec = new_base "ipsec" "ipsec" 500 (weights 25 25 20 30) 500

  unfoldable pub new_shadowsocks : BaseTransport F
  new_shadowsocks = new_base "shadowsocks" "shadowsocks" 8388 (weights 20 30 20 30) 30

  unfoldable pub new_hysteria : BaseTransport F
  new_hysteria = new_base "hysteria" "hysteria" 8444 (weights 20 35 15 30) 300

  unfoldable pub new_backhaul : BaseTransport F
  new_backhaul = new_base "backhaul" "backhaul" 3080 (weights 30 30 15 25) 150

  unfoldable pub new_tcp : BaseTransport F
  new_tcp = new_base "tcp" "tcp" 9924 (weights 25 35 15 25) 0

  unfoldable pub new_websocket : BaseTransport F
  new_websocket = new_base "websocket" "websocket" 9925 (weights 35 25 15 25) 500

  unfoldable pub new_transports : List (BaseTransport F)
  unfolding new_wireguard new_openvpn new_ssh new_quic new_frp new_rathole new_ipsec new_shadowsocks
      new_hysteria new_backhaul new_tcp new_websocket
  new_transports =
      new_wireguard ∷ new_openvpn ∷ new_ssh ∷ new_quic ∷ new_frp ∷ new_rathole ∷ new_ipsec
      ∷ new_shadowsocks ∷ new_hysteria ∷ new_backhaul ∷ new_tcp ∷ new_websocket ∷ []

  -- What the methods of a transport answer; `score` is what `Score` gives.
  abbrev pub answers : (String → F) → BaseTransport F → Transport F
  answers score b = record {
    name = b.name;
    kind = b.transport;
    status = b.status;
    metrics = b.metrics;
    score = score b.name;
  }

  unfoldable pub register_enabled :
      List (String × Bool) → List (Transport F) → Manager F → Manager F
  register_enabled enabled [] m = m
  register_enabled enabled (t ∷ ts) m =
      let registered = register_enabled enabled ts (register t m) in
      let skipped = register_enabled enabled ts m in
      if flag enabled t.name then registered else skipped

  unfoldable pub add_paths : List TunnelMeta → Scheduler F → Scheduler F
  add_paths [] s = s
  add_paths (t ∷ ts) s = add_paths ts (add_path t.name t.transport t.weight s)

  -- The callbacks that `Init` installs are `switch_to` of Rounds and one that only logs. `has_dir`
  -- tells whether the data directory could be made; the result tells whether `Init` returned no
  -- error.
  unfoldable pub init : (String → F) → Bool → Orchestrator F → Orchestrator F × Bool
  unfolding list_tunnels new_transports
  init score has_dir o =
      let enabled = enable_all (get_effective_transports o.cfg) [] in
      if has_dir
      then (
        record o {
          transport_m = register_enabled enabled (map (answers score) new_transports) o.transport_m;
          scheduler = add_paths list_tunnels o.scheduler;
          fail = set_on_recover true (set_on_failover true o.fail);
        },
        true,
      )
      else (o, false)
