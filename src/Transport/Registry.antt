-- ===== src/Transport/Registry.antt =====
-- internal/transport/registry.go and the data of transport.go: the tunnels that nyxora knows.
-- `InstallScript` is left out: it maps a name to a shell command.
use nyxora.Common.{ℕ, String, str_eq, Option, none, some, List, [], ◌∷◌, if◌then◌else◌, keep}

pub data Category : Type 0 where
  vpn tunnel relay proxy : Category

abbrev pub category_name : Category → String
category_name vpn = "vpn"
category_name tunnel = "tunnel"
category_name relay = "relay"
category_name proxy = "proxy"

-- `score` is a whole number of points.
pub record TunnelMeta : Type 0 where
  pub name : String
  pub transport : String
  pub category : Category
  pub description : String
  pub port : ℕ
  pub protocol : String
  pub binary : String
  pub deps : List String
  pub score : ℕ
  pub weight : ℕ

abbrev pub tunnel_registry : List TunnelMeta
tunnel_registry =
    record {
      name = "wireguard";
      transport = "wireguard";
      category = vpn;
      description = "Fastest kernel-level VPN, minimal overhead";
      port = 51820;
      protocol = "udp";
      binary = "wg";
      deps = "wg" ∷ "wg-quick" ∷ [];
      score = 95;
      weight = 30;
    }
    ∷ record {
      name = "openvpn";
      transport = "openvpn";
      category = vpn;
      description = "Mature SSL/TLS VPN, maximum compatibility";
      port = 1194;
      protocol = "udp";
      binary = "openvpn";
      deps = "openvpn" ∷ [];
      score = 75;
      weight = 10;
    }
    ∷ record {
      name = "ssh";
      transport = "ssh";
      category = tunnel;
      description = "Built-in on every server, zero install";
      port = 22;
      protocol = "tcp";
      binary = "ssh";
      deps = "ssh" ∷ [];
      score = 60;
      weight = 5;
    }
    ∷ record {
      name = "quic";
      transport = "quic";
      category = tunnel;
      description = "UDP-based, handles packet loss well";
      port = 9923;
      protocol = "udp";
      binary = "";
      deps = [];
      score = 80;
      weight = 15;
    }
    ∷ record {
      name = "frp";
      transport = "frp";
      category = relay;
      description = "Fast reverse proxy, NAT traversal king";
      port = 7000;
      protocol = "tcp";
      binary = "frpc";
      deps = "frpc" ∷ [];
      score = 70;
      weight = 10;
    }
    ∷ record {
      name = "rathole";
      transport = "rathole";
      category = relay;
      description = "Rust-based reverse proxy, blistering speed";
      port = 2333;
      protocol = "tcp";
      binary = "rathole";
      deps = "rathole" ∷ [];
      score = 85;
      weight = 12;
    }
    ∷ record {
      name = "ipsec";
      transport = "ipsec";
      category = vpn;
      description = "Enterprise-grade IPsec VPN (strongSwan)";
      port = 500;
      protocol = "udp";
      binary = "ipsec";
      deps = "strongswan" ∷ [];
      score = 70;
      weight = 5;
    }
    ∷ record {
      name = "shadowsocks";
      transport = "shadowsocks";
      category = proxy;
      description = "Lightweight secure proxy, protocol obfuscation";
      port = 8388;
      protocol = "tcp";
      binary = "ss-server";
      deps = "shadowsocks-libev" ∷ [];
      score = 55;
      weight = 3;
    }
    ∷ record {
      name = "hysteria";
      transport = "hysteria";
      category = tunnel;
      description = "Modified QUIC, brute-force throughput";
      port = 8444;
      protocol = "udp";
      binary = "hysteria";
      deps = "hysteria" ∷ [];
      score = 90;
      weight = 12;
    }
    ∷ record {
      name = "backhaul";
      transport = "backhaul";
      category = relay;
      description = "Lightning-fast reverse tunnel, NAT traversal with TCP/UDP/WS/WSS";
      port = 3080;
      protocol = "tcp";
      binary = "backhaul";
      deps = "backhaul" ∷ [];
      score = 82;
      weight = 10;
    }
    ∷ record {
      name = "tcp";
      transport = "tcp";
      category = tunnel;
      description = "Raw TCP direct connection, lowest overhead";
      port = 9924;
      protocol = "tcp";
      binary = "";
      deps = [];
      score = 50;
      weight = 3;
    }
    ∷ record {
      name = "websocket";
      transport = "websocket";
      category = tunnel;
      description = "WebSocket transport, bypasses CDN and proxies";
      port = 9925;
      protocol = "tcp";
      binary = "";
      deps = [];
      score = 70;
      weight = 8;
    }
    ∷ []

-- `none` is the error of a name that is not there.
unfoldable pub find_tunnel : List TunnelMeta → String → Option TunnelMeta
find_tunnel [] name = none
find_tunnel (t ∷ ts) name =
    let rest = find_tunnel ts name in if str_eq t.name name then some t else rest

unfoldable pub lookup_tunnel : String → Option TunnelMeta
unfolding find_tunnel
lookup_tunnel name = find_tunnel tunnel_registry name

unfoldable pub list_tunnels : List TunnelMeta
list_tunnels = tunnel_registry

unfoldable pub category_list : String → List TunnelMeta
category_list category = keep (λ t. str_eq (category_name t.category) category) tunnel_registry
