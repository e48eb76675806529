-- ===== src/Config/Settings.antt =====
-- The configuration of internal/config/config.go and its checks. An error is a value with the parts
-- of its message; `none` is no error.
use nyxora.Common.{
  ℕ, Bool, false, not, ◌&&◌, ◌||◌, String, str_eq, Option, none, some, List, [], ◌∷◌, if◌then◌else◌,
  ltb, length, ◌==◌,
}
use nyxora.Common.Words.{lt_int}
use nyxora.Common.Float.{Float64}
use nyxora.Common.Assoc.{get}
use nyxora.Config.Modes.{
  ServerMode, ModeThresholds, mode_full, get_transports_for_mode, detect_mode_with_thresholds,
  thresholds_or_default, is_valid_mode, is_valid_transport,
}

pub record Secrets : Type 0 where
  pub ss_password : String
  pub ss_method : String
  pub rathole_token : String
  pub hysteria_auth : String
  pub backhaul_token : String
  pub ipsec_psk : String

-- A map that is nil is `none`.
pub record Config : Type 0 where
  pub agent_id : String
  pub listen_addr : String
  pub server_mode : Bool
  pub remote_addr : String
  pub monitor_interval : ℕ
  pub failover_interval : ℕ
  pub stability_window : ℕ
  pub all_tunnels_active : Bool
  pub max_bandwidth : ℕ
  pub data_dir : String
  pub log_level : String
  pub mode : ServerMode
  pub enabled_transports : List String
  pub port_overrides : Option (List (String × ℕ))
  pub thresholds : Option ModeThresholds
  pub secrets : Secrets

abbrev pub no_secrets : Secrets
no_secrets = record {
  ss_password = "";
  ss_method = "";
  rathole_token = "";
  hysteria_auth = "";
  backhaul_token = "";
  ipsec_psk = "";
}

abbrev pub default_config : Config
default_config = record {
  agent_id = "";
  listen_addr = "0.0.0.0:9922";
  server_mode = false;
  remote_addr = "";
  monitor_interval = 30;
  failover_interval = 15;
  stability_window = 5;
  all_tunnels_active = false;
  max_bandwidth = 1000;
  data_dir = "/etc/nyxora";
  log_level = "info";
  mode = mode_full;
  enabled_transports = [];
  port_overrides = none;
  thresholds = none;
  secrets = no_secrets;
}

pub data ConfigError : Type 0 where
  invalid_mode : ServerMode → ConfigError
  invalid_transport : String → ConfigError
  invalid_port : ℕ → ConfigError
  unknown_override : String → ConfigError
  bad_override : String → ConfigError → ConfigError
  port_conflict : ℕ → String → String → ConfigError
  in_transports : ConfigError → ConfigError
  in_overrides : ConfigError → ConfigError

unfoldable pub validate_transports : List String → Option ConfigError
validate_transports [] = none
validate_transports (t ∷ ts) =
    let rest = validate_transports ts in
    if not (is_valid_transport t) then some (invalid_transport t) else rest

unfoldable pub validate_port : ℕ → Option ConfigError
validate_port port = if lt_int port 1 || lt_int 65535 port then some (invalid_port port) else none

-- `usedPorts[port]`.
unfoldable pub used_by : List (ℕ × String) → ℕ → Option String
used_by [] port = none
used_by (e ∷ m) port = let rest = used_by m port in if e.0 == port then some e.1 else rest

-- The third check of the loop body, and the rest of the loop.
abbrev pub refuse_used : ℕ → String → Option String → Option ConfigError → Option ConfigError
refuse_used port name (some existing) rest = some (port_conflict port existing name)
refuse_used port name none rest = rest

abbrev pub refuse_port : String → Option ConfigError → Option ConfigError → Option ConfigError
refuse_port name (some e) rest = some (bad_override name e)
refuse_port name none rest = rest

-- The loop of `ValidatePortOverrides`. Where it goes on, the port is a new key of `usedPorts`.
unfoldable pub check_overrides : List (ℕ × String) → List (String × ℕ) → Option ConfigError
unfolding validate_port used_by
check_overrides used [] = none
check_overrides used (e ∷ m) =
    let rest = check_overrides ((e.1, e.0) ∷ used) m in
    if not (is_valid_transport e.0)
    then some (unknown_override e.0)
    else refuse_port e.0 (validate_port e.1) (refuse_used e.1 e.0 (used_by used e.1) rest)

unfoldable pub validate_port_overrides : List (String × ℕ) → Option ConfigError
unfolding check_overrides
validate_port_overrides overrides = check_overrides [] overrides

unfoldable pub get_effective_transports : Config → List String
get_effective_transports c =
    if ltb 0 (length c.enabled_transports)
    then c.enabled_transports
    else get_transports_for_mode c.mode

abbrev pub port_or : ℕ → Option ℕ → ℕ
port_or default none = default
port_or default (some p) = p

abbrev pub port_from : Option (List (String × ℕ)) → String → ℕ → ℕ
port_from none name default = default
port_from (some m) name default = port_or default (get m name)

unfoldable pub get_port : Config → String → ℕ → ℕ
get_port c name default = port_from c.port_overrides name default

unfoldable pub detect_mode : {F : Type 0} ⦃fl : Float64 F⦄ → F → ℕ → ℕ → Config → ServerMode
unfolding detect_mode_with_thresholds
detect_mode cpu_load cpus avail c =
    detect_mode_with_thresholds cpu_load cpus avail (thresholds_or_default c.thresholds)

-- `if err != nil { return wrap(err) }` before the rest.
abbrev pub or_else :
    (ConfigError → ConfigError) → Option ConfigError → Option ConfigError → Option ConfigError
or_else wrap (some e) rest = some (wrap e)
or_else wrap none rest = rest

unfoldable pub check_all_overrides : Option (List (String × ℕ)) → Option ConfigError
unfolding validate_port_overrides
check_all_overrides none = none
check_all_overrides (some m) = or_else in_overrides (validate_port_overrides m) none

unfoldable pub validate : Config → Option ConfigError
unfolding is_valid_mode validate_transports
validate c =
    let ports = check_all_overrides c.port_overrides in
    let rest =
      if ltb 0 (length c.enabled_transports)
      then or_else in_transports (validate_transports c.enabled_transports) ports
      else ports in
    if not (str_eq c.mode "") && not (is_valid_mode c.mode)
    then some (invalid_mode c.mode)
    else rest
