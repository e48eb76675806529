-- ===== src/Config/Loading.antt =====
-- Loading a configuration by internal/config/config.go. `env` stands for `os.Getenv`, `hex` for the
-- 16 bytes that `rand.Read` gives to a token, in hexadecimal, or its error, `decode` for
-- `json.Unmarshal` onto a configuration, and `D` is the type of what a file holds.
use Prim.Native.String.{◌++◌ as concat}
use nyxora.Common.{String, str_eq, Option, none, some, if◌then◌else◌}
use nyxora.Config.Settings.{Secrets, Config, ConfigError, default_config, validate}

-- What `os.ReadFile` gives.
pub data File (D : Type 0) : Type 0 where
  missing unreadable : File D
  holds : D → File D

pub data LoadError : Type 0 where
  read_error parse_error : LoadError
  invalid_config : ConfigError → LoadError

pub data Loaded : Type 0 where
  loaded : Config → Loaded
  failed : LoadError → Loaded

abbrev pub token : String → Option String → String
token prefix none = concat prefix "-fallback"
token prefix (some h) = concat prefix (concat "-" h)

unfoldable pub generate_random_token : (String → Option String) → String → String
generate_random_token hex prefix = token prefix (hex prefix)

-- `if s == "" { s = default }`.
abbrev pub or_set : String → String → String
or_set s default = if str_eq s "" then default else s

unfoldable pub load_secrets : (String → String) → (String → Option String) → Secrets
load_secrets env hex = record {
  ss_password = or_set (env "NYXORA_SS_PASSWORD") (generate_random_token hex "nyxora-ss");
  ss_method = or_set (env "NYXORA_SS_METHOD") "aes-256-gcm";
  rathole_token = or_set (env "NYXORA_RATHOLE_TOKEN") (generate_random_token hex "nyxora-rathole");
  hysteria_auth = or_set (env "NYXORA_HYSTERIA_AUTH") (generate_random_token hex "nyxora-hy2");
  backhaul_token = or_set (env "NYXORA_BACKHAUL_TOKEN") (generate_random_token hex "nyxora-bh");
  ipsec_psk = or_set (env "NYXORA_IPSEC_PSK") (generate_random_token hex "nyxora-ipsec");
}

unfoldable pub config_path : String → String
config_path path = if str_eq path "" then "/etc/nyxora/config.json" else path

abbrev pub when_valid :
    (String → String) → (String → Option String) → Config → Option ConfigError → Loaded
when_valid env hex c (some e) = failed (invalid_config e)
when_valid env hex c none = loaded (record c { secrets = load_secrets env hex })

unfoldable pub when_parsed : (String → String) → (String → Option String) → Option Config → Loaded
unfolding validate
when_parsed env hex none = failed parse_error
when_parsed env hex (some c) = when_valid env hex c (validate c)

module _ {D : Type 0} (env : String → String) (hex : String → Option String)
    (decode : D → Config → Option Config) where
  unfoldable pub load_file : File D → Loaded
  unfolding when_parsed
  load_file missing = loaded (record default_config { secrets = load_secrets env hex })
  load_file unreadable = failed read_error
  load_file (holds text) = when_parsed env hex (decode text default_config)

  unfoldable pub load : (String → File D) → String → Loaded
  unfolding load_file
  load read path = load_file (read (config_path path))
