-- ===== src/Config/Tests.antt =====
-- The theorems on internal/config at small inputs, and runs of the code.
use nyxora.Common.{
  ℕ, ◌≡◌, ◌↔◌, refl, String, Option, none, some, [], ◌∷◌, ◌++◌, arith, All, Has, here, there,
}
use nyxora.Common.Bytes.{Bytes, codes}
use nyxora.Common.Float.{nat_float}
use nyxora.Config.Memory.{
  split_lines, fields_from, fields, has_prefix, digits_from, parse_uint, second_field,
  find_available, get_available_ram_mb,
}
use nyxora.Config.Modes.{
  default_thresholds, mode_lite, get_transports_for_mode, detect_mode_with_thresholds,
  is_valid_mode, mode_in,
}
use nyxora.Config.Settings.{
  Config, default_config, validate, validate_port_overrides, check_all_overrides,
  get_effective_transports,
}
use nyxora.Config.Loading.{File, missing, load, load_file, load_secrets}
use nyxora.Config.Watching.{Watcher, new_watcher}
use nyxora.Config.Detected.{detect_mode_with_thresholds_mono}
use nyxora.Config.Valid.{
  registered, IsOverride, AreDistinct, validate_port_overrides_iff, validate-IsRegistered,
}
use nyxora.Config.Loaded.{AreSet, load-IsReady}

abbrev meminfo : Bytes → Bytes
meminfo n = codes "MemTotal: 900 kB\nMemAvailable:   " ++ (n ++ codes " kB\n")

memory_run : get_available_ram_mb (some (meminfo (codes "614400"))) ≡ 600
unfolding get_available_ram_mb find_available second_field parse_uint digits_from has_prefix fields
    fields_from split_lines
memory_run = refl

overflow_run : parse_uint (codes "18446744073709551616") ≡ none
unfolding parse_uint digits_from
overflow_run = refl

validate_port_overrides_iff_example :
    (validate_port_overrides (("ssh", 22) ∷ ("frp", 7000) ∷ []) ≡ none) ↔ (
      All IsOverride (("ssh", 22) ∷ ("frp", 7000) ∷ [])
      × AreDistinct (("ssh", 22) ∷ ("frp", 7000) ∷ []))
validate_port_overrides_iff_example =
    validate_port_overrides_iff (("ssh", 22) ∷ ("frp", 7000) ∷ []) (omega arith, (omega arith, tt))

abbrev lite : Config
lite = record default_config { mode = mode_lite }

validate-IsRegistered_example : All (λ t. Has t registered) (get_effective_transports lite)
unfolding validate is_valid_mode mode_in check_all_overrides
validate-IsRegistered_example = validate-IsRegistered lite refl

abbrev no_env : String → String
no_env _ = ""

abbrev no_random : String → Option String
no_random _ = none

abbrev no_files : String → File ℕ
no_files _ = missing

abbrev keep_config : ℕ → Config → Option Config
keep_config _ c = some c

abbrev loaded_config : Config
loaded_config = record default_config { secrets = load_secrets no_env no_random }

load-IsReady_example : (validate loaded_config ≡ none) × AreSet loaded_config.secrets
unfolding load load_file
load-IsReady_example = load-IsReady no_env no_random keep_config no_files "" loaded_config refl

abbrev watcher : Watcher ℕ
watcher = new_watcher "c.json" (some 7) 0

-- 600 and 4096 megabytes.
abbrev small_machine : Option Bytes
small_machine = some (meminfo (codes "614400"))

abbrev large_machine : Option Bytes
large_machine = some (meminfo (codes "4194304"))

detect_mode_with_thresholds_mono_example : Has "quic" (
    get_transports_for_mode (
      detect_mode_with_thresholds {F = ℕ} 0 4
        (get_available_ram_mb large_machine)
        default_thresholds))
unfolding get_available_ram_mb find_available second_field parse_uint digits_from has_prefix fields
    fields_from split_lines detect_mode_with_thresholds get_transports_for_mode
detect_mode_with_thresholds_mono_example =
    detect_mode_with_thresholds_mono {F = ℕ} 0 4 default_thresholds small_machine large_machine
      (omega arith) (there (there here))
