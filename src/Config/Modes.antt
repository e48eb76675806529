-- ===== src/Config/Modes.antt =====
-- The modes and the transports of internal/config/config.go, and the choice of a mode by the memory
-- and the load of the machine.
use nyxora.Common.{
  ℕ, ◌/◌, Bool, true, false, String, str_eq, Option, none, some, List, [], ◌∷◌, if◌then◌else◌, ltb,
}
use nyxora.Common.Bytes.{Bytes}
use nyxora.Common.Words.{mul_int}
use nyxora.Common.Float.{Float64, float_zero}
use nyxora.Common.Assoc.{get}
use nyxora.Config.Memory.{fields}

-- `ServerMode` is a string, and JSON can make it any string.
abbrev pub ServerMode : Type 0
ServerMode = String

abbrev pub mode_full : ServerMode
mode_full = "full"

abbrev pub mode_lite : ServerMode
mode_lite = "lite"

abbrev pub mode_minimal : ServerMode
mode_minimal = "minimal"

abbrev pub valid_modes : List ServerMode
valid_modes = mode_full ∷ mode_lite ∷ mode_minimal ∷ []

abbrev pub valid_transport_names : List (String × Bool)
valid_transport_names =
    ("wireguard", true)
    ∷ ("openvpn", true)
    ∷ ("ssh", true)
    ∷ ("quic", true)
    ∷ ("frp", true)
    ∷ ("rathole", true)
    ∷ ("ipsec", true)
    ∷ ("shadowsocks", true)
    ∷ ("hysteria", true)
    ∷ ("backhaul", true)
    ∷ ("tcp", true)
    ∷ ("websocket", true)
    ∷ []

pub record ModeThresholds : Type 0 where
  pub minimal_max_mb : ℕ
  pub lite_max_mb : ℕ

abbrev pub default_thresholds : ModeThresholds
default_thresholds = record { minimal_max_mb = 512; lite_max_mb = 2048 }

abbrev pub lite_transports : List String
lite_transports = "ssh" ∷ "shadowsocks" ∷ "quic" ∷ "tcp" ∷ "frp" ∷ "websocket" ∷ []

abbrev pub minimal_transports : List String
minimal_transports = "ssh" ∷ "shadowsocks" ∷ []

abbrev pub all_transports : List String
all_transports =
    "wireguard" ∷ "openvpn" ∷ "ssh" ∷ "quic" ∷ "frp" ∷ "rathole" ∷ "ipsec" ∷ "shadowsocks"
    ∷ "hysteria" ∷ "backhaul" ∷ "tcp" ∷ "websocket" ∷ []

unfoldable pub get_transports_for_mode : ServerMode → List String
get_transports_for_mode mode =
    if str_eq mode mode_lite
    then lite_transports
    else if str_eq mode mode_minimal
    then minimal_transports
    else all_transports

abbrev pub mode_by_ram : ModeThresholds → ℕ → ServerMode
mode_by_ram t ram =
    if ltb ram t.minimal_max_mb
    then mode_minimal
    else if ltb ram t.lite_max_mb
    then mode_lite
    else mode_full

abbrev pub thresholds_or_default : Option ModeThresholds → ModeThresholds
thresholds_or_default none = default_thresholds
thresholds_or_default (some t) = t

module _ {F : Type 0} ⦃fl : Float64 F⦄ where
  abbrev pub first_field : (Bytes → Option F) → List Bytes → F
  first_field parse_float [] = float_zero
  first_field parse_float (f ∷ _) = elim (parse_float f) [ none ↦ float_zero | some load ↦ load ]

  -- `parse_float` stands for `strconv.ParseFloat`, and `none` is a file that cannot be read.
  unfoldable pub get_cpu_load : (Bytes → Option F) → Option Bytes → F
  get_cpu_load parse_float none = float_zero
  get_cpu_load parse_float (some text) = first_field parse_float (fields text)

  abbrev pub is_loaded : F → ℕ → Bool
  is_loaded cpu_load cpus = fl.lt (fl.mul (fl.of_int cpus) (fl.ratio 8 10)) cpu_load

  abbrev pub effective_ram : F → ℕ → ℕ → ℕ
  effective_ram cpu_load cpus avail =
      if is_loaded cpu_load cpus then mul_int avail 70 / 100 else avail

  -- `avail`, `cpu_load` and `cpus` are what `GetAvailableRAMMB`, `GetCPULoad` and `runtime.NumCPU`
  -- give.
  unfoldable pub detect_mode_with_thresholds : F → ℕ → ℕ → ModeThresholds → ServerMode
  detect_mode_with_thresholds cpu_load cpus avail t =
      mode_by_ram t (effective_ram cpu_load cpus avail)

unfoldable pub mode_in : ServerMode → List ServerMode → Bool
mode_in mode [] = false
mode_in mode (m ∷ ms) = let rest = mode_in mode ms in if str_eq m mode then true else rest

unfoldable pub is_valid_mode : ServerMode → Bool
unfolding mode_in
is_valid_mode mode = mode_in mode valid_modes

abbrev pub set_has : Option Bool → Bool
set_has none = false
set_has (some b) = b

unfoldable pub is_valid_transport : String → Bool
unfolding get
is_valid_transport name = set_has (get valid_transport_names name)
