-- ===== src/Orchestrator/Connecting.antt =====
-- `ConnectToRemote` of internal/orchestrator/connect.go. What the remote host and the local tools
-- answer is a record, and each part of the function is a function that goes on, fails or panics.
use Prim.Native.String.{len}
use nyxora.Common.{
  ℕ, Bool, true, false, not, ◌||◌, String, str_eq, Option, none, some, List, [], ◌∷◌, if◌then◌else◌,
  ltb, length,
}
use nyxora.Common.Float.{Float64}
use nyxora.Config.Modes.{ModeThresholds, ServerMode, thresholds_or_default, mode_minimal, mode_lite}
use nyxora.Config.Settings.{Config}
use nyxora.Routing.{set_current}
use nyxora.Transport.Registry.{TunnelMeta, list_tunnels}
use nyxora.Transport.Manager.{
  ConnectResult, Transport, get_transport, register, set_all_active, connect_all,
}
use nyxora.Orchestrator.State.{
  Orchestrator, Phase, setting_up, connecting, establishing, multipath_active, failed, StepResult,
  running, ok, warn, add_step,
}

-- What the remote host answers: `loss` of the ping; whether SSH works, whether the operating system
-- is found, whether its resources do; the tools that it has, the script that installs a tool, and
-- whether it ran; the key pair made here; the interface and the key there, or an error; the public
-- address, or an error. `wireguard` is a new transport, and `is_connected` tells whether `Connect`
-- of WireGuard gave no error; `is_provisioned` tells the same of the provisioning. `results` is
-- what `ConnectAll` is sent, `detail` the text that ends a step, and `time_ms` the time since the
-- start at a step.
pub record Remote (F : Type 0) : Type 0 where
  pub loss : F
  pub has_ssh : Bool
  pub has_os : Bool
  pub has_resources : ℕ → Bool
  pub has_tool : String → Bool
  pub install_script : String → String
  pub is_installed : String → Bool
  pub local_public : String
  pub remote_iface : String
  pub remote_public : Option String
  pub wireguard : Transport F
  pub is_connected : Bool
  pub is_provisioned : Bool
  pub results : List (ConnectResult F)
  pub detail : String → String
  pub time_ms : String → StepResult → ℕ

-- The orchestrator goes on, or the function returns an error, or panics.
pub data Run (F : Type 0) : Type 0 where
  going : Orchestrator F → Run F
  gone_wrong : Orchestrator F → Run F
  panicking : Run F

infixl 5 ◌>=>◌
abbrev pub ◌>=>◌ : {F : Type 0} → Run F → (Orchestrator F → Run F) → Run F
going o >=> f = f o
gone_wrong o >=> f = gone_wrong o
panicking >=> f = panicking

abbrev pub min_ram : ModeThresholds → ServerMode → ℕ
min_ram t mode =
    if str_eq mode mode_minimal
    then 0
    else if str_eq mode mode_lite
    then t.minimal_max_mb
    else t.lite_max_mb

unfoldable pub get_min_ram_for_mode : Config → ℕ
get_min_ram_for_mode cfg = min_ram (thresholds_or_default cfg.thresholds) cfg.mode

-- The loop over the tunnels that installs what is missing: the names of those that could not be
-- installed.
unfoldable pub failed_deps :
    (String → Bool) → (String → String) → (String → Bool) → List TunnelMeta → List String
failed_deps has_tool install_script is_installed [] = []
failed_deps has_tool install_script is_installed (t ∷ ts) =
    let rest = failed_deps has_tool install_script is_installed ts in
    if str_eq t.binary ""
      || has_tool t.binary
      || str_eq (install_script t.name) ""
      || is_installed t.name
    then rest
    else t.name ∷ rest

module _ {F : Type 0} where
  abbrev pub set_phase : Phase → Orchestrator F → Run F
  set_phase phase o = going (record o { phase = phase })

module _ {F : Type 0} (r : Remote F) where
  abbrev pub announce : String → Orchestrator F → Orchestrator F
  announce name = add_step name running "" (r.time_ms name running)

  abbrev pub conclude : String → StepResult → Orchestrator F → Orchestrator F
  conclude name status = add_step name status (r.detail name) (r.time_ms name status)

  -- A step that is announced, and its result: a step that failed ends the function.
  abbrev pub check_step : String → Bool → Orchestrator F → Run F
  check_step name passed o =
      let announced = announce name o in
      if passed
      then going (conclude name ok announced)
      else gone_wrong (record (conclude name StepResult.failed announced) { phase = failed })

  -- A step whose failure is only a warning.
  abbrev pub warn_step : String → Bool → Orchestrator F → Run F
  warn_step name passed o = going (conclude name (if passed then ok else warn) (announce name o))

  -- `key[:16]` in the detail of the step.
  abbrev pub key_step : String → String → Orchestrator F → Run F
  key_step name key o =
      let announced = announce name o in
      if ltb (len key) 16 then panicking else going (conclude name ok announced)

  -- `remoteIface` is set before the error is looked at, and `remotePub[:16]` stands in the detail.
  abbrev pub remote_end : Option String → Orchestrator F → Run F
  remote_end none o = check_step "Setting up remote WG endpoint" false o
  remote_end (some key) o = key_step "Setting up remote WG endpoint" key o

module _ {F : Type 0} ⦃fl : Float64 F⦄ (r : Remote F) where
  abbrev pub check_remote : Orchestrator F → Run F
  check_remote o =
      check_step r "Pinging remote server" (not (fl.lt (fl.of_int 80) r.loss))
        (record o { phase = connecting; has_remote = true })
      >=> check_step r "SSH authentication" r.has_ssh
      >=> set_phase setting_up
      >=> check_step r "Detecting OS" r.has_os

  abbrev pub check_resources : Orchestrator F → Run F
  check_resources o =
      let least = get_min_ram_for_mode o.cfg in
      if ltb 0 least
      then check_step r "Checking remote resources" (r.has_resources least) o
      else going o

  unfoldable pub install_all : Orchestrator F → Run F
  unfolding list_tunnels
  install_all o =
      warn_step r "Installing dependencies"
        (ltb (length (failed_deps r.has_tool r.install_script r.is_installed list_tunnels)) 1) o
      >=> set_phase establishing

  abbrev pub remote_part : Orchestrator F → Run F
  remote_part o = remote_end r r.remote_public (record o { remote_iface = r.remote_iface })

  -- The last step with a transport for WireGuard, which is registered if there was none.
  abbrev pub local_known : Option (Transport F) → Orchestrator F → Run F
  local_known (some t) o = check_step r "Setting up local WG endpoint" r.is_connected o
  local_known none o =
      check_step r "Setting up local WG endpoint" r.is_connected
        (record o { transport_m = register r.wireguard o.transport_m })

  -- The step is announced before the look at the manager, which does not touch the steps.
  abbrev pub local_end : Orchestrator F → Run F
  local_end o = local_known (get_transport o.transport_m "wireguard") o

  abbrev pub set_up_wireguard : Orchestrator F → Run F
  set_up_wireguard o =
      key_step r "Generating WireGuard keys" r.local_public o >=> remote_part >=> local_end

  -- `Init` of the transports with their secrets changes nothing that is modelled. `localNodeID[:8]`
  -- stands in the detail of the last step.
  abbrev pub spread_tunnels : Orchestrator F → Orchestrator F
  spread_tunnels o =
      if o.cfg.all_tunnels_active
      then (let p = conclude r "Multipath mode" ok o in
          record p { transport_m = (connect_all r.results (set_all_active true p.transport_m)).0 })
      else conclude r "Smart mode" ok o

  abbrev pub finish : Orchestrator F → Run F
  finish o =
      warn_step r "Provisioning remote tunnel services" r.is_provisioned
        (record o { connected = true; phase = multipath_active })
      >=> λ p.
          let q = spread_tunnels p in
          if ltb (len q.local_node_id) 8
          then panicking
          else (let s = conclude r "Tunnel established" ok q in
              going (record s { route_engine = set_current "wireguard" s.route_engine }))

  unfoldable pub connect_to_remote : Orchestrator F → Run F
  unfolding install_all
  connect_to_remote o =
      check_remote o >=> check_resources >=> install_all >=> set_up_wireguard >=> finish
