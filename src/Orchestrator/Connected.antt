-- ===== src/Orchestrator/Connected.antt =====
-- How `ConnectToRemote` of internal/orchestrator/connect.go ends.
use Prim.Native.String.{len}
use mathlib.Core.Path.{subst}
use nyxora.Common.{
  ℕ, ◌<◌, ◌≡◌, ◌≢◌, ◌⊎◌, refl, inl, inr, Bool, true, false, not, String, Option, none, some, List,
  [], ◌∷◌, ◌++◌, if◌then◌else◌, ltb, arith, Bool-cases,
}
use nyxora.Common.Float.{Float64}
use nyxora.Routing.{set_current}
use nyxora.Transport.Manager.{Transport, register, get_transport}
use nyxora.Orchestrator.State.{
  Orchestrator, connecting, setting_up, multipath_active, failed, StepStatus, running, ok, warn,
}
use nyxora.Orchestrator.Connecting.{
  Remote, Run, announce, conclude, going, remote_part, local_end, local_known, gone_wrong,
  panicking, ◌>=>◌, check_step, warn_step, key_step, set_phase, check_remote, check_resources,
  install_all, remote_end, set_up_wireguard, spread_tunnels, finish, connect_to_remote,
  get_min_ram_for_mode,
}

-- Every step that is announced as running has its result right behind it.
pub data AreSettled : List StepStatus → Type 0 where
  nothing : AreSettled []
  told :
      (ss : List StepStatus) (s : StepStatus)
      → s.status ≢ running
      → AreSettled ss
      → AreSettled (ss ++ (s ∷ []))
  announced :
      (ss : List StepStatus) (a s : StepStatus)
      → a.name ≡ s.name
      → a.status ≡ running
      → s.status ≢ running
      → AreSettled ss
      → AreSettled ((ss ++ (a ∷ [])) ++ (s ∷ []))

-- A text that is too short to be sliced.
abbrev pub IsShort : ℕ → String → Type 0
IsShort n s = len s < n

module _ {F : Type 0} ⦃fl : Float64 F⦄ where
  -- What is too short when the function panics: the key made here, the key made there, or the name
  -- of the node.
  abbrev pub IsPanic : Remote F → String → Type 0
  IsPanic r node =
      IsShort 16 r.local_public
      ⊎ (((key : String) × (r.remote_public ≡ some key) × IsShort 16 key) ⊎ IsShort 8 node)

  -- What holds between the parts, and at an early end.
  abbrev IsKept : Remote F → Bool → String → Run F → Type 0
  IsKept r connected node (going o) =
      AreSettled o.steps × (o.connected ≡ connected) × (o.local_node_id ≡ node)
  IsKept r connected node (gone_wrong o) =
      AreSettled o.steps × (o.connected ≡ connected) × (o.phase ≡ failed)
  IsKept r connected node panicking = IsPanic r node

  -- What holds at the end.
  abbrev pub IsEnd : Remote F → Bool → String → Run F → Type 0
  IsEnd r connected node (going o) =
      AreSettled o.steps
      × (o.connected ≡ true)
      × (o.phase ≡ multipath_active)
      × (o.route_engine.current ≡ "wireguard")
  IsEnd r connected node (gone_wrong o) =
      AreSettled o.steps × (o.connected ≡ connected) × (o.phase ≡ failed)
  IsEnd r connected node panicking = IsPanic r node

  module _ (r : Remote F) (connected : Bool) (node : String) where
    abbrev Keeps : (Orchestrator F → Run F) → Type 0
    Keeps f =
        (o : Orchestrator F) → IsKept r connected node (going o) → IsKept r connected node (f o)

    bind-Keeps :
        (x : Run F) (f : Orchestrator F → Run F)
        → IsKept r connected node x
        → Keeps f
        → IsKept r connected node (x >=> f)
    bind-Keeps (going o) f h k = k o h
    bind-Keeps (gone_wrong o) f h k = h
    bind-Keeps panicking f h k = h

    check_step-Keeps : (name : String) (passed : Bool) → Keeps (check_step r name passed)
    check_step-Keeps name true o h = (announced o.steps _ _ refl refl (λ e. cc) h.0, h.1, h.2)
    check_step-Keeps name false o h = (announced o.steps _ _ refl refl (λ e. cc) h.0, h.1, refl)

    warn_step-Keeps : (name : String) (passed : Bool) → Keeps (warn_step r name passed)
    warn_step-Keeps name true o h = (announced o.steps _ _ refl refl (λ e. cc) h.0, h.1, h.2)
    warn_step-Keeps name false o h = (announced o.steps _ _ refl refl (λ e. cc) h.0, h.1, h.2)

    key_step-Keeps :
        (name key : String) → (IsShort 16 key → IsPanic r node) → Keeps (key_step r name key)
    key_step-Keeps name key p o h = elim (Bool-cases (ltb (len key) 16)) [
      | inl t ↦ rw t (p (ground (arith, t)))
      | inr t ↦ rw t (announced o.steps _ _ refl refl (λ e. cc) h.0, h.1, h.2)
    ]

    check_remote-Keeps : Keeps (check_remote r)
    check_remote-Keeps o h =
        let start = record o { phase = connecting; has_remote = true } in
        let ping = check_step r "Pinging remote server" (not (fl.lt (fl.of_int 80) r.loss)) start in
        let ssh = check_step r "SSH authentication" r.has_ssh in
        bind-Keeps (ping >=> ssh >=> set_phase setting_up) (check_step r "Detecting OS" r.has_os)
          (bind-Keeps (ping >=> ssh) (set_phase setting_up)
            (bind-Keeps ping ssh (check_step-Keeps "Pinging remote server" _ start h)
              (check_step-Keeps "SSH authentication" r.has_ssh))
            (λ p k. k))
          (check_step-Keeps "Detecting OS" r.has_os)

    check_resources-Keeps : Keeps (check_resources r)
    check_resources-Keeps o h = elim (Bool-cases (ltb 0 (get_min_ram_for_mode o.cfg))) [
      | inl t ↦ rw t (
          check_step-Keeps "Checking remote resources"
            (r.has_resources (get_min_ram_for_mode o.cfg)) o h)
      | inr t ↦ rw t h
    ]

    install_all-Keeps : Keeps (install_all r)
    unfolding install_all
    install_all-Keeps o h = warn_step-Keeps "Installing dependencies" _ o h

    remote_end-Keeps : (key : Option String) → r.remote_public ≡ key → Keeps (remote_end r key)
    remote_end-Keeps none e o h = check_step-Keeps "Setting up remote WG endpoint" false o h
    remote_end-Keeps (some key) e o h =
        key_step-Keeps "Setting up remote WG endpoint" key (λ k. inr (inl (key, e, k))) o h

    local_known-Keeps : (t : Option (Transport F)) → Keeps (local_known r t)
    local_known-Keeps none o h =
        check_step-Keeps "Setting up local WG endpoint" r.is_connected
          (record o { transport_m = register r.wireguard o.transport_m }) h
    local_known-Keeps (some t) o h =
        check_step-Keeps "Setting up local WG endpoint" r.is_connected o h

    set_up_wireguard-Keeps : Keeps (set_up_wireguard r)
    set_up_wireguard-Keeps o h =
        bind-Keeps (key_step r "Generating WireGuard keys" r.local_public o >=> remote_part r)
          (local_end r)
          (bind-Keeps (key_step r "Generating WireGuard keys" r.local_public o) (remote_part r)
            (key_step-Keeps "Generating WireGuard keys" r.local_public inl o h)
            (λ p k.
              remote_end-Keeps r.remote_public refl (record p { remote_iface = r.remote_iface }) k))
          (λ p k. local_known-Keeps (get_transport p.transport_m "wireguard") p k)

    bind-IsEnd :
        (x : Run F) (f : Orchestrator F → Run F)
        → IsKept r connected node x
        → ((o : Orchestrator F) → IsKept r connected node (going o) → IsEnd r connected node (f o))
        → IsEnd r connected node (x >=> f)
    bind-IsEnd (going o) f h k = k o h
    bind-IsEnd (gone_wrong o) f h k = h
    bind-IsEnd panicking f h k = h

  spread_tunnels-Keeps :
      (r : Remote F) (node : String) (o : Orchestrator F)
      → IsKept r true node (going o)
      → IsKept r true node (going (spread_tunnels r o)) × ((spread_tunnels r o).phase ≡ o.phase)
  spread_tunnels-Keeps r node o h = elim (Bool-cases o.cfg.all_tunnels_active) [
    | inl t ↦ rw t ((told o.steps _ (λ e. cc) h.0, h.1, h.2), refl)
    | inr t ↦ rw t ((told o.steps _ (λ e. cc) h.0, h.1, h.2), refl)
  ]

  finish-IsEnd :
      (r : Remote F) (connected : Bool) (node : String) (o : Orchestrator F)
      → IsKept r connected node (going o)
      → IsEnd r connected node (finish r o)
  unfolding set_current
  finish-IsEnd r connected node o h =
      let p = record o { connected = true; phase = multipath_active } in
      let name : String = "Provisioning remote tunnel services" in
      let warned = conclude r name (if r.is_provisioned then ok else warn) (announce r name p) in
      let kept =
        warn_step-Keeps r true node "Provisioning remote tunnel services" r.is_provisioned p
          (h.0, refl, h.2) in
      let q = spread_tunnels r warned in
      let spread = spread_tunnels-Keeps r node warned kept in
      elim (Bool-cases (ltb (len q.local_node_id) 8)) [
        | inl t ↦ rw t (inr (inr (subst (IsShort 8) spread.0.2 (ground (arith, t)))))
        | inr t ↦ rw t (told q.steps _ (λ e. cc) spread.0.0, spread.0.1, spread.1, refl)
      ]

  -- `ConnectToRemote` goes on to its end, returns an error, or panics. At an end without an error
  -- the orchestrator is connected, its phase is multipath and WireGuard is the path in use. After
  -- an error the phase is failed and it is connected just if it was before. In both cases every
  -- step that was announced as running has its result right behind it, if this was so before. A
  -- panic means that the public key made here or there has fewer than 16 bytes, or the name of the
  -- node fewer than 8.
  pub connect_to_remote_lem :
      (r : Remote F) (o : Orchestrator F)
      → AreSettled o.steps
      → IsEnd r o.connected o.local_node_id (connect_to_remote r o)
  unfolding connect_to_remote
  connect_to_remote_lem r o h =
      let c = o.connected in
      let n = o.local_node_id in
      let checked = check_remote r o in
      bind-IsEnd r c n (checked >=> check_resources r >=> install_all r >=> set_up_wireguard r)
        (finish r)
        (bind-Keeps r c n (checked >=> check_resources r >=> install_all r) (set_up_wireguard r)
          (bind-Keeps r c n (checked >=> check_resources r) (install_all r)
            (bind-Keeps r c n checked (check_resources r)
              (check_remote-Keeps r c n o (h, refl, refl)) (check_resources-Keeps r c n))
            (install_all-Keeps r c n))
          (set_up_wireguard-Keeps r c n))
        (finish-IsEnd r c n)
