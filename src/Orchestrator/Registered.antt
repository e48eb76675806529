-- ===== src/Orchestrator/Registered.antt =====
-- The transports that `Init` of internal/orchestrator/orchestrator.go registers.
use mathlib.Core.Path.{subst}
use nyxora.Common.{
  ℕ, ◌&&◌, ◌||◌, ◌≡◌, ◌↔◌, ◌⊎◌, refl, ap, ◌∙◌, inl, inr, Bool, true, false, String, str_eq, eq_iff,
  Option, none, some, List, [], ◌∷◌, map, arith, All-Has, Has, here, there, Has-split, Bool-cases,
}
use nyxora.Common.Float.{Float64}
use nyxora.Common.Assoc.{get, put, get-put, name_eq}
use nyxora.Config.Settings.{Config, validate, get_effective_transports}
use nyxora.Config.Valid.{registered, validate-IsRegistered}
use nyxora.Transport.Registry.{list_tunnels}
use nyxora.Transport.Base.{new_base}
use nyxora.Transport.Manager.{
  Manager, Transport, register, get_transport, flag, or_false, new_manager,
}
use nyxora.Orchestrator.State.{new}
use nyxora.Orchestrator.Starting.{
  new_transports, answers, enable_all, register_enabled, init, new_wireguard, new_openvpn, new_ssh,
  new_quic, new_frp, new_rathole, new_ipsec, new_shadowsocks, new_hysteria, new_backhaul, new_tcp,
  new_websocket,
}

abbrev member : String → List String → Bool
member name [] = false
member name (n ∷ names) = str_eq n name || member name names

member_iff : (name : String) (names : List String) → (member name names ≡ true) ↔ Has name names
member_iff name [] = ((λ h. absurd (ground arith)), (λ h. elim h [ ]))
member_iff name (n ∷ names) = elim (Bool-cases (str_eq n name)) [
  | inl t ↦ ((λ h. subst (λ x. Has x (n ∷ names)) (name_eq n name t) here), (λ h. rw t refl))
  | inr t ↦ rw t (
    (λ h. there ((member_iff name names).0 h)),
    (λ h. (member_iff name names).1 (tail t (Has-split h))),
  )
]
  where
    tail : str_eq n name ≡ false → (name ≡ n) ⊎ Has name names → Has name names
    tail t (inl e) = absurd (ground (arith, eq_iff n name))
    tail t (inr h) = h

abbrev is_some : {A : Type 0} → Option A → Bool
is_some none = false
is_some (some a) = true

-- A name is enabled if it is in the list, or was enabled before.
flag-enable_all :
    (names : List String) (enabled : List (String × Bool)) (name : String)
    → flag (enable_all names enabled) name ≡ (member name names || flag enabled name)
unfolding enable_all
flag-enable_all [] enabled name = refl
flag-enable_all (n ∷ names) enabled name =
    flag-enable_all names (put enabled n true) name
    ∙ ap (λ o. member name names || or_false o) (get-put enabled n true name)
    ∙ elim (Bool-cases (str_eq n name)) [ inl t ↦ rw t (ground arith) | inr t ↦ rw t refl ]

flag_none : (name : String) → flag [] name ≡ false
unfolding get
flag_none name = refl

-- The manager knows the name.
abbrev pub has_transport : {F : Type 0} → String → Manager F → Bool
has_transport name m = is_some (get_transport m name)

has_transport-new_manager :
    (F : Type 0) (all_active : Bool) (name : String)
    → has_transport name (new_manager {F = F} all_active) ≡ false
unfolding new_manager get_transport get
has_transport-new_manager F all_active name = refl

or_falses : (r m f h : Bool) → f ≡ false → h ≡ false → ((r && (m || f)) || h) ≡ (r && m)
or_falses r m f h k l = ground arith

module _ {F : Type 0} ⦃fl : Float64 F⦄ where
  has_transport-register :
      (name : String) (t : Transport F) (m : Manager F)
      → has_transport name (register t m) ≡ (str_eq t.name name || has_transport name m)
  unfolding register get_transport
  has_transport-register name t m = ap is_some (get-put m.transports t.name t name) ∙ ground arith

  has_transport-register_enabled :
      (enabled : List (String × Bool)) (name : String) (ts : List (Transport F)) (m : Manager F)
      → has_transport name (register_enabled enabled ts m)
        ≡ ((member name (map (λ t. t.name) ts) && flag enabled name) || has_transport name m)
  unfolding register_enabled
  has_transport-register_enabled enabled name [] m = refl
  has_transport-register_enabled enabled name (t ∷ ts) m = ground (
    arith,
    eq_iff t.name name,
    ap (flag enabled),
    has_transport-register name t m,
    has_transport-register_enabled enabled name ts (register t m),
    has_transport-register_enabled enabled name ts m,
  )

  -- The names of the new transports are those of the registry.
  names_lem :
      (score : String → F) → map (λ t. t.name) (map (answers score) new_transports) ≡ registered
  unfolding list_tunnels new_transports new_base new_wireguard new_openvpn new_ssh new_quic new_frp
      new_rathole new_ipsec new_shadowsocks new_hysteria new_backhaul new_tcp new_websocket
  names_lem score = refl

  has_transport-init :
      (c : Config) (node_id : String) (now : ℕ) (score : String → F) (name : String)
      → has_transport name (init score true (new node_id now c)).0.transport_m
        ≡ (member name registered && member name (get_effective_transports c))
  unfolding init new
  has_transport-init c node_id now score name =
      let enabled = enable_all (get_effective_transports c) [] in
      let m = new_manager c.all_tunnels_active in
      has_transport-register_enabled enabled name (map (answers score) new_transports) m
      ∙ ap (λ ns. (member name ns && flag enabled name) || has_transport name m) (names_lem score)
      ∙ ap (λ b. (member name registered && b) || has_transport name m)
          (flag-enable_all (get_effective_transports c) [] name)
      ∙ or_falses (member name registered) (member name (get_effective_transports c)) (flag [] name)
          (has_transport name m) (flag_none name)
          (has_transport-new_manager F c.all_tunnels_active name)

  -- After `New` and an `Init` without an error, the manager has exactly the transports that a
  -- configuration which `Validate` accepts selects, by its list or by its mode.
  pub init_iff :
      (c : Config) (node_id : String) (now : ℕ) (score : String → F) (name : String)
      → validate c ≡ none
      → (has_transport name (init score true (new node_id now c)).0.transport_m ≡ true)
        ↔ Has name (get_effective_transports c)
  init_iff c node_id now score name h =
      let all = has_transport-init c node_id now score name in
      let selected = member_iff name (get_effective_transports c) in
      (
        (λ k. selected.0 (ground (arith, all))),
        (λ k.
            let is_known = (member_iff name registered).1 (
              All-Has (λ t. Has t registered) (get_effective_transports c)
                (validate-IsRegistered c h) k) in
            ground (arith, all, selected.1 k, is_known)),
      )
