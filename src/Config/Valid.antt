-- ===== src/Config/Valid.antt =====
-- What the checks of internal/config/config.go accept.
use mathlib.Core.Path.{subst}
use nyxora.Common.{
  ℕ, ◌≤◌, ◌<◌, ◌^◌, ◌≡◌, ◌≢◌, ◌↔◌, refl, inl, inr, Bool, true, not, String, str_eq, Option, none,
  some, List, [], ◌∷◌, map, if◌then◌else◌, ltb, length, arith, All, Has, here, there, All-of,
  All-Has, Has-split, Bool-cases,
}
use nyxora.Common.Words.{lt_int}
use nyxora.Common.Assoc.{get, name_eq, str_eq_self}
use nyxora.Transport.Registry.{list_tunnels}
use nyxora.Config.Modes.{
  ServerMode, mode_lite, mode_minimal, valid_transport_names, all_transports,
  get_transports_for_mode, is_valid_transport, set_has,
}
use nyxora.Config.Settings.{
  Config, ConfigError, validate_transports, validate_port, used_by, check_overrides,
  validate_port_overrides, get_effective_transports, check_all_overrides, or_else, in_transports,
  validate, refuse_port, refuse_used, unknown_override,
}

-- The names of the registry.
abbrev pub registered : List String
unfolding list_tunnels
registered = map (λ t. t.name) list_tunnels

module _ (name : String) where
  Has-keys :
      (m : List (String × Bool))
      → All (λ e. e.1 ≡ true) m
      → (set_has (get m name) ≡ true) ↔ Has name (map (λ e. e.0) m)
  unfolding get
  Has-keys [] h = ((λ e. absurd (ground arith)), (λ k. elim k [ ]))
  Has-keys (e ∷ m) h = elim (Bool-cases (str_eq e.0 name)) [
    | inl t ↦ (
      (λ q. subst (λ n. Has n (e.0 ∷ map (λ x. x.0) m)) (name_eq e.0 name t) here),
      (λ q. rw t h.0),
    )
    | inr t ↦ rw t (
      (λ q. there ((Has-keys m h.1).0 q)),
      (λ k. elim (Has-split k) [
        | inl q ↦ absurd (ground (arith, str_eq_self name))
        | inr l ↦ (Has-keys m h.1).1 l
      ]),
    )
  ]

is_valid_transport_iff :
    (name : String) → (is_valid_transport name ≡ true) ↔ Has name all_transports
unfolding is_valid_transport
is_valid_transport_iff name = Has-keys name valid_transport_names (
  refl,
  (refl, (refl, (refl, (refl, (refl, (refl, (refl, (refl, (refl, (refl, (refl, tt))))))))))),
)

validate_port_iff :
    (port : ℕ) → port < 2 ^ 64 → (validate_port port ≡ none) ↔ (1 ≤ port × port ≤ 65535)
unfolding validate_port lt_int
validate_port_iff port h = ground arith

-- No port stands twice.
abbrev pub AreDistinct : List (String × ℕ) → Type 0
AreDistinct [] = Unit
AreDistinct (e ∷ m) = All (λ x. x.1 ≢ e.1) m × AreDistinct m

-- A transport that the code knows, with a port of TCP and UDP.
abbrev pub IsOverride : String × ℕ → Type 0
IsOverride e = (is_valid_transport e.0 ≡ true) × (1 ≤ e.1) × (e.1 ≤ 65535)

abbrev AreUnused : List (ℕ × String) → List (String × ℕ) → Type 0
AreUnused used = All (λ e. used_by used e.1 ≡ none)

used_by_iff :
    (used : List (ℕ × String)) (port : ℕ) (name : String) (p : ℕ)
    → (used_by ((port, name) ∷ used) p ≡ none) ↔ ((p ≢ port) × (used_by used p ≡ none))
unfolding used_by
used_by_iff used port name p = ground arith

AreUnused-cons :
    (m : List (String × ℕ)) (used : List (ℕ × String)) (port : ℕ) (name : String)
    → AreUnused ((port, name) ∷ used) m ↔ (All (λ x. x.1 ≢ port) m × AreUnused used m)
AreUnused-cons [] used port name = ground arith
AreUnused-cons (e ∷ m) used port name =
    ground (arith, used_by_iff used port name e.1, AreUnused-cons m used port name)

refusals_iff :
    (valid : Bool) (name : String) (port : ℕ) (bad : Option ConfigError) (used : Option String)
    (rest : Option ConfigError)
    → ((if not valid
          then some (unknown_override name)
          else refuse_port name bad (refuse_used port name used rest))
        ≡ none)
      ↔ ((valid ≡ true) × (bad ≡ none) × (used ≡ none) × (rest ≡ none))
refusals_iff valid name port none none rest = ground arith
refusals_iff valid name port none (some n) rest = ground arith
refusals_iff valid name port (some x) none rest = ground arith
refusals_iff valid name port (some x) (some n) rest = ground arith

check_overrides_iff :
    (m : List (String × ℕ)) (used : List (ℕ × String))
    → All (λ e. e.1 < 2 ^ 64) m
    → (check_overrides used m ≡ none) ↔ (All IsOverride m × AreDistinct m × AreUnused used m)
unfolding check_overrides
check_overrides_iff [] used h = ground arith
check_overrides_iff (e ∷ m) used h =
    let rest = check_overrides ((e.1, e.0) ∷ used) m in
    let refusals =
      refusals_iff (is_valid_transport e.0) e.0 e.1 (validate_port e.1) (used_by used e.1) rest in
    let port = validate_port_iff e.1 h.0 in
    let ih = check_overrides_iff m ((e.1, e.0) ∷ used) h.1 in
    let unused = AreUnused-cons m used e.1 e.0 in
    (
      (λ q.
          let r = refusals.0 q in
          let i = ih.0 r.3 in
          let u = unused.0 i.2 in
          (((r.0, (port.0 r.1).0, (port.0 r.1).1), i.0), (u.0, i.1), (r.2, u.1))),
      (λ q. refusals.1 (
        q.0.0.0,
        port.1 (q.0.0.1, q.0.0.2),
        q.2.0,
        ih.1 (q.0.1, q.1.1, unused.1 (q.1.0, q.2.1)),
      )),
    )

AreUnused-nil : (m : List (String × ℕ)) → AreUnused [] m
unfolding used_by
AreUnused-nil [] = tt
AreUnused-nil (e ∷ m) = (refl, AreUnused-nil m)

-- `ValidatePortOverrides` returns no error just when every name is one of the transports, every
-- port lies between 1 and 65535, and no two names have the same port, whatever the order in which
-- it comes by the entries.
pub validate_port_overrides_iff :
    (m : List (String × ℕ))
    → All (λ e. e.1 < 2 ^ 64) m
    → (validate_port_overrides m ≡ none) ↔ (All IsOverride m × AreDistinct m)
unfolding validate_port_overrides
validate_port_overrides_iff m h =
    let all = check_overrides_iff m [] h in
    ((λ q. ((all.0 q).0, (all.0 q).1)), (λ q. all.1 (q.0, q.1, AreUnused-nil m)))

abbrev AreValid : List String → Type 0
AreValid = All (λ t. is_valid_transport t ≡ true)

validate_transports-AreValid : (ts : List String) → validate_transports ts ≡ none → AreValid ts
unfolding validate_transports
validate_transports-AreValid [] e = tt
validate_transports-AreValid (t ∷ ts) e =
    (ground arith, validate_transports-AreValid ts (ground arith))

get_transports_for_mode-AreValid : (mode : ServerMode) → AreValid (get_transports_for_mode mode)
unfolding get_transports_for_mode is_valid_transport get
get_transports_for_mode-AreValid mode = elim (Bool-cases (str_eq mode mode_lite)) [
  | inl t ↦ rw t (refl, (refl, (refl, (refl, (refl, (refl, tt))))))
  | inr t ↦ elim (Bool-cases (str_eq mode mode_minimal)) [
    | inl u ↦ rw t (rw u (refl, (refl, tt)))
    | inr u ↦ rw t (
        rw u (
          refl,
          (
            refl,
            (refl, (refl, (refl, (refl, (refl, (refl, (refl, (refl, (refl, (refl, tt)))))))))),
          ),
        ))
  ]
]

or_else-none :
    (wrap : ConfigError → ConfigError) (e rest : Option ConfigError)
    → or_else wrap e rest ≡ none
    → e ≡ none
or_else-none wrap none rest h = refl
or_else-none wrap (some e) rest h = absurd (ground arith)

-- The checks behind that of the mode.
abbrev selection : Config → Option ConfigError
selection c =
    let ports = check_all_overrides c.port_overrides in
    if ltb 0 (length c.enabled_transports)
    then or_else in_transports (validate_transports c.enabled_transports) ports
    else ports

unrefused :
    (refused : Bool) (e : ConfigError) (rest : Option ConfigError)
    → (if refused then some e else rest) ≡ none
    → rest ≡ none
unrefused refused e rest h = ground arith

get_effective_transports-AreValid :
    (c : Config) → validate c ≡ none → AreValid (get_effective_transports c)
unfolding validate get_effective_transports
get_effective_transports-AreValid c e =
    let selected : selection c ≡ none = unrefused _ _ _ e in
    elim (Bool-cases (ltb 0 (length c.enabled_transports))) [
      | inl t ↦ rw t (
          validate_transports-AreValid c.enabled_transports (
            or_else-none in_transports _ (check_all_overrides c.port_overrides) (rw t at selected)))
      | inr t ↦ rw t (get_transports_for_mode-AreValid c.mode)
    ]

-- Every transport that a configuration which `Validate` accepts selects, by its list or by its
-- mode, is in the registry of tunnels.
pub validate-IsRegistered :
    (c : Config) → validate c ≡ none → All (λ t. Has t registered) (get_effective_transports c)
unfolding list_tunnels
validate-IsRegistered c e =
    All-of (λ t. Has t registered) (get_effective_transports c)
      (λ t h.
        (is_valid_transport_iff t).0
          (All-Has (λ u. is_valid_transport u ≡ true) _ (get_effective_transports-AreValid c e) h))
