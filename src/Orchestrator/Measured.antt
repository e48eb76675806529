-- ===== src/Orchestrator/Measured.antt =====
-- What a round of `startMonitoring` in internal/orchestrator/lifecycle.go tells the routing and the
-- failover.
use mathlib.Core.Path.{subst}
use nyxora.Common.{
  ℕ, ◌≡◌, refl, sym, ◌∙◌, inl, inr, false, not, ◌&&◌, String, str_eq, Option, none, some, List, [],
  ◌∷◌, All, All-of, All-Has, Bool-cases,
}
use nyxora.Common.Float.{Float64}
use nyxora.Common.Assoc.{get, put, get-put, str_eq_self}
use nyxora.Failover
use nyxora.Failover.{Failover, TransportState}
use nyxora.Routing
use nyxora.Routing.{PathScore, Engine, set_current, best_path}
use nyxora.Transport.Manager.{Info, list}
use nyxora.Orchestrator.State.{Orchestrator}
use nyxora.Orchestrator.Rounds.{
  switch_to, measure, spread, fail_over, is_better, switch_if_better, switch, monitor_round,
}

-- A map has a value with a property under a name.
abbrev pub HasAt : {V : Type 0} → (V → Type 0) → String → List (String × V) → Type 0
HasAt {V = V} P name m = (v : V) × (get m name ≡ some v) × P v

HasAt-put :
    {V : Type 0} (P : V → Type 0) (name other : String) (v : V) (m : List (String × V))
    → P v
    → HasAt P name m
    → HasAt P name (put m other v)
HasAt-put P name other v m h k = elim (Bool-cases (str_eq other name)) [
  | inl t ↦ (v, get-put m other v name ∙ rw t refl, h)
  | inr t ↦ (k.0, get-put m other v name ∙ rw t k.1, k.2)
]

HasAt-put_self :
    {V : Type 0} (P : V → Type 0) (name : String) (v : V) (m : List (String × V))
    → P v
    → HasAt P name (put m name v)
HasAt-put_self P name v m h = (v, get-put m name v name ∙ rw (str_eq_self name) refl, h)

module _ {F : Type 0} ⦃fl : Float64 F⦄ where
  -- The routing and the failover know the latency and the loss of a transport.
  abbrev pub IsMeasured : F → F → Orchestrator F → String → Type 0
  IsMeasured lat loss o name =
      HasAt (λ p. (p.latency ≡ lat) × (p.loss ≡ loss)) name o.route_engine.paths
      × HasAt (λ s. (s.latency ≡ lat) × (s.packet_loss ≡ loss)) name o.fail.states

  assess-IsSeen :
      (t : Failover.Threshold F) (lat loss : F) (now : ℕ) (s : TransportState F)
      → ((Failover.assess t lat loss now s).latency ≡ lat)
        × ((Failover.assess t lat loss now s).packet_loss ≡ loss)
  unfolding Failover.assess
  assess-IsSeen t lat loss now s = elim (Bool-cases (Failover.is_good t lat loss)) [
    | inl g ↦ elim (Bool-cases (Failover.is_healthy_status s.status)) [
      | inl k ↦ rw (g, k) (refl, refl)
      | inr k ↦ rw (g, k) (refl, refl)
    ]
    | inr g ↦ elim (Bool-cases (Failover.is_bad t lat loss)) [
      | inl k ↦ rw (g, k) (refl, refl)
      | inr k ↦ rw (g, k) (refl, refl)
    ]
  ]

  -- What the loop does for one transport.
  abbrev measured_one : F → F → (String → ℕ) → Info F → Orchestrator F → Orchestrator F
  measured_one lat loss clock i o = measure lat loss clock (i ∷ []) o

  measure-cons :
      (lat loss : F) (clock : String → ℕ) (i : Info F) (infos : List (Info F)) (o : Orchestrator F)
      → measure lat loss clock (i ∷ infos) o
        ≡ measure lat loss clock infos (measured_one lat loss clock i o)
  unfolding measure
  measure-cons lat loss clock i infos o = refl

  module _ (lat loss : F) (clock : String → ℕ) where
    measured_one-IsMeasured :
        (i : Info F) (o : Orchestrator F)
        → IsMeasured lat loss (measured_one lat loss clock i o) i.name
    unfolding measure Routing.update Failover.update
    measured_one-IsMeasured i o = (
      HasAt-put_self (λ p. (p.latency ≡ lat) × (p.loss ≡ loss)) i.name _ o.route_engine.paths
          (refl, refl),
      HasAt-put_self (λ s. (s.latency ≡ lat) × (s.packet_loss ≡ loss)) i.name _ o.fail.states
          (assess-IsSeen o.fail.threshold lat loss (clock i.name)
            (Failover.known (get o.fail.states i.name) i.name)),
    )

    measured_one-keeps :
        (i : Info F) (o : Orchestrator F) (name : String)
        → IsMeasured lat loss o name
        → IsMeasured lat loss (measured_one lat loss clock i o) name
    unfolding measure Routing.update Failover.update
    measured_one-keeps i o name h = (
      HasAt-put (λ p. (p.latency ≡ lat) × (p.loss ≡ loss)) name i.name _ o.route_engine.paths
          (refl, refl) h.0,
      HasAt-put (λ s. (s.latency ≡ lat) × (s.packet_loss ≡ loss)) name i.name _ o.fail.states
          (assess-IsSeen o.fail.threshold lat loss (clock i.name)
            (Failover.known (get o.fail.states i.name) i.name))
          h.1,
    )

    measure-keeps :
        (infos : List (Info F)) (o : Orchestrator F) (name : String)
        → IsMeasured lat loss o name
        → IsMeasured lat loss (measure lat loss clock infos o) name
    unfolding measure
    measure-keeps [] o name h = h
    measure-keeps (i ∷ infos) o name h =
        measure-keeps infos (measured_one lat loss clock i o) name (measured_one-keeps i o name h)

    measure-IsMeasured :
        (infos : List (Info F)) (o : Orchestrator F)
        → All (λ i. IsMeasured lat loss (measure lat loss clock infos o) i.name) infos
    unfolding measure
    measure-IsMeasured [] o = tt
    measure-IsMeasured (i ∷ infos) o =
        let one = measured_one lat loss clock i o in
        (measure-keeps infos one i.name (measured_one-IsMeasured i o), measure-IsMeasured infos one)

  -- The end of a round leaves the paths and the states of the failover alone.
  switch-keeps :
      (called now : ℕ) (o : Orchestrator F)
      → ((switch called now o).route_engine.paths ≡ o.route_engine.paths)
        × ((switch called now o).fail.states ≡ o.fail.states)
  unfolding switch fail_over switch_to set_current
  switch-keeps called now o = from (best_path o.route_engine)
    where
      told :
          (to : String)
          → ((fail_over to called now o).route_engine.paths ≡ o.route_engine.paths)
            × ((fail_over to called now o).fail.states ≡ o.fail.states)
      told to = elim (Bool-cases o.fail.has_on_failover) [
        | inl t ↦ rw t (refl, refl)
        | inr t ↦ rw t (refl, refl)
      ]

      from :
          (b : Option (PathScore F))
          → ((switch_if_better b called now o).route_engine.paths ≡ o.route_engine.paths)
            × ((switch_if_better b called now o).fail.states ≡ o.fail.states)
      from none = (refl, refl)
      from (some best) = elim (Bool-cases (is_better best o)) [
        | inl t ↦ rw t (told best.name)
        | inr t ↦ rw t (refl, refl)
      ]

  spread-keeps :
      (o : Orchestrator F)
      → ((spread o).route_engine.paths ≡ o.route_engine.paths)
        × ((spread o).fail.states ≡ o.fail.states)
  unfolding spread
  spread-keeps o = elim (Bool-cases o.cfg.all_tunnels_active) [
    | inl t ↦ rw t (refl, refl)
    | inr t ↦ rw t (refl, refl)
  ]

  -- After a round of an orchestrator that runs or is connected, the routing has a path and the
  -- failover a state for every transport that the manager lists, both with the latency and the loss
  -- of the round's ping, whatever was known before and whatever the check at the end does.
  pub monitor_round-IsMeasured :
      (lat loss : F) (clock : String → ℕ) (called now : ℕ) (o : Orchestrator F)
      → (not o.running && not o.connected) ≡ false
      → All
          (λ i. IsMeasured lat loss (monitor_round lat loss clock called now o).0 i.name)
          (list o.transport_m)
  unfolding monitor_round
  monitor_round-IsMeasured lat loss clock called now o h =
      let seen = measure lat loss clock (list o.transport_m) o in
      let kept = switch-keeps called now (spread seen) in
      let spread_kept = spread-keeps seen in
      rw h (
        All-of (λ i. IsMeasured lat loss (switch called now (spread seen)) i.name)
          (list o.transport_m)
          (λ i k.
            let m =
              All-Has (λ j. IsMeasured lat loss seen j.name) (list o.transport_m)
                (measure-IsMeasured lat loss clock (list o.transport_m) o) k in
            (
              subst (HasAt (λ p. (p.latency ≡ lat) × (p.loss ≡ loss)) i.name)
                  (sym (kept.0 ∙ spread_kept.0)) m.0,
              subst (HasAt (λ s. (s.latency ≡ lat) × (s.packet_loss ≡ loss)) i.name)
                  (sym (kept.1 ∙ spread_kept.1)) m.1,
            )))
