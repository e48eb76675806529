-- ===== src/Failover/Switch.antt =====
-- `evaluate`: which callbacks a round starts.
use mathlib.Core.Path.{subst}
use nyxora.Common.{
  ◌≡◌, refl, sym, Bool, true, false, inl, inr, String, List, [], ◌∷◌, map, Bool-cases, Has, here,
  there, Has-split,
}
use nyxora.Failover.{
  TransportStatus, is_healthy_status, is_down_status, TransportState, Failover, Call, on_failover,
  names_with, switch_calls, evaluate,
}

module _ {F : Type 0} where
  -- A transport with a status that passes the test.
  abbrev pub Stands : (TransportStatus → Bool) → List (String × TransportState F) → String → Type 0
  Stands test m name = (s : TransportState F) × Has (name, s) m × (test s.status ≡ true)

  Has-names_with :
      (test : TransportStatus → Bool) (m : List (String × TransportState F)) {name : String}
      → Has name (names_with test m)
      → Stands test m name
  unfolding names_with
  Has-names_with test [] h = elim h [ ]
  Has-names_with test (e ∷ m) {name} h = elim (Bool-cases (test (e.1).status)) [
    | inl t ↦ first t (Has-names_with test m) (rw t at h)
    | inr t ↦ later (Has-names_with test m (rw t at h))
  ]
    where
      later : Stands test m name → Stands test (e ∷ m) name
      later (s, k, p) = (s, there k, p)

      first :
          test (e.1).status ≡ true
          → (Has name (names_with test m) → Stands test m name)
          → Has name (e.0 ∷ names_with test m)
          → Stands test (e ∷ m) name
      first t rest k = elim (Has-split k) [
        | inl q ↦ (e.1, subst (λ n. Has (n, e.1) (e ∷ m)) (sym q) here, t)
        | inr i ↦ later (rest i)
      ]

  names_with-Has :
      (test : TransportStatus → Bool) (m : List (String × TransportState F)) {name : String}
      → Stands test m name
      → Has name (names_with test m)
  unfolding names_with
  names_with-Has test [] (s, h, p) = elim h [ ]
  names_with-Has test (e ∷ m) (s, here, p) = rw p here
  names_with-Has test (e ∷ m) (s, there h, p) = elim (Bool-cases (test (e.1).status)) [
    | inl t ↦ rw t (there (names_with-Has test m (s, h, p)))
    | inr t ↦ rw t (names_with-Has test m (s, h, p))
  ]

-- Every callback of the round is for a name that is down, and switches to one name.
Has-map_failover :
    (h : String) (ds : List String) {c : Call}
    → Has c (map (λ d. on_failover d h) ds)
    → (d : String) × (c ≡ on_failover d h) × Has d ds
Has-map_failover h [] k = elim k [ ]
Has-map_failover h (d ∷ ds) here = (d, refl, here)
Has-map_failover h (d ∷ ds) (there k) = let (x, e, i) = Has-map_failover h ds k in (x, e, there i)

map_failover-Has :
    (h : String) (ds : List String) {d : String}
    → Has d ds
    → Has (on_failover d h) (map (λ x. on_failover x h) ds)
map_failover-Has h [] k = elim k [ ]
map_failover-Has h (d ∷ ds) here = here
map_failover-Has h (d ∷ ds) (there k) = there (map_failover-Has h ds k)

Has-switch_calls :
    (cb : Bool) (ds hs : List String) {c : Call}
    → Has c (switch_calls cb ds hs)
    → (d : String) × (h : String) × (c ≡ on_failover d h) × Has d ds × Has h hs
unfolding switch_calls
Has-switch_calls cb ds [] k = elim k [ ]
Has-switch_calls true ds (h ∷ hs) k = let (d, e, i) = Has-map_failover h ds k in (d, h, e, i, here)
Has-switch_calls false ds (h ∷ hs) k = elim k [ ]

switch_calls-Has :
    (ds hs : List String) {d x : String}
    → Has d ds
    → Has x hs
    → (h : String) × Has (on_failover d h) (switch_calls true ds hs)
unfolding switch_calls
switch_calls-Has ds [] k i = elim i [ ]
switch_calls-Has ds (h ∷ hs) k i = (h, map_failover-Has h ds k)

module _ {F : Type 0} where
  -- A round of `evaluate` calls back only to leave a transport that is down for one that is
  -- healthy, and, if a callback is set and some transport is healthy, it does so for every
  -- transport that is down.
  pub evaluate_switches :
      (f : Failover F)
      → ((c : Call)
          → Has c (evaluate f)
          → (d : String) × (h : String) × (c ≡ on_failover d h)
            × Stands is_down_status f.states d
            × Stands is_healthy_status f.states h)
        × ((d x : String)
            → f.has_on_failover ≡ true
            → Stands is_down_status f.states d
            → Stands is_healthy_status f.states x
            → (h : String) × Has (on_failover d h) (evaluate f))
  unfolding evaluate
  evaluate_switches f = (
    λ c k.
        let (d, h, e, i, j) =
          Has-switch_calls f.has_on_failover (names_with is_down_status f.states)
            (names_with is_healthy_status f.states) k in
        (
          d,
          h,
          e,
          Has-names_with is_down_status f.states i,
          Has-names_with is_healthy_status f.states j,
        ),
    λ d x cb i j. rw cb (
        switch_calls-Has (names_with is_down_status f.states)
          (names_with is_healthy_status f.states) (names_with-Has is_down_status f.states i)
          (names_with-Has is_healthy_status f.states j)),
  )
