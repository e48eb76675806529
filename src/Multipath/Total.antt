-- ===== src/Multipath/Total.antt =====
-- The cached total weight: which operations keep it up to date, and where a total of 0 leads.
use mathlib.Core.Path.{ap₂}
use nyxora.Common.{
  ℕ, ◌≡◌, refl, ap, ◌∙◌, true, false, inl, inr, some, List, [], ◌∷◌, String, str_eq, ◌==◌,
  Bool-cases, length, All, Has, here, there, keep-Has, no_element, ==_iff, done, panic, ◌>>=◌,
}
use nyxora.Common.Words.{add_int}
use nyxora.Common.Float.{Float64}
use nyxora.Common.Assoc.{get, put, modify, values, str_eq_self, get-put}
use nyxora.Multipath.State.{
  DistributionMode, weighted, other, PathState, Scheduler, mode_from_string, mode_string,
}
use nyxora.Multipath.Weights.{active_weight, recalculate}
use nyxora.Multipath.Paths.{set_active, add_path}
use nyxora.Multipath.Pick.{active_paths, select_mode, select_path}

module _ {F : Type 0} where
  -- An inactive path adds nothing to the total.
  active_weight-idle :
      (ps : List (PathState F)) (t : ℕ) → All (λ p. p.active ≡ false) ps → active_weight t ps ≡ t
  unfolding active_weight
  active_weight-idle [] t h = refl
  active_weight-idle (p ∷ ps) t h = rw h.0 (active_weight-idle ps t h.1)

  module _ (name : String) (p : PathState F) (f : PathState F → PathState F)
      (weightless : (f p).weight ≡ 0) (on : (f p).active ≡ true) where
    active_weight-one :
        (m : List (String × PathState F))
        → All (λ q. q.active ≡ false) (values m)
        → (active_weight 0 (values (modify (put m name p) name f)) ≡ 0)
          × Has (f p) (values (modify (put m name p) name f))
    unfolding put modify active_weight add_int
    active_weight-one [] h = rw (str_eq_self name, on, weightless) (refl, here)
    active_weight-one (e ∷ m) h = elim (Bool-cases (str_eq e.0 name)) [
      | inl k ↦ rw (k, k, on, weightless) (active_weight-idle (values m) 0 h.1, here)
      | inr k ↦
          let (total, inside) = active_weight-one m h.1 in rw (k, k, h.0) (total, there inside)
    ]

module _ {F : Type 0} ⦃fl : Float64 F⦄ where
  abbrev unused : String → String → PathState F
  unused name transport = record {
    name = name;
    transport = transport;
    score = fl.of_int 0;
    latency = fl.of_int 0;
    loss = fl.of_int 0;
    weight = 0;
    active = false;
    bandwidth = 0;
  }

  -- The weighted choice with a total of 0 panics as soon as there is an active path.
  select_path-zero :
      (millis nanos : ℕ) (s : Scheduler F) (p : PathState F)
      → s.mode ≡ weighted
      → s.total_weight ≡ 0
      → Has p (values s.paths)
      → p.active ≡ true
      → select_path millis nanos s ≡ panic
  unfolding select_path select_mode
  select_path-zero millis nanos s p e z inside up =
      elim (Bool-cases (length (active_paths s) == 0)) [
        | inl none_up ↦ absurd (
            no_element (active_paths s) ((==_iff _ 0).0 none_up)
              (keep-Has (λ x. x.active) (values s.paths) up inside))
        | inr k ↦ rw k (
            ap (λ o. o >>= λ x. done (some x))
              (ap₂ (λ m t. select_mode m millis nanos t (active_paths s)) e z))
      ]

  -- Where no path is active, adding a path of weight 0 and setting it active makes `SelectPath`
  -- divide by zero in the mode `weighted`, whatever the time.
  pub zero_weight_panics :
      (name transport : String) (millis nanos : ℕ) (s : Scheduler F)
      → s.mode ≡ weighted
      → All (λ p. p.active ≡ false) (values s.paths)
      → select_path millis nanos (set_active name true (add_path name transport 0 s)) ≡ panic
  unfolding set_active add_path recalculate
  zero_weight_panics name transport millis nanos s e idle =
      let new = unused name transport in
      let found : get (put s.paths name new) name ≡ some new =
        get-put s.paths name new name ∙ rw (str_eq_self name) in
      let start = λ (q : PathState F). record q { active = true } in
      let (total, inside) = active_weight-one name new start refl refl s.paths idle in
      rw (found, set_active)
        (select_path-zero millis nanos
          (record s {
            paths = modify (put s.paths name new) name start;
            total_weight = active_weight 0 (values (modify (put s.paths name new) name start));
          })
          (start new) e total inside refl)

-- The name of a mode reads back as that mode; a mode without a name reads back as `weighted`.
mode_from_string-mode_string :
    (m : DistributionMode)
    → mode_from_string (mode_string m) ≡ elim m [ other n ↦ weighted | k ↦ k ]
unfolding mode_from_string mode_string
mode_from_string-mode_string weighted = refl
mode_from_string-mode_string _ = refl
