-- ===== src/Multipath/Tracked.antt =====
-- What each operation of the scheduler does to the cached total weight.
use nyxora.Common.{
  ℕ, ◌+◌, ◌%◌, ◌^◌, ◌<◌, arith, none, ◌&&◌, ◌||◌, ◌≡◌, ◌⊎◌, refl, ap, ◌∙◌, Bool, true, false, inl,
  inr, some, List, [], ◌∷◌, String, ◌==◌, Bool-cases, Option-cases,
}
use nyxora.Common.Words.{add_int}
use nyxora.Common.Float.{Float64, float_zero}
use nyxora.Common.Assoc.{get, modify, values, str_eq_self, get-modify}
use nyxora.Multipath.State.{PathState, Scheduler}
use nyxora.Multipath.Weights.{
  active_weight, recalculate, count_scored, total_score, is_zero, adjust_weights,
}
use nyxora.Multipath.Normal.{active_weights}
use nyxora.Common.Shares.{sum}
use nyxora.Multipath.Paths.{set_active, is_weighted, update_path, measured}

module _ {F : Type 0} where
  -- The total is the sum of the weights of the active paths, in 64 bits.
  abbrev pub IsTracked : Scheduler F → Type 0
  IsTracked s = s.total_weight ≡ sum (active_weights (values s.paths)) % 2 ^ 64

  active_weight-sum :
      (acc : ℕ) (ps : List (PathState F))
      → acc < 2 ^ 64
      → active_weight acc ps ≡ (acc + sum (active_weights ps)) % 2 ^ 64
  unfolding active_weight add_int
  active_weight-sum acc [] h = omega arith
  active_weight-sum acc (p ∷ ps) h = elim (Bool-cases p.active) [
    | inl e ↦ rw e (active_weight-sum ((acc + p.weight) % 2 ^ 64) ps (omega arith) ∙ omega arith)
    | inr e ↦ rw e (active_weight-sum acc ps h)
  ]

  pub recalculate-IsTracked : (s : Scheduler F) → IsTracked (recalculate s)
  unfolding recalculate
  recalculate-IsTracked s = active_weight-sum 0 (values s.paths) (omega arith) ∙ omega arith

  pub set_active-IsTracked :
      (name : String) (active : Bool) (s : Scheduler F)
      → IsTracked s
      → IsTracked (set_active name active s)
  unfolding set_active
  set_active-IsTracked name active s t = elim (Option-cases (get s.paths name)) [
    | inl e ↦ rw (e, set_active) t
    | inr (p, e) ↦ rw (e, set_active) (recalculate-IsTracked _)
  ]

module _ {F : Type 0} ⦃fl : Float64 F⦄ where
  -- No path is active with a score above 0, or these scores add up to 0.
  abbrev pub is_unscored : Scheduler F → Bool
  is_unscored s =
      (count_scored 0 (values s.paths) == 0) || is_zero (total_score float_zero (values s.paths))

  adjust_weights-IsTracked :
      (s : Scheduler F)
      → IsTracked (adjust_weights s)
        ⊎ ((adjust_weights s ≡ s) × (is_unscored (adjust_weights s) ≡ true))
  unfolding adjust_weights
  adjust_weights-IsTracked s = elim (Bool-cases (is_unscored s)) [
    | inl e ↦ inr (rw e (refl, e))
    | inr e ↦ inl (rw e (recalculate-IsTracked _))
  ]

  -- What `UpdatePath` does to the total, and outside the mode `weighted` to its path.
  abbrev pub IsUpdate : String → F → F → F → ℕ → Scheduler F → Scheduler F → Type 0
  IsUpdate name score latency loss bandwidth s after =
      ((get s.paths name ≡ none) × (after ≡ s))
      ⊎ ((p : PathState F) × (get s.paths name ≡ some p)
          × (is_weighted s.mode ≡ false)
          × (after.total_weight ≡ s.total_weight)
          × (get after.paths name
              ≡ some (record p {
                score = score;
                latency = latency;
                loss = loss;
                bandwidth = bandwidth;
                active = fl.lt float_zero score && fl.lt loss (fl.of_int 50);
              })))
      ⊎ ((is_weighted s.mode ≡ true)
          × (IsTracked after
              ⊎ ((after.total_weight ≡ s.total_weight) × (is_unscored after ≡ true))))

  pub update_path-IsUpdate :
      (name : String) (score latency loss : F) (bandwidth : ℕ) (s : Scheduler F)
      → IsUpdate name score latency loss bandwidth s
          (update_path name score latency loss bandwidth s)
  unfolding update_path
  update_path-IsUpdate name score latency loss bandwidth s =
      elim (Option-cases (get s.paths name)) [
        | inl e ↦ inl (e, rw (e, update_path))
        | inr (p, e) ↦ elim (Bool-cases (is_weighted s.mode)) [
          | inr m ↦ inr (
              inl (
                p,
                e,
                m,
                rw (e, update_path, m),
                rw (e, update_path, m)
                    (get-modify s.paths name (measured score latency loss bandwidth) name
                      ∙ rw (str_eq_self name, e) refl),
              ))
          | inl w ↦ inr (
              inr (
                w,
                rw (e, update_path, w)
                    (elim (adjust_weights-IsTracked (record s {
                      paths = modify s.paths name (measured score latency loss bandwidth);
                    })) [
                      | inl t ↦ inl t
                      | inr (same, idle) ↦ inr (ap (λ r. r.total_weight) same, idle)
                    ]),
              ))
        ]
      ]
