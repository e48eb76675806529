-- ===== src/Multipath/Normal.antt =====
-- The weights after `adjustWeights`.
use mathlib.Core.Path.{subst, ap₂}
use mathlib.Core.Bool.{false≢true}
use nyxora.Common.{
  ℕ, suc, ◌+◌, ◌*◌, ◌^◌, ◌≤◌, ◌<◌, ◌≡◌, refl, sym, ap, ◌∙◌, Bool, true, false, ◌⊎◌, inl, inr, ◌||◌,
  List, [], ◌∷◌, map, arith, lt→ltb, ◌==◌, if◌then◌else◌, Bool-cases, length, length-map, All,
}
use nyxora.Common.Words.{lt_int, add_int_small, mul_int_small, div_int_small, lt_int_small}
use nyxora.Common.Float.{Float64, float_zero}
use native.Mathlib.Decide.{dec_lt}
use nyxora.Common.Shares.{sum, share, sum-share_bounds}
use nyxora.Common.Assoc.{values, update_all, values-update_all}
use nyxora.Multipath.State.{PathState, Scheduler}
use nyxora.Multipath.Weights.{
  active_weight, recalculate, percent, to_percent, clamp_weight, count_scored, total_score, is_zero,
  reweigh, adjust_weights,
}

module _ {F : Type 0} where
  abbrev pub active_weights : List (PathState F) → List ℕ
  active_weights [] = []
  active_weights (p ∷ ps) =
      let rest = active_weights ps in if p.active then p.weight ∷ rest else rest

  pub active_weight-eq-sum :
      (acc : ℕ) (ps : List (PathState F))
      → acc + sum (active_weights ps) < 2 ^ 64
      → active_weight acc ps ≡ acc + sum (active_weights ps)
  unfolding active_weight
  active_weight-eq-sum acc [] h = omega arith
  active_weight-eq-sum acc (p ∷ ps) h = elim (Bool-cases p.active) [
    | inl e ↦
        let k : acc + (p.weight + sum (active_weights ps)) < 2 ^ 64 = rw e at h in
        rw e (
          rw (add_int_small acc p.weight (omega arith))
            (active_weight-eq-sum (acc + p.weight) ps (omega arith) ∙ omega arith))
    | inr e ↦ rw e (active_weight-eq-sum acc ps (rw e at h))
  ]

  -- The weights of a scheduler are percentages that add up to its total.
  pub record IsNormal (s : Scheduler F) : Type 0 where
    pub tracked : s.total_weight ≡ sum (active_weights (values s.paths))
    pub total_le : s.total_weight ≤ 100
    pub total_near : 100 < s.total_weight + length (active_weights (values s.paths))
    pub idle : All (λ p. p.active ≡ false → p.weight ≡ 0) (values s.paths)

abbrev InRange : ℕ → Type 0
InRange w = (5 ≤ w) × (w ≤ 60)

clamp_weight-InRange : (w : ℕ) → w < 2 ^ 64 → InRange (clamp_weight w)
unfolding lt_int
clamp_weight-InRange w h = ground arith

sum-InRange : (ws : List ℕ) → All InRange ws → (sum ws ≤ 60 * length ws) × (5 * length ws ≤ sum ws)
sum-InRange [] h = omega arith
sum-InRange (w ∷ ws) h = omega (arith, sum-InRange ws h.1)

percent-share : (total w : ℕ) → w ≤ 60 → total < 2 ^ 63 → percent total w ≡ share total w
percent-share total w h k =
    rw (mul_int_small w 100 (omega arith)) (div_int_small (w * 100) total (omega arith) k)

map-percent :
    (total : ℕ) (ws : List ℕ)
    → All InRange ws
    → total < 2 ^ 63
    → map (percent total) ws ≡ map (share total) ws
map-percent total [] h k = refl
map-percent total (w ∷ ws) h k =
    ap₂ (λ x xs. x ∷ xs) (percent-share total w h.0.1 k) (map-percent total ws h.1 k)

module _ {F : Type 0} where
  set_percent : ℕ → PathState F → PathState F
  set_percent total p = record p { weight = percent total p.weight }

  active_weights-set_percent :
      (total : ℕ) (ps : List (PathState F))
      → active_weights (map (set_percent total) ps) ≡ map (percent total) (active_weights ps)
  unfolding set_percent
  active_weights-set_percent total [] = refl
  active_weights-set_percent total (p ∷ ps) = elim (Bool-cases p.active) [
    | inl e ↦ rw e (ap (◌∷◌ (percent total p.weight)) (active_weights-set_percent total ps))
    | inr e ↦ rw e (active_weights-set_percent total ps)
  ]

  set_percent-idle :
      (total : ℕ) (ps : List (PathState F))
      → total < 2 ^ 63
      → All (λ p. p.active ≡ false → p.weight ≡ 0) ps
      → All (λ p. p.active ≡ false → p.weight ≡ 0) (map (set_percent total) ps)
  unfolding set_percent
  set_percent-idle total [] k h = tt
  set_percent-idle total (p ∷ ps) k h = (
    λ e. rw (h.0 e) (percent-share total 0 (omega arith) k ∙ omega arith),
    set_percent-idle total ps k h.1,
  )

  length-active_weights-le : (ps : List (PathState F)) → length (active_weights ps) ≤ length ps
  length-active_weights-le [] = omega arith
  length-active_weights-le (p ∷ ps) = ground (arith, length-active_weights-le ps)

module _ {F : Type 0} ⦃fl : Float64 F⦄ where
  reweigh-InRange :
      (a : F) (ps : List (PathState F)) → All InRange (active_weights (map (reweigh a) ps))
  unfolding reweigh
  reweigh-InRange a [] = tt
  reweigh-InRange a (p ∷ ps) = elim (Bool-cases p.active) [
    | inl e ↦ rw e (clamp_weight-InRange _ (omega arith), reweigh-InRange a ps)
    | inr e ↦ rw e (reweigh-InRange a ps)
  ]

  reweigh-idle :
      (a : F) (ps : List (PathState F))
      → All (λ p. p.active ≡ false → p.weight ≡ 0) (map (reweigh a) ps)
  unfolding reweigh
  reweigh-idle a [] = tt
  reweigh-idle a (p ∷ ps) = elim (Bool-cases p.active) [
    | inl e ↦ rw e (λ f. absurd (false≢true (sym f)), reweigh-idle a ps)
    | inr e ↦ rw e (λ f. refl, reweigh-idle a ps)
  ]

  count_scored-active :
      (a : F) (n : ℕ) (ps : List (PathState F))
      → length (active_weights (map (reweigh a) ps)) ≡ 0
      → count_scored n ps ≡ n
  unfolding count_scored reweigh
  count_scored-active a n [] h = refl
  count_scored-active a n (p ∷ ps) h = elim (Bool-cases p.active) [
    | inl e ↦ absurd (none_left (rw e at h))
    | inr e ↦ rw e (count_scored-active a n ps (rw e at h))
  ]
    where
      none_left : suc (length (active_weights (map (reweigh a) ps))) ≡ 0 → ⊥
      none_left q = omega arith

module _ {F : Type 0} (s : Scheduler F)
    (tracked : s.total_weight ≡ sum (active_weights (values s.paths)))
    (range : All InRange (active_weights (values s.paths)))
    (idle : All (λ p. p.active ≡ false → p.weight ≡ 0) (values s.paths))
    (some_active : 0 < length (active_weights (values s.paths)))
    (few : length (active_weights (values s.paths)) < 2 ^ 50) where
  to_percent-IsNormal : IsNormal (recalculate (to_percent s))
  unfolding recalculate to_percent set_percent
  to_percent-IsNormal =
      let total = s.total_weight in
      let ws = active_weights (values s.paths) in
      let small : total < 2 ^ 63 = omega (arith, sum-InRange ws range) in
      let positive : 0 < sum ws = omega (arith, sum-InRange ws range) in
      let new = update_all (set_percent total) s.paths in
      let states : values new ≡ map (set_percent total) (values s.paths) =
        values-update_all _ s.paths in
      let shares : active_weights (values new) ≡ map (share (sum ws)) ws =
        ap active_weights states
        ∙ active_weights-set_percent total (values s.paths)
        ∙ map-percent total ws range small
        ∙ ap (λ t. map (share t) ws) tracked in
      let (upper, lower) = sum-share_bounds ws positive in
      let bounded : sum (active_weights (values new)) ≤ 100 = omega (arith, ap sum shares) in
      let total' : active_weight 0 (values new) ≡ sum (active_weights (values new)) =
        active_weight-eq-sum 0 (values new) (omega arith) ∙ omega arith in
      rw (lt_int_small 0 total (omega arith) small, lt→ltb 0 total (omega arith))
        (record {
          tracked = total';
          total_le = omega arith;
          total_near = omega (
            arith,
            lower,
            total',
            ap sum shares,
            ap length shares,
            length-map {0, 0} (share (sum ws)) ws,
          );
          idle =
              subst (All (λ p. p.active ≡ false → p.weight ≡ 0)) (sym states)
                (set_percent-idle total (values s.paths) small idle);
        })

module _ {F : Type 0} ⦃fl : Float64 F⦄ (s : Scheduler F) (average : F)
    (few : length (values s.paths) < 2 ^ 50)
    (scored : (count_scored 0 (values s.paths) == 0) ≡ false) where
  reweigh_all-IsNormal : IsNormal (
      recalculate
        (to_percent (recalculate (record s { paths = update_all (reweigh average) s.paths }))))
  unfolding recalculate
  reweigh_all-IsNormal =
      let old = values s.paths in
      let new = values (update_all (reweigh average) s.paths) in
      let states : new ≡ map (reweigh average) old = values-update_all (reweigh average) s.paths in
      let range : All InRange (active_weights new) =
        subst (λ ps. All InRange (active_weights ps)) (sym states) (reweigh-InRange average old) in
      let idle : All (λ p. p.active ≡ false → p.weight ≡ 0) new =
        subst (All (λ p. p.active ≡ false → p.weight ≡ 0)) (sym states)
          (reweigh-idle average old) in
      let short : length (active_weights new) < 2 ^ 50 = omega (
        arith,
        length-active_weights-le new,
        ap length states,
        length-map {0, 0} (reweigh average) old,
      ) in
      let busy : 0 < length (active_weights new) = elim (dec_lt 0 (length (active_weights new))) [
        | yes p ↦ p
        | no p ↦
            let nobody : length (active_weights (map (reweigh average) old)) ≡ 0 =
              omega (arith, ap (λ ps. length (active_weights ps)) states) in
            absurd (
              false≢true (sym scored ∙ ap (λ n. n == 0) (count_scored-active average 0 old nobody)))
      ] in
      to_percent-IsNormal
        (record s {
          paths = update_all (reweigh average) s.paths;
          total_weight = active_weight 0 new;
        })
        (active_weight-eq-sum 0 new (omega (arith, sum-InRange (active_weights new) range))
          ∙ omega arith)
        range idle busy short

Or-false : (a b : Bool) → (a || b) ≡ false → a ≡ false
Or-false a b h = ground arith

module _ {F : Type 0} ⦃fl : Float64 F⦄ where
  -- `adjustWeights` does nothing if no path is active with a score above 0 (or these scores add up
  -- to 0). Otherwise the weights of the active paths become percentages: they add up to the total,
  -- which is at most 100 and falls short of it by less than the number of active paths, and an
  -- inactive path has the weight 0. There are fewer than 2 ^ 50 paths.
  pub adjust_weights-IsNormal :
      (s : Scheduler F)
      → length (values s.paths) < 2 ^ 50
      → let idle =
          count_scored 0 (values s.paths) == 0
          || is_zero (total_score float_zero (values s.paths)) in
        ((idle ≡ true) × (adjust_weights s ≡ s)) ⊎ ((idle ≡ false) × IsNormal (adjust_weights s))
  unfolding adjust_weights
  adjust_weights-IsNormal s few =
      let scores = values s.paths in
      let stop = count_scored 0 scores == 0 || is_zero (total_score float_zero scores) in
      elim (Bool-cases stop) [
        | inl e ↦ inl (e, rw e)
        | inr e ↦ inr (
          e,
          rw e (
              reweigh_all-IsNormal s
                (fl.div (total_score float_zero scores) (fl.of_int (count_scored 0 scores))) few
                (Or-false _ _ e)),
        )
      ]
