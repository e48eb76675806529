-- ===== src/Transport/Weights.antt =====
-- `NormalizeWeights` of internal/transport/manager.go: the weights in percent.
use nyxora.Common.{
  ℕ, ◌+◌, ◌*◌, ◌<◌, ◌≤◌, ◌^◌, ◌≡◌, refl, ap, ◌∙◌, String, List, [], ◌∷◌, map, arith, length, ◌==◌,
  if◌then◌else◌,
}
use nyxora.Common.Words.{add_int, mul_int, div_int, add_int_small, mul_int_small, div_int_small}
use nyxora.Common.Assoc.{values, update_all, values-update_all}
use nyxora.Common.Shares.{sum, share, sum-share_bounds}
use nyxora.Transport.Manager.{Manager, normalize_weights, sum_weights}

-- The running total in `int`s is the sum, as long as it is one.
sum_weights_lem :
    (m : List (String × ℕ)) (total : ℕ)
    → total + sum (values m) < 2 ^ 64
    → sum_weights total m ≡ total + sum (values m)
unfolding sum_weights
sum_weights_lem [] total h = omega arith
sum_weights_lem (e ∷ m) total h =
    let step : add_int total e.1 ≡ total + e.1 = add_int_small total e.1 (omega arith) in
    omega (arith, ap (λ t. sum_weights t m) step, sum_weights_lem m (total + e.1) (omega arith))

percent-eq-share :
    (total w : ℕ) → w ≤ total → total * 100 < 2 ^ 63 → div_int (mul_int w 100) total ≡ share total w
percent-eq-share total w h k =
    ap (λ x. div_int x total) (mul_int_small w 100 (omega arith))
    ∙ div_int_small (w * 100) total (omega arith) (omega arith)

map-percent :
    (total : ℕ) (ws : List ℕ)
    → sum ws ≤ total
    → total * 100 < 2 ^ 63
    → map (λ w. div_int (mul_int w 100) total) ws ≡ map (share total) ws
map-percent total [] h k = refl
map-percent total (w ∷ ws) h k =
    ap (λ x. x ∷ map (λ w. div_int (mul_int w 100) total) ws)
      (percent-eq-share total w (omega arith) k)
    ∙ ap (◌∷◌ (share total w)) (map-percent total ws (omega arith) k)

-- The weights that NormalizeWeights leaves, in the same order: each is the old one in percent of
-- the sum, rounded down.
normalize_weights-values :
    {F : Type 0} (m : Manager F)
    → 0 < sum (values m.weights)
    → sum (values m.weights) * 100 < 2 ^ 63
    → values (normalize_weights m).weights ≡ map (share (sum (values m.weights))) (values m.weights)
unfolding normalize_weights
normalize_weights-values m h k =
    let total = sum (values m.weights) in
    let counted : sum_weights 0 m.weights ≡ total =
      omega (arith, sum_weights_lem m.weights 0 (omega arith)) in
    ap
      (λ t.
        values
          (if t == 0 then m else record m {
            weights = update_all (λ w. div_int (mul_int w 100) t) m.weights;
          }).weights)
      counted
    ∙ written total h
    ∙ values-update_all (λ w. div_int (mul_int w 100) total) m.weights
    ∙ map-percent total (values m.weights) (omega arith) k
  where
    written :
        (t : ℕ)
        → 0 < t
        → values
            (if t == 0 then m else record m {
              weights = update_all (λ w. div_int (mul_int w 100) t) m.weights;
            }).weights
          ≡ values (update_all (λ w. div_int (mul_int w 100) t) m.weights)
    written t p = ground arith

-- When the weights add up to something positive that is small enough for `int`, NormalizeWeights
-- replaces each by its percentage of the sum, rounded down, so that the new weights add up to at
-- most 100 and fall short of it by less than the number of weights.
normalize_weights_lem :
    {F : Type 0} (m : Manager F)
    → 0 < sum (values m.weights)
    → sum (values m.weights) * 100 < 2 ^ 63
    → (values (normalize_weights m).weights
        ≡ map (share (sum (values m.weights))) (values m.weights))
      × (sum (values (normalize_weights m).weights) ≤ 100)
      × (100 < sum (values (normalize_weights m).weights) + length (values m.weights))
normalize_weights_lem m h k =
    let e = normalize_weights-values m h k in
    let bounds = sum-share_bounds (values m.weights) h in
    (e, omega (arith, ap sum e, bounds.0), omega (arith, ap sum e, bounds.1))
