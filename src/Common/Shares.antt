-- ===== src/Common/Shares.antt =====
-- Shares in percent, each rounded down: they add up to 100 less at most one for each share.
use Prim.Native.Nat.{ℕ, ◌+◌, ◌*◌, ◌/◌, ◌≤◌, ◌<◌}
use mathlib.Core.List.{List, [], ◌∷◌, map}
use native.Mathlib.Omega.{arith}
use native.Mathlib.Nat.{div-add-mod', mod-lt, le_of_mul-le-mul_right, mul-le-mul_right}
use native.Mathlib.Decide.{dec_lt}
use nyxora.Common.Lists.{length}

abbrev pub sum : List ℕ → ℕ
sum [] = 0
sum (x ∷ xs) = x + sum xs

abbrev pub share : ℕ → ℕ → ℕ
share total w = w * 100 / total

module _ (total : ℕ) (positive : 0 < total) where
  sum-share_upper : (ws : List ℕ) → sum (map (share total) ws) * total ≤ sum ws * 100
  sum-share_upper [] = omega arith
  sum-share_upper (w ∷ ws) = omega (arith, sum-share_upper ws, div-add-mod' (w * 100) total)

  sum-share_lower :
      (ws : List ℕ) → sum ws * 100 + length ws ≤ (sum (map (share total) ws) + length ws) * total
  sum-share_lower [] = omega arith
  sum-share_lower (w ∷ ws) =
      omega (arith, sum-share_lower ws, div-add-mod' (w * 100) total, mod-lt (w * 100) positive)

-- The shares of a sum in its own parts.
pub sum-share_bounds :
    (ws : List ℕ)
    → 0 < sum ws
    → (sum (map (share (sum ws)) ws) ≤ 100) × (100 < sum (map (share (sum ws)) ws) + length ws)
sum-share_bounds [] h = elim h [ ]
sum-share_bounds (w ∷ ws) h =
    let total = sum (w ∷ ws) in
    let parts = sum (map (share total) (w ∷ ws)) in
    let n = length (w ∷ ws) in
    let upper : parts * total ≤ 100 * total = omega (arith, sum-share_upper total h (w ∷ ws)) in
    (
      le_of_mul-le-mul_right upper h,
      elim (dec_lt 100 (parts + n)) [
        | yes p ↦ p
        | no p ↦
            let few : (parts + n) * total ≤ 100 * total = mul-le-mul_right total (omega arith) in
            absurd (omega (arith, sum-share_lower total h (w ∷ ws)))
      ],
    )
