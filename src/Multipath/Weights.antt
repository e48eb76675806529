-- ===== src/Multipath/Weights.antt =====
-- `recalculate` and `adjustWeights`: the weights of the paths in percent.
use nyxora.Common.{ℕ, Bool, ◌&&◌, ◌||◌, List, [], ◌∷◌, ◌==◌, if◌then◌else◌}
use nyxora.Common.Words.{add_int, mul_int, div_int, lt_int}
use nyxora.Common.Float.{Float64, float_zero, rounded}
use nyxora.Common.Assoc.{values, update_all}
use nyxora.Multipath.State.{PathState, Scheduler}

-- `p.Weight = (p.Weight * 100) / s.totalWeight`
abbrev pub percent : ℕ → ℕ → ℕ
percent total weight = div_int (mul_int weight 100) total

-- A weight is held between 5 and 60.
abbrev pub clamp_weight : ℕ → ℕ
clamp_weight w = let low = if lt_int w 5 then 5 else w in if lt_int 60 low then 60 else low

module _ {F : Type 0} where
  unfoldable pub active_weight : ℕ → List (PathState F) → ℕ
  active_weight total [] = total
  active_weight total (p ∷ ps) =
      active_weight (if p.active then add_int total p.weight else total) ps

  unfoldable pub recalculate : Scheduler F → Scheduler F
  recalculate s = record s { total_weight = active_weight 0 (values s.paths) }

  unfoldable pub to_percent : Scheduler F → Scheduler F
  to_percent s =
      if lt_int 0 s.total_weight
      then record s {
        paths = update_all (λ p. record p { weight = percent s.total_weight p.weight }) s.paths;
      }
      else s

module _ {F : Type 0} ⦃fl : Float64 F⦄ where
  abbrev pub is_scored : PathState F → Bool
  is_scored p = p.active && fl.lt float_zero p.score

  unfoldable pub count_scored : ℕ → List (PathState F) → ℕ
  count_scored n [] = n
  count_scored n (p ∷ ps) = count_scored (if is_scored p then add_int n 1 else n) ps

  unfoldable pub total_score : F → List (PathState F) → F
  total_score t [] = t
  total_score t (p ∷ ps) = total_score (if is_scored p then fl.add t p.score else t) ps

  abbrev pub is_zero : F → Bool
  is_zero x = fl.le x float_zero && fl.le float_zero x

  unfoldable pub reweigh : F → PathState F → PathState F
  reweigh average p =
      if p.active
      then record p {
        weight = clamp_weight (rounded (fl.mul (fl.div p.score average) (fl.of_int 20)));
      }
      else record p { weight = 0 }

  unfoldable pub adjust_weights : Scheduler F → Scheduler F
  adjust_weights s =
      let count = count_scored 0 (values s.paths) in
      let total = total_score float_zero (values s.paths) in
      let average = fl.div total (fl.of_int count) in
      if count == 0 || is_zero total
      then s
      else recalculate
          (to_percent (recalculate (record s { paths = update_all (reweigh average) s.paths })))
