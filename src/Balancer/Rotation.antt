-- ===== src/Balancer/Rotation.antt =====
-- Fairness: what a run of calls returns under round robin and under weighted round robin.
use nyxora.Common.{
  ℕ, zero, suc, ◌+◌, ◌%◌, ◌^◌, ◌≤◌, ◌<◌, ◌≡◌, refl, sym, ap, ◌∙◌, Option, some, List, [], ◌∷◌, map,
  arith, length, get_elem?, get_elem?-lt, Outcome, done, ◌>>=◌,
}
use mathlib.Core.Path.{ap₂}
use native.Mathlib.Nat.{mod-lt, mod-add-mod, zero-add}
use nyxora.Common.Words.{add_int_small, rem_int_small, lt_int, lt_int_small}
use nyxora.Common.Float.{Float64}
use nyxora.Balancer.{
  Algorithm, round_robin, weighted_round_robin, Backend, Balancer, get_healthy, round_robin_select,
  pick_below, weighted_round_robin_select, select, next,
}
use nyxora.Balancer.Pick.{
  weight_sum, expand, length-expand, total_weight-eq-weight_sum, pick_below-expand,
}
use nyxora.Balancer.Window.{window, window-mod, rotate_left, window_round, window_round_of}
use nyxora.Balancer.Select.{not_empty}

module _ {F : Type 0} where
  pub not_empty_list : (bs : List (Backend F)) → 0 < weight_sum bs → 0 < length bs
  not_empty_list [] h = h
  not_empty_list (b ∷ bs) h = omega arith

  round_robin_step :
      (s : Balancer F) (bs : List (Backend F))
      → 0 < length bs
      → s.current < 2 ^ 63
      → (b : Backend F) × (get_elem? bs (s.current % length bs) ≡ some b)
        × (round_robin_select s bs ≡ done (some b, record s { current = s.current + 1 }))
  unfolding round_robin_select
  round_robin_step s bs h c =
      let (b, at) = get_elem?-lt bs (s.current % length bs) (mod-lt s.current h) in
      (
        b,
        at,
        rw (
          not_empty (length bs) h,
          rem_int_small s.current (length bs) c,
          add_int_small s.current 1 (omega arith),
          at,
        ),
      )

  weighted_step :
      (s : Balancer F) (bs : List (Backend F))
      → 0 < weight_sum bs
      → weight_sum bs < 2 ^ 63
      → s.round_robin < weight_sum bs
      → (b : Backend F) × (get_elem? (expand bs) ((s.round_robin + 1) % weight_sum bs) ≡ some b)
        × (weighted_round_robin_select s bs
            ≡ done (some b, record s { round_robin = (s.round_robin + 1) % weight_sum bs }))
  unfolding weighted_round_robin_select
  weighted_step s bs h w r =
      let turn = (s.round_robin + 1) % weight_sum bs in
      let low : turn < weight_sum bs = mod-lt _ h in
      let (b, at) = get_elem?-lt (expand bs) turn (omega (arith, length-expand bs)) in
      let found : pick_below lt_int turn 0 bs ≡ some b =
        pick_below-expand lt_int lt_int_small turn 0 bs (omega arith) (omega arith) (omega arith)
        ∙ ap (get_elem? (expand bs)) (omega arith)
        ∙ at in
      (
        b,
        at,
        rw (
          total_weight-eq-weight_sum 0 bs (omega arith),
          zero-add,
          add_int_small s.round_robin 1 (omega arith),
          not_empty (length bs) (not_empty_list bs h),
          not_empty (weight_sum bs) h,
          found,
        ),
      )

module _ {F : Type 0} ⦃fl : Float64 F⦄ where
  -- What k calls of `Next` in a row return.
  pub serve : ℕ → ℕ → Balancer F → Outcome (List (Option (Backend F)))
  serve ticks zero s = done []
  serve ticks (suc k) s = next ticks s >>= λ r. serve ticks k r.1 >>= λ rest. done (r.0 ∷ rest)

  next-select :
      (a : Algorithm) (ticks : ℕ) (s : Balancer F)
      → s.algorithm ≡ a
      → 0 < length (get_healthy s.backends)
      → next ticks s ≡ select a ticks s (get_healthy s.backends)
  unfolding next
  next-select a ticks s e h =
      rw (not_empty (length (get_healthy s.backends)) h)
        (ap (λ z. select z ticks s (get_healthy s.backends)) e)

  serve-round_robin :
      (ticks k : ℕ) (s : Balancer F)
      → s.algorithm ≡ round_robin
      → 0 < length (get_healthy s.backends)
      → s.current + k ≤ 2 ^ 63
      → serve ticks k s ≡ done (window (get_healthy s.backends) s.current k)
  unfolding serve select
  serve-round_robin ticks zero s e h c = refl
  serve-round_robin ticks (suc k) s e h c =
      let (b, at, step) = round_robin_step s (get_healthy s.backends) h (omega arith) in
      rw (next-select round_robin ticks s e h ∙ step, at)
        (rw (serve-round_robin ticks k (record s { current = s.current + 1 }) e h (omega arith)))

  serve-weighted :
      (ticks k : ℕ) (s : Balancer F)
      → s.algorithm ≡ weighted_round_robin
      → 0 < weight_sum (get_healthy s.backends)
      → weight_sum (get_healthy s.backends) < 2 ^ 63
      → s.round_robin < weight_sum (get_healthy s.backends)
      → serve ticks k s ≡ done (window (expand (get_healthy s.backends)) (s.round_robin + 1) k)
  unfolding serve select
  serve-weighted ticks zero s e h w r = refl
  serve-weighted ticks (suc k) s e h w r =
      let bs = get_healthy s.backends in
      let turn = (s.round_robin + 1) % weight_sum bs in
      let (b, at, step) = weighted_step s bs h w r in
      let size : length (expand bs) ≡ weight_sum bs = length-expand bs in
      let first : some b ≡ get_elem? (expand bs) ((s.round_robin + 1) % length (expand bs)) =
        sym (ap (λ n. get_elem? (expand bs) ((s.round_robin + 1) % n)) size ∙ at) in
      let others : window (expand bs) (turn + 1) k ≡ window (expand bs) (s.round_robin + 1 + 1) k =
        window-mod (expand bs) (turn + 1) (s.round_robin + 1 + 1) k
          (rw size (mod-add-mod (s.round_robin + 1) (weight_sum bs) 1)) in
      rw (next-select weighted_round_robin ticks s e (not_empty_list bs h) ∙ step) (
        rw (serve-weighted ticks k (record s { round_robin = turn }) e h w (mod-lt _ h))
          (ap done (ap₂ (λ x xs. x ∷ xs) first others)))

  -- Round robin is fair: n calls in a row, for n healthy backends, return every one of them once,
  -- in their order, going on from where the counter stands (as long as the counter does not pass
  -- the largest `int`).
  pub round_robin_fair :
      (ticks : ℕ) (s : Balancer F)
      → s.algorithm ≡ round_robin
      → 0 < length (get_healthy s.backends)
      → s.current + length (get_healthy s.backends) ≤ 2 ^ 63
      → let healthy = get_healthy s.backends in
        serve ticks (length healthy) s
        ≡ done (map some (rotate_left (s.current % length healthy) healthy))
  round_robin_fair ticks s e h c =
      serve-round_robin ticks (length (get_healthy s.backends)) s e h c
      ∙ ap done (window_round (get_healthy s.backends) s.current h)

  -- Weighted round robin is exact: as many calls in a row as the weights of the healthy backends
  -- add up to return every one of them as often as its weight says, going on from where the
  -- counter stands, if that sum is positive and fits an `int` and the counter is below it.
  pub weighted_round_robin_exact :
      (ticks : ℕ) (s : Balancer F)
      → s.algorithm ≡ weighted_round_robin
      → 0 < weight_sum (get_healthy s.backends)
      → weight_sum (get_healthy s.backends) < 2 ^ 63
      → s.round_robin < weight_sum (get_healthy s.backends)
      → let total = weight_sum (get_healthy s.backends) in
        serve ticks total s
        ≡ done
            (map some (rotate_left ((s.round_robin + 1) % total) (expand (get_healthy s.backends))))
  weighted_round_robin_exact ticks s e h w r =
      let bs = get_healthy s.backends in
      serve-weighted ticks (weight_sum bs) s e h w r
      ∙ ap done
          (window_round_of (expand bs) (s.round_robin + 1) (weight_sum bs) (length-expand bs) h)
