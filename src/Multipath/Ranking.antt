-- ===== src/Multipath/Ranking.antt =====
-- `BestPath` and `SelectPaths`: the best paths by score.
use nyxora.Common.{
  ℕ, ◌^◌, ◌<◌, ◌≡◌, refl, ap, ◌∙◌, true, false, ◌⊎◌, inl, inr, Option, none, some, List, [], ◌∷◌,
  min, arith, leb, leb→le, leb→gt, if◌then◌else◌, Bool-cases, length, take, keep, All, Has,
  Has-keep, keep-Has, keep_none, Has-take, length-take, All-of, done, panic,
}
use nyxora.Common.Words.{lt_int, lt_int_small, lt_int_negative, is_negative}
use nyxora.Common.Float.{Float64, IsOrdered}
use nyxora.Common.Best.{keep_least, keep_least-Has, keep_least_minimum}
use nyxora.Common.Sort.{
  sort_slice, sort_slice-Has, length-sort_slice, sort_slice-prefix, descending-IsStrictWeak,
}
use nyxora.Common.Assoc.{values}
use nyxora.Multipath.State.{PathState, Scheduler}
use nyxora.Multipath.Pick.{active_paths, by_score, better, best_path, select_paths}

module _ {F : Type 0} ⦃fl : Float64 F⦄ where
  -- Passing over the inactive paths is searching the active ones.
  better-keep :
      (best : Option (PathState F)) (ps : List (PathState F))
      → better best ps ≡ keep_least by_score best (keep (λ p. p.active) ps)
  unfolding better keep_least
  better-keep none [] = refl
  better-keep (some b) [] = refl
  better-keep none (p ∷ ps) = elim (Bool-cases p.active) [
    | inl e ↦ simp e (better-keep (some p) ps)
    | inr e ↦ simp e (better-keep none ps)
  ]
  better-keep (some b) (p ∷ ps) = elim (Bool-cases p.active) [
    | inl e ↦ simp e (better-keep (some (if by_score p b then p else b)) ps)
    | inr e ↦ simp e (better-keep (some b) ps)
  ]

  nonempty_best :
      (ps : List (PathState F))
      → (keep_least by_score none ps ≡ none × (length ps ≡ 0))
        ⊎ ((p : PathState F) × (keep_least by_score none ps ≡ some p) × Has p ps)
  unfolding keep_least
  nonempty_best [] = inl (refl, refl)
  nonempty_best (p ∷ ps) = inr (keep_least-Has by_score p ps)

  -- `BestPath` returns nil exactly if no path is active, and otherwise an active path of the
  -- scheduler whose score no active path exceeds, as long as no score is NaN.
  best_path_lem :
      (ordered : IsOrdered F) (s : Scheduler F)
      → ((best_path s ≡ none) × ((p : PathState F) → Has p (values s.paths) → p.active ≡ false))
        ⊎ ((p : PathState F) × (best_path s ≡ some p)
            × Has p (values s.paths)
            × (p.active ≡ true)
            × ((q : PathState F)
                → Has q (values s.paths)
                → q.active ≡ true
                → fl.lt p.score q.score ≡ false))
  unfolding best_path
  best_path_lem ordered s =
      let e = better-keep none (values s.paths) in
      elim (nonempty_best (active_paths s)) [
        | inl z ↦ inl (e ∙ z.0, λ p h. keep_none (λ x. x.active) (values s.paths) z.1 h)
        | inr (p, f, h) ↦
            let (inside, up) = Has-keep (λ x. x.active) (values s.paths) h in
            inr (
              p,
              e ∙ f,
              inside,
              up,
              λ q k u.
                  keep_least_minimum by_score (descending-IsStrictWeak (λ x. x.score) ordered)
                    (active_paths s) f (keep-Has (λ x. x.active) (values s.paths) u k),
            )
      ]

  -- `SelectPaths(count)` panics if `count` is negative. Otherwise it returns that many active
  -- paths, or all of them if there are fewer, and every active path with a better score than one
  -- of these is among them, as long as no score is NaN.
  select_paths_top :
      (ordered : IsOrdered F) (count : ℕ) (s : Scheduler F)
      → count < 2 ^ 64
      → length (active_paths s) < 2 ^ 63
      → ((is_negative count ≡ true) × (select_paths count s ≡ panic))
        ⊎ ((is_negative count ≡ false)
            × ((top : List (PathState F)) × (select_paths count s ≡ done top)
                × (length top ≡ min count (length (active_paths s)))
                × All (λ p. Has p (active_paths s)) top
                × ((p q : PathState F)
                    → Has p top
                    → Has q (active_paths s)
                    → fl.lt p.score q.score ≡ true
                    → Has q top)))
  unfolding select_paths is_negative
  select_paths_top ordered count s c l = elim (Bool-cases (leb (2 ^ 63) count)) [
    | inl e ↦ inl (
      e,
      rw (
        lt_int_negative (length (active_paths s)) count l (omega (arith, leb→le (2 ^ 63) count e))
            c,
        e,
      ),
    )
    | inr e ↦
        let n = min count (length (active_paths s)) in
        let cut : (if lt_int (length (active_paths s)) count
              then length (active_paths s)
              else count)
            ≡ n =
          rw
            (lt_int_small (length (active_paths s)) count l
              (omega (arith, leb→gt (2 ^ 63) count e)))
            (ground arith) in
        let fits : leb (2 ^ 63) n ≡ false = ground (arith, leb→gt (2 ^ 63) count e) in
        let sorted = sort_slice by_score (active_paths s) in
        inr (
          e,
          (
            take n sorted,
            rw (cut, fits),
            length-take n sorted
                ∙ ap (min n) (length-sort_slice by_score (active_paths s))
                ∙ omega arith,
            All-of _ (take n sorted)
                (λ p h. (sort_slice-Has by_score (active_paths s)).1 (Has-take n sorted h)),
            λ p q h k better.
                sort_slice-prefix by_score (descending-IsStrictWeak (λ x. x.score) ordered) n
                  (active_paths s) h k better,
          ),
        )
  ]
