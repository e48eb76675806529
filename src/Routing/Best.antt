-- ===== src/Routing/Best.antt =====
-- internal/routing/engine.go: the best path, and when to leave the current one.
use mathlib.Core.Path.{subst}
use mathlib.Core.Option.{some-injective}
use nyxora.Common.{
  ◌≡◌, refl, sym, ap, ◌∙◌, ◌⊎◌, inl, inr, ◌↔◌, true, false, String, str_eq, Option, none, some,
  List, [], ◌∷◌, arith, Bool-cases, Has, here, there, get_elem?,
}
use nyxora.Common.Float.{Float64, IsOrdered}
use nyxora.Common.Sort.{
  IsStrictWeak, IsSorted, sort_slice, sort_slice-Has, sort_slice-IsSorted, sort_slice-first,
  descending-IsStrictWeak,
}
use nyxora.Common.Best.{keep_least, keep_least-Has, keep_least_minimum}
use nyxora.Common.Assoc.{get, values}
use nyxora.Routing.{
  PathScore, Engine, higher_score, rank, first, best, best_path, all_paths, exceeds, needs_failover,
  needs_failover_from,
}

module _ {ℓ} {V : Type ℓ} where
  pub get-Has : (m : List (String × V)) (k : String) {v : V} → get m k ≡ some v → Has v (values m)
  unfolding get
  get-Has [] k e = absurd (ground arith)
  get-Has (x ∷ m) k {v} e = elim (Bool-cases (str_eq x.0 k)) [
    | inl s ↦ subst (λ z. Has z (x.1 ∷ values m)) (some-injective _ _ (rw s at e)) here
    | inr s ↦ there (get-Has m k (rw s at e))
  ]

module _ {F : Type 0} ⦃fl : Float64 F⦄ where
  falls : IsOrdered F → IsStrictWeak (higher_score {F = F})
  falls ordered = descending-IsStrictWeak (λ (p : PathScore F). p.score) ordered

  keep_least-some :
      (ps : List (PathScore F)) {p : PathScore F}
      → Has p ps
      → (b : PathScore F) × (keep_least higher_score none ps ≡ some b) × Has b ps
  unfolding keep_least
  keep_least-some [] h = elim h [ ]
  keep_least-some (q ∷ ps) h = keep_least-Has higher_score q ps

  -- With paths that have no NaN for a score, BestPath returns a path of the engine as soon as there
  -- is one, and no path has a higher score.
  best_path_highest :
      (ordered : IsOrdered F) (e : Engine F) {p : PathScore F}
      → Has p (values e.paths)
      → (b : PathScore F) × (best_path e ≡ some b)
        × Has b (values e.paths)
        × ((q : PathScore F) → Has q (values e.paths) → fl.lt b.score q.score ≡ false)
  unfolding best_path
  best_path_highest ordered e h =
      let (b, found, i) = keep_least-some (values e.paths) h in
      (b, found, i, λ q k. keep_least_minimum higher_score (falls ordered) (values e.paths) found k)

  -- AllPaths lists exactly the paths of the engine, none before one of a higher score, as long as
  -- no score is NaN.
  all_paths_lem :
      (ordered : IsOrdered F) (e : Engine F) (p : PathScore F)
      → (Has p (values e.paths) ↔ Has p (all_paths e)) × IsSorted higher_score (all_paths e)
  unfolding all_paths rank
  all_paths_lem ordered e p = (
    sort_slice-Has higher_score (values e.paths),
    sort_slice-IsSorted higher_score (falls ordered) _,
  )

  -- NeedsFailover holds exactly if the current name has no path, or some path's score is above
  -- that of the current path by more than the threshold, when subtracting the same score keeps the
  -- order and no score is NaN.
  pub needs_failover_iff :
      (ordered : IsOrdered F)
      (sub_mono : (a b c : F) → fl.le a b ≡ true → fl.le (fl.sub a c) (fl.sub b c) ≡ true)
      (threshold : F) (e : Engine F)
      → (needs_failover threshold e ≡ true) ↔ (
          (get e.paths e.current ≡ none)
          ⊎ ((p : PathScore F) × (q : PathScore F) × (get e.paths e.current ≡ some p)
              × Has q (values e.paths)
              × (fl.lt threshold (fl.sub q.score p.score) ≡ true)))
  unfolding needs_failover
  needs_failover_iff ordered sub_mono threshold e = cases (get e.paths e.current) refl
    where
      Leaves : Option (PathScore F) → Type 0
      Leaves o =
          (o ≡ none)
          ⊎ ((p : PathScore F) × (q : PathScore F) × (o ≡ some p)
              × Has q (values e.paths)
              × (fl.lt threshold (fl.sub q.score p.score) ≡ true))

      open ordered use {lt_not_le, le_trans}

      Above : (p : PathScore F) → Type 0
      Above p =
          (q : PathScore F) × Has q (values e.paths)
          × (fl.lt threshold (fl.sub q.score p.score) ≡ true)

      beaten :
          (p b q : PathScore F)
          → fl.lt b.score q.score ≡ false
          → fl.lt threshold (fl.sub q.score p.score) ≡ true
          → fl.lt threshold (fl.sub b.score p.score) ≡ true
      beaten p b q h k = ground (
        arith,
        lt_not_le b.score q.score,
        sub_mono q.score b.score p.score,
        lt_not_le threshold (fl.sub q.score p.score),
        lt_not_le threshold (fl.sub b.score p.score),
        le_trans (fl.sub q.score p.score) (fl.sub b.score p.score) threshold,
      )

      top :
          (p : PathScore F)
          → get e.paths e.current ≡ some p
          → (exceeds threshold (best_path e) p ≡ true) ↔ Above p
      top p found =
          let (b, chosen, i, most) =
            best_path_highest ordered e (get-Has e.paths e.current found) in
          (
            λ h. (b, i, ap (λ o. exceeds threshold o p) (sym chosen) ∙ h),
            λ h. ap (λ o. exceeds threshold o p) chosen ∙ beaten p b h.0 (most h.0 h.1) h.2,
          )

      cases :
          (o : Option (PathScore F))
          → get e.paths e.current ≡ o
          → (needs_failover_from threshold o e ≡ true) ↔ Leaves o
      cases none found = (λ h. inl refl, λ h. refl)
      cases (some p) found = (
        λ h. let (q, i, l) = (top p found).0 h in inr (p, q, refl, i, l),
        λ h. elim h [
          | inl x ↦ absurd (ground arith)
          | inr (r, q, same, i, l) ↦ (top p found).1 (
            q,
            i,
            subst (λ z. fl.lt threshold (fl.sub q.score z.score) ≡ true)
                (sym (some-injective _ _ same)) l,
          )
        ],
      )

module _ {F : Type 0} ⦃fl : Float64 F⦄ where
  first_lem :
      (ps : List (PathScore F)) {p : PathScore F}
      → Has p ps
      → (b : PathScore F) × (first ps ≡ some b) × Has b ps × (get_elem? ps 0 ≡ some b)
  first_lem [] h = elim h [ ]
  first_lem (q ∷ ps) h = (q, refl, here, refl)

  -- Best of a slice that is not empty is one of its elements, and none has a higher score, as long
  -- as no score is NaN.
  best_lem :
      (ordered : IsOrdered F) (scores : List (PathScore F)) {p : PathScore F}
      → Has p scores
      → (b : PathScore F) × (best scores ≡ some b)
        × Has b scores
        × ((q : PathScore F) → Has q scores → fl.lt b.score q.score ≡ false)
  unfolding best rank
  best_lem ordered [] h = elim h [ ]
  best_lem ordered (q ∷ ps) h =
      let (b, e, i, at_front) =
        first_lem (sort_slice higher_score (q ∷ ps)) ((sort_slice-Has higher_score (q ∷ ps)).0 h) in
      (
        b,
        e,
        (sort_slice-Has higher_score (q ∷ ps)).1 i,
        λ r k. sort_slice-first higher_score (falls ordered) (q ∷ ps) at_front k,
      )
