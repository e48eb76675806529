-- ===== src/Multipath/Choice.antt =====
-- `SelectPath`: what each mode returns, and when it panics.
use mathlib.Core.Path.{subst}
use mathlib.Core.Option.{some-injective}
use nyxora.Common.{
  ℕ, ◌-◌, ◌^◌, ◌<◌, ◌≡◌, refl, sym, ap, ◌∙◌, Bool, true, false, ◌⊎◌, inl, inr, Option, none, some,
  List, [], ◌∷◌, arith, ◌==◌, ==_iff, Bool-cases, length, get_elem?, get_elem?-lt, get_elem?-Has,
  Has, here, there, Has-keep, keep-Has, keep_none, Outcome, done, panic, ◌>>=◌, at_index, of_option,
}
use nyxora.Common.Words.{add_int, rem_int, rem_int-lt, checked_rem, lt_int}
use nyxora.Common.Float.{Float64, IsOrdered}
use nyxora.Common.Sort.{
  sort_slice, sort_slice-Has, length-sort_slice, sort_slice-first, ascending-IsStrictWeak,
}
use nyxora.Common.Assoc.{values}
use nyxora.Multipath.State.{
  DistributionMode, weighted, lowest_latency, lowest_loss, even, all, other, PathState, Scheduler,
}
use nyxora.Multipath.Pick.{
  active_paths, pick_path, or_last, by_latency, by_loss, select_mode, select_path,
}

-- The modes that fall to the weighted choice.
abbrev pub is_default : DistributionMode → Bool
is_default weighted = true
is_default (other n) = true
is_default _ = false

module _ {F : Type 0} where
  pick_path-Has :
      (r c : ℕ) (ps : List (PathState F)) {p : PathState F} → pick_path r c ps ≡ some p → Has p ps
  unfolding pick_path
  pick_path-Has r c [] e = cc
  pick_path-Has r c (x ∷ ps) e = elim (Bool-cases (lt_int r (add_int c x.weight))) [
    | inl t ↦ subst (λ z. Has z (x ∷ ps)) (some-injective _ _ (rw t at e)) here
    | inr t ↦ there (pick_path-Has r (add_int c x.weight) ps (rw t at e))
  ]

  abbrev Takes : List (PathState F) → Outcome (PathState F) → Type 0
  Takes ps m = (p : PathState F) × (m ≡ done p) × Has p ps

  at_index-Takes : (ps : List (PathState F)) (i : ℕ) → i < length ps → Takes ps (at_index ps i)
  at_index-Takes ps i h = let (p, at) = get_elem?-lt ps i h in (p, rw at, get_elem?-Has ps i at)

  or_last-Takes :
      (ps : List (PathState F)) (o : Option (PathState F))
      → 0 < length ps
      → ((p : PathState F) → o ≡ some p → Has p ps)
      → Takes ps (or_last ps o)
  or_last-Takes ps none h f = at_index-Takes ps (length ps - 1) (omega arith)
  or_last-Takes ps (some p) h f = (p, refl, f p refl)

  sorted-Takes :
      (less : PathState F → PathState F → Bool) (ps : List (PathState F))
      → 0 < length ps
      → Takes ps (at_index (sort_slice less ps) 0)
  sorted-Takes less ps h =
      let (p, e, k) =
        at_index-Takes (sort_slice less ps) 0 (omega (arith, length-sort_slice less ps)) in
      (p, e, (sort_slice-Has less ps).1 k)

  weighted-Takes :
      (nanos total : ℕ) (ps : List (PathState F))
      → 0 < length ps
      → ((total ≡ 0) × ((checked_rem nanos total >>= λ r. or_last ps (pick_path r 0 ps)) ≡ panic))
        ⊎ Takes ps (checked_rem nanos total >>= λ r. or_last ps (pick_path r 0 ps))
  weighted-Takes nanos total ps h = elim (Bool-cases (total == 0)) [
    | inl e ↦ inl ((==_iff total 0).0 e, rw e)
    | inr e ↦ inr (rw e (or_last-Takes ps _ h (λ p. pick_path-Has _ 0 ps)))
  ]

module _ {F : Type 0} ⦃fl : Float64 F⦄ where
  select_mode-Takes :
      (m : DistributionMode) (millis nanos total : ℕ) (ps : List (PathState F))
      → millis < 2 ^ 63
      → 0 < length ps
      → ((is_default m ≡ true) × (total ≡ 0) × (select_mode m millis nanos total ps ≡ panic))
        ⊎ Takes ps (select_mode m millis nanos total ps)
  unfolding select_mode
  select_mode-Takes lowest_latency millis nanos total ps t h = inr (sorted-Takes by_latency ps h)
  select_mode-Takes lowest_loss millis nanos total ps t h = inr (sorted-Takes by_loss ps h)
  select_mode-Takes even millis nanos total ps t h =
      inr (at_index-Takes ps (rem_int millis (length ps)) (rem_int-lt millis (length ps) t h))
  select_mode-Takes all millis nanos total ps t h = inr (at_index-Takes ps 0 h)
  select_mode-Takes weighted millis nanos total ps t h = elim (weighted-Takes nanos total ps h) [
    | inl e ↦ inl (refl, e.0, e.1)
    | inr e ↦ inr e
  ]
  select_mode-Takes (other n) millis nanos total ps t h = elim (weighted-Takes nanos total ps h) [
    | inl e ↦ inl (refl, e.0, e.1)
    | inr e ↦ inr e
  ]

  -- `SelectPath`, at a time after 1970, ends in one of three ways: it returns nil and no path is
  -- active; it returns an active path of the scheduler; or it panics on a division by zero, which
  -- it does only under the weighted choice with a total weight of 0.
  pub select_path_cases :
      (millis nanos : ℕ) (s : Scheduler F)
      → millis < 2 ^ 63
      → (((p : PathState F) → Has p (values s.paths) → p.active ≡ false)
          × (select_path millis nanos s ≡ done none))
        ⊎ (((p : PathState F) × (select_path millis nanos s ≡ done (some p))
              × Has p (values s.paths)
              × (p.active ≡ true))
            ⊎ ((is_default s.mode ≡ true)
                × (s.total_weight ≡ 0)
                × (select_path millis nanos s ≡ panic)))
  unfolding select_path
  select_path_cases millis nanos s t = elim (Bool-cases (length (active_paths s) == 0)) [
    | inl e ↦ inl ((λ p. keep_none (λ x. x.active) (values s.paths) ((==_iff _ 0).0 e)), rw e)
    | inr e ↦
        elim (select_mode-Takes s.mode millis nanos s.total_weight (active_paths s) t
          (ground arith)) [
            | inl (d, z, p) ↦ inr (inr (d, z, rw (e, p)))
            | inr (p, q, h) ↦
                let (inside, up) = Has-keep (λ x. x.active) (values s.paths) h in
                inr (inl (p, rw (e, q), inside, up))
          ]
  ]

  module _ (ordered : IsOrdered F) (millis nanos : ℕ) (s : Scheduler F) {p q : PathState F}
      (h : select_path millis nanos s ≡ done (some p)) (inside : Has q (values s.paths))
      (up : q.active ≡ true) where
    first_of_sorted :
        (m : DistributionMode) (less : PathState F → PathState F → Bool)
        → s.mode ≡ m
        → ((ps : List (PathState F))
            → select_mode m millis nanos s.total_weight ps ≡ at_index (sort_slice less ps) 0)
        → get_elem? (sort_slice less (active_paths s)) 0 ≡ some p
    unfolding select_path
    first_of_sorted m less e f = elim (Bool-cases (length (active_paths s) == 0)) [
      | inl z ↦ absurd (nothing (rw z at h))
      | inr z ↦ unwrap (get_elem? (sort_slice less (active_paths s)) 0) (sort_eq ∙ rw z at h)
    ]
      where
        nothing : ◌≡◌ {A = Outcome (Option (PathState F))} (done none) (done (some p)) → ⊥
        nothing g = ground arith

        unwrap :
            (o : Option (PathState F))
            → (of_option o >>= λ x. done (some x)) ≡ done (some p)
            → o ≡ some p
        unwrap none g = cc
        unwrap (some x) g = ground arith

        sort_eq : (at_index (sort_slice less (active_paths s)) 0 >>= λ x. done (some x)) ≡ (
            select_mode s.mode millis nanos s.total_weight (active_paths s) >>= λ x. done (some x))
        sort_eq =
            ap (λ o. o >>= λ x. done (some x))
              (sym (
                ap (λ k. select_mode k millis nanos s.total_weight (active_paths s)) e
                ∙ f (active_paths s)))

    -- In the mode `lowest-latency` no active path has a lower latency than the one returned, and
    -- in the mode `lowest-loss` no active path has a lower loss, as long as no value is NaN.
    select_path_lowest :
        (s.mode ≡ lowest_latency → fl.lt q.latency p.latency ≡ false)
        × (s.mode ≡ lowest_loss → fl.lt q.loss p.loss ≡ false)
    unfolding select_mode
    select_path_lowest = (
      λ e.
          sort_slice-first by_latency (ascending-IsStrictWeak (λ x. x.latency) ordered)
            (active_paths s) (first_of_sorted lowest_latency by_latency e (λ ps. refl))
            (keep-Has (λ x. x.active) (values s.paths) up inside),
      λ e.
          sort_slice-first by_loss (ascending-IsStrictWeak (λ x. x.loss) ordered) (active_paths s)
            (first_of_sorted lowest_loss by_loss e (λ ps. refl))
            (keep-Has (λ x. x.active) (values s.paths) up inside),
    )
