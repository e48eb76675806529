-- ===== src/Orchestrator/Switching.antt =====
-- What a round of `startMonitoring` in internal/orchestrator/lifecycle.go does to the path in use.
use mathlib.Core.Path.{subst}
use mathlib.Core.Option.{some-injective}
use nyxora.Common.{
  ◌+◌, ◌%◌, ◌^◌, ◌↔◌, sym, List, [], ◌∷◌, str_eq, ℕ, ◌≡◌, ◌≢◌, ◌⊎◌, refl, ap, ◌∙◌, inl, inr, true,
  false, String, Option, none, some, arith, Bool-cases,
}
use nyxora.Common.Float.{Float64, float_zero}
use nyxora.Common.Words.{add_int}
use nyxora.Common.Assoc.{name_ne, name_eq, ne-str_eq, str_eq_self}
use nyxora.Routing.{PathScore, set_current, best_path, all_paths}
use nyxora.Multipath.Paths.{record_failover}
use nyxora.Orchestrator.State.{Orchestrator}
use nyxora.Orchestrator.Rounds.{
  switch_to, score_in, get_current_score, fail_over, is_better, switch_if_better, switch,
}

module _ {F : Type 0} ⦃fl : Float64 F⦄ where
  -- The score of the first path of a name in a list, or 0 if there is none.
  pub data IsScoreIn (name : String) : List (PathScore F) → F → Type 0 where
    missing : IsScoreIn name [] float_zero
    found :
        {p : PathScore F} {ps : List (PathScore F)}
        → p.name ≡ name
        → IsScoreIn name (p ∷ ps) p.score
    behind :
        {p : PathScore F} {ps : List (PathScore F)} {x : F}
        → p.name ≢ name
        → IsScoreIn name ps x
        → IsScoreIn name (p ∷ ps) x

  score_in-IsScoreIn :
      (name : String) (ps : List (PathScore F)) → IsScoreIn name ps (score_in name ps)
  unfolding score_in
  score_in-IsScoreIn name [] = missing
  score_in-IsScoreIn name (p ∷ ps) = elim (Bool-cases (str_eq p.name name)) [
    | inl t ↦ rw t (found (name_eq p.name name t))
    | inr t ↦ rw t (behind (name_ne p.name name t) (score_in-IsScoreIn name ps))
  ]

  -- The best path is not the one in use, and its score is more than 15 points above x.
  abbrev pub IsSwitch : PathScore F → F → Orchestrator F → Type 0
  IsSwitch best x o =
      (best_path o.route_engine ≡ some best)
      × (best.name ≢ o.route_engine.current)
      × (o.route_engine.current ≢ "")
      × (fl.lt (fl.of_int 15) (fl.sub best.score x) ≡ true)

  -- The path is the one in use, two more failovers are counted, the last at a time, and the paths,
  -- the failover and the transports are as they were.
  abbrev pub IsSwitched : PathScore F → ℕ → Orchestrator F → Orchestrator F → Type 0
  IsSwitched best now o after =
      (after.route_engine.current ≡ best.name)
      × (after.route_engine.paths ≡ o.route_engine.paths)
      × (after.scheduler.stats.failover_count ≡ (o.scheduler.stats.failover_count + 2) % 2 ^ 64)
      × (after.scheduler.stats.last_switch ≡ now)
      × (after.scheduler.paths ≡ o.scheduler.paths)
      × (after.fail ≡ o.fail)
      × (after.transport_m ≡ o.transport_m)

  -- The test of the code is the condition for a switch.
  is_better_iff :
      (best : PathScore F) (o : Orchestrator F)
      → best_path o.route_engine ≡ some best
      → (is_better best o ≡ true) ↔ IsSwitch best (get_current_score o.route_engine.current o) o
  is_better_iff best o e = (
    λ t. (
      e,
      name_ne best.name o.route_engine.current (ground arith),
      name_ne o.route_engine.current "" (ground arith),
      ground arith,
    ),
    λ k.
        rw
          (
            ne-str_eq best.name o.route_engine.current k.1,
            ne-str_eq o.route_engine.current "" k.2,
            k.3,
          )
          refl,
  )

  switched :
      (called now : ℕ) (b : Option (PathScore F)) (o : Orchestrator F)
      → o.fail.has_on_failover ≡ true
      → best_path o.route_engine ≡ b
      → let x = get_current_score o.route_engine.current o in
        let after = switch_if_better b called now o in
        ((best : PathScore F) × IsSwitch best x o × IsSwitched best now o after)
        ⊎ (((best : PathScore F) → ¬ IsSwitch best x o) × (after ≡ o))
  unfolding fail_over switch_to record_failover set_current add_int
  switched called now none o h e = inr (λ best k. absurd (ground (arith, e, k.0)), refl)
  switched called now (some best) o h e = elim (Bool-cases (is_better best o)) [
    | inl t ↦ inl (
      best,
      (is_better_iff best o e).0 t,
      rw (t, h) (refl, refl, omega arith, refl, refl, refl, refl),
    )
    | inr t ↦ inr (
      λ other k.
          let same : best ≡ other = some-injective _ _ (sym e ∙ k.0) in
          let yes : is_better best o ≡ true =
            (is_better_iff best o e).1 (
              subst (λ p. IsSwitch p (get_current_score o.route_engine.current o) o) (sym same)
                k) in
          absurd (ground arith),
      rw t refl,
    )
  ]

  -- The check at the end of a round, with the callback of `Init`, switches to the best path exactly
  -- if there is one, it is not the path in use, there is a path in use, and the score of the best
  -- is more than 15 points above that of the path in use, which is 0 if no path has that name.
  -- After a switch the best path is the one in use, the failover count of the scheduler is two
  -- higher, in 64 bits, and the time of the last switch is the second reading of the clock; the
  -- paths of the engine and of the scheduler, the failover and the transports are as they were.
  -- Without a switch nothing changes.
  pub switch_lem :
      (called now : ℕ) (o : Orchestrator F)
      → o.fail.has_on_failover ≡ true
      → let after = switch called now o in
        (x : F) × IsScoreIn o.route_engine.current (all_paths o.route_engine) x
        × (((best : PathScore F) × IsSwitch best x o × IsSwitched best now o after)
            ⊎ (((best : PathScore F) → ¬ IsSwitch best x o) × (after ≡ o)))
  unfolding switch get_current_score
  switch_lem called now o h =
      let name = o.route_engine.current in
      (
        score_in name (all_paths o.route_engine),
        score_in-IsScoreIn name (all_paths o.route_engine),
        switched called now (best_path o.route_engine) o h refl,
      )

  is_better-fail_over :
      (best : PathScore F) (called now : ℕ) (o : Orchestrator F)
      → o.fail.has_on_failover ≡ true
      → is_better best (fail_over best.name called now o) ≡ false
  unfolding fail_over switch_to set_current
  is_better-fail_over best called now o h = rw (h, str_eq_self best.name) refl

  best_path-fail_over :
      (to : String) (called now : ℕ) (o : Orchestrator F)
      → best_path (fail_over to called now o).route_engine ≡ best_path o.route_engine
  unfolding fail_over switch_to set_current best_path
  best_path-fail_over to called now o = elim (Bool-cases o.fail.has_on_failover) [
    | inl t ↦ rw t refl
    | inr t ↦ rw t refl
  ]

  switched_again :
      (called now later last : ℕ) (b : Option (PathScore F)) (o : Orchestrator F)
      → o.fail.has_on_failover ≡ true
      → best_path o.route_engine ≡ b
      → switch later last (switch_if_better b called now o) ≡ switch_if_better b called now o
  unfolding switch
  switched_again called now later last none o h e = ap (λ b. switch_if_better b later last o) e
  switched_again called now later last (some best) o h e = elim (Bool-cases (is_better best o)) [
    | inl t ↦ rw t (
        ap (λ b. switch_if_better b later last (fail_over best.name called now o))
          (best_path-fail_over best.name called now o ∙ e)
        ∙ rw (is_better-fail_over best called now o h) refl)
    | inr t ↦ rw t (ap (λ b. switch_if_better b later last o) e ∙ rw t refl)
  ]

  -- A second check behind the first one changes nothing.
  switch_again :
      (called now later last : ℕ) (o : Orchestrator F)
      → o.fail.has_on_failover ≡ true
      → switch later last (switch called now o) ≡ switch called now o
  unfolding switch
  switch_again called now later last o h =
      switched_again called now later last (best_path o.route_engine) o h refl
