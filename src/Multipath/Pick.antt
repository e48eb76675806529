-- ===== src/Multipath/Pick.antt =====
-- The operations that read the scheduler: selection, ranking and summaries.
use nyxora.Common.{
  ℕ, ◌-◌, Bool, String, Option, none, some, List, [], ◌∷◌, ◌==◌, if◌then◌else◌, length, take, keep,
  Outcome, done, panic, ◌>>=◌, at_index,
}
use nyxora.Common.Words.{add_int, rem_int, checked_rem, lt_int, is_negative}
use nyxora.Common.Float.{Float64, float_zero}
use nyxora.Common.Sort.{sort_slice}
use nyxora.Common.Assoc.{values, put}
use nyxora.Multipath.State.{
  DistributionMode, lowest_latency, lowest_loss, even, all, PathState, Stats, Scheduler,
}

module _ {F : Type 0} where
  abbrev pub active_paths : Scheduler F → List (PathState F)
  active_paths s = keep (λ p. p.active) (values s.paths)

  -- The loop `cumulative += Weight; if r < cumulative { return p }`.
  unfoldable pub pick_path : ℕ → ℕ → List (PathState F) → Option (PathState F)
  pick_path r cumulative [] = none
  pick_path r cumulative (p ∷ ps) =
      let next = add_int cumulative p.weight in
      let rest = pick_path r next ps in if lt_int r next then some p else rest

  abbrev pub or_last : List (PathState F) → Option (PathState F) → Outcome (PathState F)
  or_last ps none = at_index ps (length ps - 1)
  or_last ps (some p) = done p

  unfoldable pub collect : List (String × ℕ) → List (PathState F) → List (String × ℕ)
  collect result [] = result
  collect result (p ∷ ps) = collect (if p.active then put result p.name p.weight else result) ps

  unfoldable pub distribution : Scheduler F → List (String × ℕ)
  unfolding collect
  distribution s = collect [] (values s.paths)

  unfoldable pub sum_bandwidth : ℕ → List (PathState F) → ℕ
  sum_bandwidth total [] = total
  sum_bandwidth total (p ∷ ps) =
      sum_bandwidth (if p.active then add_int total p.bandwidth else total) ps

  unfoldable pub aggregate_bandwidth : Scheduler F → ℕ
  unfolding sum_bandwidth
  aggregate_bandwidth s = sum_bandwidth 0 (values s.paths)

module _ {F : Type 0} ⦃fl : Float64 F⦄ where
  abbrev pub by_latency : PathState F → PathState F → Bool
  by_latency p q = fl.lt p.latency q.latency

  abbrev pub by_loss : PathState F → PathState F → Bool
  by_loss p q = fl.lt p.loss q.loss

  abbrev pub by_score : PathState F → PathState F → Bool
  by_score p q = fl.lt q.score p.score

  -- The `switch` of `SelectPath`; the last clause is `default`. `millis` and `nanos` are the clock.
  unfoldable pub select_mode :
      DistributionMode → ℕ → ℕ → ℕ → List (PathState F) → Outcome (PathState F)
  select_mode lowest_latency millis nanos total ps = at_index (sort_slice by_latency ps) 0
  select_mode lowest_loss millis nanos total ps = at_index (sort_slice by_loss ps) 0
  select_mode even millis nanos total ps = at_index ps (rem_int millis (length ps))
  select_mode all millis nanos total ps = at_index ps 0
  select_mode _ millis nanos total ps =
      checked_rem nanos total >>= λ r. or_last ps (pick_path r 0 ps)

  unfoldable pub select_path : ℕ → ℕ → Scheduler F → Outcome (Option (PathState F))
  select_path millis nanos s =
      let ps = active_paths s in
      if length ps == 0
      then done none
      else select_mode s.mode millis nanos s.total_weight ps >>= λ p. done (some p)

  unfoldable pub select_paths : ℕ → Scheduler F → Outcome (List (PathState F))
  select_paths count s =
      let ps = active_paths s in
      let n = if lt_int (length ps) count then length ps else count in
      if is_negative n then panic else done (take n (sort_slice by_score ps))

  unfoldable pub better : Option (PathState F) → List (PathState F) → Option (PathState F)
  better best [] = best
  better none (p ∷ ps) = better (if p.active then some p else none) ps
  better (some best) (p ∷ ps) =
      better (some (if p.active then (if by_score p best then p else best) else best)) ps

  unfoldable pub best_path : Scheduler F → Option (PathState F)
  best_path s = better none (values s.paths)

  unfoldable pub all_paths : Scheduler F → List (PathState F)
  all_paths s = sort_slice by_score (values s.paths)

  -- The loop of `Stats`: the number of active paths, and the name of the best score above 0.
  unfoldable pub summarise : ℕ → String → F → List (PathState F) → ℕ × String
  summarise active best_name best_score [] = (active, best_name)
  summarise active best_name best_score (p ∷ ps) =
      let higher = fl.lt best_score p.score in
      summarise (if p.active then add_int active 1 else active)
        (if higher then p.name else best_name) (if higher then p.score else best_score) ps

  unfoldable pub stats : String → Scheduler F → Scheduler F × Stats
  stats uptime s =
      let (active, best_name) = summarise 0 "" float_zero (values s.paths) in
      let now = record s.stats { active_paths = active; best_path = best_name; uptime = uptime } in
      (record s { stats = now }, now)
