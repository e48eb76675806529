-- ===== src/Orchestrator/Rounds.antt =====
-- The rounds of `startMonitoring` and the end of the program in internal/orchestrator/lifecycle.go.
-- `Call`s of the failover's callbacks are those of Failover; the one on a recovery only logs.
use nyxora.Common.{
  ℕ, Bool, true, false, not, ◌&&◌, String, str_eq, Option, none, some, List, [], ◌∷◌, if◌then◌else◌,
  Outcome, done, ◌>>=◌,
}
use nyxora.Common.Float.{Float64, float_zero}
use nyxora.Failover.{Failover}
use nyxora.Failover
use nyxora.Monitor
use nyxora.Multipath.Paths.{update_path, record_failover}
use nyxora.Multipath.Pick.{distribution}
use nyxora.Routing
use nyxora.Routing.{PathScore, Engine, set_current, best_path, current, all_paths}
use nyxora.Transport.Manager.{Manager, Info, list, set_weight, disconnect_all}
use nyxora.Orchestrator.State.{Orchestrator}

module _ {F : Type 0} ⦃fl : Float64 F⦄ where
  -- The callback that `Init` gives to `OnFailover`; `now` is the clock of `RecordFailover`.
  unfoldable pub switch_to : String → ℕ → Orchestrator F → Orchestrator F
  switch_to to now o = record o {
    route_engine = set_current to o.route_engine;
    scheduler = record_failover now o.scheduler;
  }

  -- The loop over the transports; `lat` and `loss` are what `Ping` gave, and `clock` the readings
  -- of `Update`.
  unfoldable pub measure : F → F → (String → ℕ) → List (Info F) → Orchestrator F → Orchestrator F
  measure lat loss clock [] o = o
  measure lat loss clock (i ∷ infos) o = measure lat loss clock infos (record o {
    route_engine =
        Routing.update i.name i.kind lat i.jitter loss i.stability i.bandwidth o.route_engine;
    fail = (Failover.update i.name lat loss (clock i.name) o.fail).0;
    scheduler = update_path i.name i.score lat loss i.bandwidth o.scheduler;
  })

  unfoldable pub set_weights : List (String × ℕ) → Manager F → Manager F
  set_weights [] m = m
  set_weights (w ∷ ws) m = set_weights ws (set_weight w.0 w.1 m)

  unfoldable pub spread : Orchestrator F → Orchestrator F
  unfolding set_weights
  spread o =
      if o.cfg.all_tunnels_active
      then record o { transport_m = set_weights (distribution o.scheduler) o.transport_m }
      else o

  unfoldable pub score_in : String → List (PathScore F) → F
  score_in name [] = float_zero
  score_in name (p ∷ ps) =
      let rest = score_in name ps in if str_eq p.name name then p.score else rest

  unfoldable pub get_current_score : String → Orchestrator F → F
  unfolding score_in
  get_current_score name o = score_in name (all_paths o.route_engine)

  -- The callback, if there is one, and then `RecordFailover` of the loop.
  unfoldable pub fail_over : String → ℕ → ℕ → Orchestrator F → Orchestrator F
  unfolding switch_to
  fail_over to called now o =
      let told = if o.fail.has_on_failover then switch_to to called o else o in
      record told { scheduler = record_failover now told.scheduler }

  -- `best != nil && best.Name != current && current != ""`, and `diff > 15`.
  abbrev pub is_better : PathScore F → Orchestrator F → Bool
  is_better best o =
      let name = o.route_engine.current in
      not (str_eq best.name name)
      && not (str_eq name "")
      && fl.lt (fl.of_int 15) (fl.sub best.score (get_current_score name o))

  abbrev pub switch_if_better : Option (PathScore F) → ℕ → ℕ → Orchestrator F → Orchestrator F
  switch_if_better none called now o = o
  switch_if_better (some best) called now o =
      if is_better best o then fail_over best.name called now o else o

  -- `called` and `now` are the clock in the callback and behind it.
  unfoldable pub switch : ℕ → ℕ → Orchestrator F → Orchestrator F
  switch called now o = switch_if_better (best_path o.route_engine) called now o

  -- One round of the loop. The result tells whether it goes on.
  unfoldable pub monitor_round :
      F → F → (String → ℕ) → ℕ → ℕ → Orchestrator F → Orchestrator F × Bool
  unfolding measure spread switch
  monitor_round lat loss clock called now o =
      if not o.running && not o.connected
      then (o, false)
      else (switch called now (spread (measure lat loss clock (list o.transport_m) o)), true)

  -- `Start` up to the wait for a signal; the result tells whether it returned no error.
  unfoldable pub start : Orchestrator F → Orchestrator F × Bool
  start o =
      if o.running
      then (o, false)
      else (record o { running = true; fail = Failover.start o.fail }, true)

  -- The names of the transports that are disconnected come along; tearing down the remote host is
  -- left out.
  unfoldable pub stop : Orchestrator F → Outcome (Orchestrator F × List String)
  stop o =
      if o.running
      then (Failover.stop o.fail >>= λ f. Monitor.stop o.mon >>= λ m.
          let off = disconnect_all o.transport_m in
          done (
            record o { running = false; connected = false; fail = f; mon = m; transport_m = off.0 },
            off.1,
          ))
      else done (o, [])
