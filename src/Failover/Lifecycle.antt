-- ===== src/Failover/Lifecycle.antt =====
-- `Start` and `Stop`.
use nyxora.Common.{◌≡◌, done, panic, arith}
use nyxora.Failover.{Failover, start, stop}

module _ {F : Type 0} where
  -- Stopping again is harmless, but a failover that was stopped cannot be started and stopped once
  -- more: the second `Stop` closes the channel that is closed already, and panics.
  pub stop_after_stop :
      (f g : Failover F) → stop (start f) ≡ done g → (stop g ≡ done g) × (stop (start g) ≡ panic)
  unfolding start stop
  stop_after_stop f g h = ground arith
