-- ===== src/Orchestrator.antt =====
-- internal/orchestrator: how the transports, the routing, the failover, the multipath scheduler and
-- the monitor are put together. The dashboard and the package manager are left out, and so are log
-- lines, details and times of the steps. What a remote host answers is an argument.
pub mod State
pub mod Starting
pub mod Rounds
pub mod Connecting
pub mod Registered
pub mod Measured
pub mod Switching
pub mod Connected
pub mod Required
pub mod Tests
