-- ===== src/Transport.antt =====
-- internal/transport: the registry of tunnels, the scores of the transports, and their manager.
pub mod Registry
pub mod Tunnels
pub mod Scoring
pub mod Score
pub mod Base
pub mod Stability
pub mod Manager
pub mod Connect
pub mod Settled
pub mod Active
pub mod Weights
pub mod Vless
pub mod Uuid
pub mod Tests
