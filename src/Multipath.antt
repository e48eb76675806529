-- ===== src/Multipath.antt =====
-- internal/multipath/multipath.go: the scheduler that spreads traffic over paths.
pub mod State
pub mod Weights
pub mod Paths
pub mod Pick
pub mod Normal
pub mod Choice
pub mod Ranking
pub mod Tracked
pub mod Total
pub mod Tests
