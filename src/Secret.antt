-- ===== src/Secret.antt =====
-- internal/secret/rotation.go. Strings that the code takes apart are bytes; a map is a list, in the
-- order in which a `range` comes by its entries. The bytes that `rand.Read` gives and the readings
-- of the clock are arguments.
pub mod Files
pub mod Rotation
pub mod Saved
pub mod Aged
pub mod Tests
