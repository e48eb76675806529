-- ===== src/Config.antt =====
-- internal/config: the modes of a server, the checks of a configuration, its loading, and the
-- watcher of its file. What the code reads from the system, the environment, the files and the JSON
-- decoder are arguments.
pub mod Memory
pub mod Modes
pub mod Settings
pub mod Loading
pub mod Watching
pub mod Detected
pub mod Valid
pub mod Loaded
pub mod Watched
pub mod Tests
