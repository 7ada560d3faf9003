-- ===== src/Examples.antt =====
-- Programs of the repository that use channels, at the level of the messages that they pass.
pub mod Plexer
pub mod Worker
pub mod Jobs
pub mod PingPong
pub mod Prints
pub mod Simple
pub mod Duel
pub mod Dueling
pub mod Arguments
pub mod Scripts
