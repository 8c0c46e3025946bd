-- ===== src/Client.antt =====
-- What the instances do with the manager: keep it informed that they live, and take browsers.
pub mod HeartBeat
pub mod Version
pub mod Cli
pub mod Metrics
pub mod EphemeralProxy
