-- ===== src/Manager.antt =====
-- apps/rust-instance-manager: the service that registers instances and ends them.
pub mod Traits
pub mod World
pub mod Relations
pub mod Cascade
pub mod Invariant
pub mod Apply
pub mod Register
pub mod Rpc
pub mod Health
pub mod KillLoop
pub mod Lifetime
pub mod StatusPage
