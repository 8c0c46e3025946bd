-- ===== src/Tests.antt =====
-- The theorems at concrete inputs.
mod Worlds
mod Manager
mod Health
mod Http
mod Client
mod Interleaved
mod StatusPage
mod Handlers
mod Listen
mod Container
mod Leasing
mod Cli
