-- ===== src/Gateway.antt =====
-- apps/rust-shared/src/socket_gateway: the HTTP proxy that stands before each browser.
pub mod Http
pub mod Rewrite
pub mod Listen
