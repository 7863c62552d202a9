-- ===== src/Proxy.antt =====
-- Package proxy: the HTTP handler that records and replays.
pub mod Forward
pub mod Upstream
pub mod Handler
pub mod Middleware
pub mod Tls
pub mod Server
pub mod Tests
