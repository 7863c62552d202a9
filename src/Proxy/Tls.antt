-- ===== src/Proxy/Tls.antt =====
-- pkg/proxy/tls.go: the certificates, the writer of a tunnelled answer, and HandleConnect.
pub mod Ca
pub mod Conn
pub mod Connect
pub mod Tests
