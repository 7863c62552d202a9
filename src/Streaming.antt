-- ===== src/Streaming.antt =====
-- Package streaming: recording a server-sent event stream while it passes, and replaying it.
pub mod Lines
pub mod Recorder
pub mod Replayer
pub mod RoundTrip
pub mod Tests
