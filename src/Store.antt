-- ===== src/Store.antt =====
-- Package store: cassettes as files, found again through an index.
pub mod Cassette
pub mod Paths
pub mod Serializer
pub mod Backend
pub mod Disk
pub mod Index
pub mod DiskStore
pub mod Tests
pub mod Interface
