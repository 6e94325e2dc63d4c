-- ===== src/Store.antt =====
-- internal/store/store.go.
pub mod Db
pub mod Credits
pub mod People
pub mod Sessions
pub mod Tests
