-- ===== src/TestSupport.antt =====
-- crates/test-support: the Postgres container and the application that the integration tests of
-- crates/integration-tests start and stop.
pub mod Harness
pub mod TestApp
mod Tests
