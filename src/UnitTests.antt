-- ===== src/UnitTests.antt =====
-- The unit tests inside the crates, each as a program that panics where an assertion fails, with the
-- fact that it passes on the definitions here.
pub mod Greetings
pub mod Service
pub mod Counting
pub mod Environment
pub mod Responses
