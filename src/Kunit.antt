-- ===== src/Kunit.antt =====
-- f/kunit: the steps that run KUnit suites in a guest.
pub mod Ktap
mod Tests
