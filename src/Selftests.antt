-- ===== src/Selftests.antt =====
-- f/selftests: the steps that run the kernel's selftests in a guest.
pub mod Units
pub mod Ktap
mod Tests
