-- ===== src/Fstests.antt =====
-- f/fstests: the steps that run xfstests in a guest.
pub mod Args
pub mod Config
pub mod Devices
pub mod Wait
pub mod Xfs
pub mod Xunit
mod Tests
