-- ===== src/Kernel.antt =====
-- f/kernel: the steps about kernels.
pub mod Bisect
pub mod Checks
pub mod Identity
