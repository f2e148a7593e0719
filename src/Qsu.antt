-- ===== src/Qsu.antt =====
-- f/qsu: the guests that systemd runs.
pub mod Drives
pub mod Machines
mod Tests
