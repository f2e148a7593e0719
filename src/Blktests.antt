-- ===== src/Blktests.antt =====
-- f/blktests: the steps that run blktests in a guest, a group at a time.
pub mod Wait
pub mod Args
pub mod Results
pub mod Files
mod Tests
