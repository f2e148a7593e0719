-- ===== src/Kernel/Bisect.antt =====
-- f/kernel/bisect_step.py, bisect_judge.py and the loop of bisect.flow.
pub mod Report
pub mod State
pub mod Dicts
pub mod Bringup
pub mod Step
pub mod Loop
pub mod Judge
mod Tests
