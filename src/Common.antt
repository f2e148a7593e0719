-- ===== src/Common.antt =====
-- f/common: what the steps of every flow share.
pub mod Json
pub mod Gitrefs
pub mod Store
pub mod Worktree
