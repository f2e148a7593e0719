-- ===== src/Common/Worktree.antt =====
-- f/common/worktree.py: the worktrees that the builds and the developers work in.
pub mod Git
pub mod Sync
pub mod Labels
pub mod Publish
mod Tests
