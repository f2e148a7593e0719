-- ===== src/Common/Worktree/Publish.antt =====
-- f/common/worktree.py: `_publish_b4_branch`, which gives an applied series a branch of the Bare. The
-- name of a ref is its code points.
pub mod Moves
mod Tests
use kdevops_ng.Prelude.{
  String, Bool, true, false, Option, none, some, ◌++◌, ◌==◌, ◌!=◌, string_eq, option_eq,
  if◌then◌else◌,
}
use kdevops_ng.Common.Worktree.Git.{or_none}
use kdevops_ng.Common.Worktree.Labels.{Text, codes, b4_slug}

-- What git answers in the worktree, over the states that the Bare can be in.
pub record Refs : Type 1 where
  pub Repo : Type 0
  -- rev-parse HEAD, empty where it fails
  pub rev_parse_head : Repo → String
  -- rev-parse --verify --quiet <ref>, empty where it fails
  pub rev_parse : Repo → Text → String
  -- update-ref <ref> HEAD, and update-ref <ref> HEAD "": done or refused
  pub update_ref : Repo → Text → Bool × Repo
  pub create_ref : Repo → Text → Bool × Repo

-- The branch of a series, its ref, and the ref that keeps a run's commits beside the branch.
abbrev pub branch_of : Text → Text
branch_of b4_series = codes "b4/" ++ b4_slug b4_series

abbrev pub ref_of : Text → Text
ref_of branch = codes "refs/heads/" ++ branch

abbrev pub anchor_of : Text → Text
anchor_of branch = codes "refs/kdevops/" ++ branch

module _ (git : Refs) where
  unfoldable pub anchored : git.Repo → Text → Option Text × git.Repo
  anchored r branch = (none, (git.update_ref r (anchor_of branch)).1)

  unfoldable pub created : git.Repo → Text → Option Text × git.Repo
  created r branch =
      let (done, r') = git.create_ref r (ref_of branch) in
      if done then (some branch, r') else (none, r')

  unfoldable pub publish_branch : Text → git.Repo → Option Text × git.Repo
  publish_branch branch r =
      let existing = git.rev_parse r (ref_of branch) in
      if some existing == or_none (git.rev_parse_head r)
      then (some branch, r)
      else if existing != ""
      then anchored r branch
      else created r branch

  unfoldable pub publish_b4_branch : Text → git.Repo → Option Text × git.Repo
  publish_b4_branch b4_series r = publish_branch (branch_of b4_series) r
