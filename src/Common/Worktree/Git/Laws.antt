-- ===== src/Common/Worktree/Git/Laws.antt =====
-- What git documents of the commands that f/common/worktree.py runs on a developer's worktree. The
-- commits are full names, as rev-parse prints them, and the branches exist. A fast-forward to a commit
-- that has just the changes that are staged, after which git status shows none, is left aside.
use kdevops_ng.Prelude.{String, ◌<>◌, ◌≡◌, true, false, some}
use kdevops_ng.Prelude.Lists.{All}
use kdevops_ng.Prelude.Words.{split_lines}
use kdevops_ng.Common.Worktree.Git.{Git, partition}

pub record Laws (git : Git) : Type 1 where
  -- The second commit is the first one or an ancestor of it.
  pub Under : String → String → Type 0
  pub under_nothing : (c : String) → ¬ Under "" c
  -- A branch, a tag, a remote's branch or a ref of refs/kdevops reaches the commit.
  pub OnRef : git.Repo → String → Type 0
  -- A file that git status shows, with its contents.
  pub Work : git.Repo → String → Type 0
  -- An empty place holds no file.
  pub empty_place :
      (r : git.Repo) (w : String) → Work r w → (git.exists r ≡ true) × (git.has_entry r ≡ true)
  -- rev-list prints a commit of the head's, where one is on no ref.
  pub rev_list_lem :
      (r : git.Repo) (h c : String) → git.rev_list r h ≡ some "" → Under h c → OnRef r c
  -- A line of for-each-ref names the branch's tip.
  pub for_each_ref_lem :
      (r : git.Repo) (ref : String)
      → All
          (λ line.
            (partition line).0 ≡ "refs/heads/" <> ref
            → (partition (partition line).1).0 ≡ git.rev_parse r ("refs/heads/" <> ref))
          (split_lines (git.for_each_ref r ref))
  -- Without --force a tree that git status shows a file of is not removed.
  pub remove_clean : (r : git.Repo) (w : String) → (git.remove r).0 ≡ true → ¬ Work r w
  pub remove_refused : (r : git.Repo) → (git.remove r).0 ≡ false → (git.remove r).1 ≡ r
  pub remove_refs : (r : git.Repo) (c : String) → OnRef r c → OnRef (git.remove r).1 c
  -- A new worktree is at the branch's tip, or at the commit.
  pub add_branch_head :
      (r : git.Repo) (b : String)
      → (git.add_branch r b).0 ≡ true
      → git.rev_parse_head (git.add_branch r b).1 ≡ git.rev_parse r ("refs/heads/" <> b)
  pub add_branch_refs : (r : git.Repo) (b c : String) → OnRef r c → OnRef (git.add_branch r b).1 c
  pub add_detached_head :
      (r : git.Repo) (t : String)
      → (git.add_detached r t).0 ≡ true
      → git.rev_parse_head (git.add_detached r t).1 ≡ t
  pub add_detached_refs :
      (r : git.Repo) (t c : String) → OnRef r c → OnRef (git.add_detached r t).1 c
  -- With --ff-only the head moves to a descendant or not at all, and the changed files stay.
  pub merge_head :
      (r : git.Repo) (t h c : String)
      → git.rev_parse_head r ≡ h
      → Under h c
      → Under (git.rev_parse_head (git.merge_ff_only r t).1) c
  pub merge_refs : (r : git.Repo) (t c : String) → OnRef r c → OnRef (git.merge_ff_only r t).1 c
  pub merge_work : (r : git.Repo) (t w : String) → Work r w → Work (git.merge_ff_only r t).1 w
  -- Without --force a checkout is refused or carries the changed files to the branch's tip.
  pub checkout_head :
      (r : git.Repo) (b : String)
      → (git.checkout r b).0 ≡ true
      → git.rev_parse_head (git.checkout r b).1 ≡ git.rev_parse r ("refs/heads/" <> b)
  pub checkout_refused :
      (r : git.Repo) (b : String) → (git.checkout r b).0 ≡ false → (git.checkout r b).1 ≡ r
  pub checkout_refs : (r : git.Repo) (b c : String) → OnRef r c → OnRef (git.checkout r b).1 c
  pub checkout_work : (r : git.Repo) (b w : String) → Work r w → Work (git.checkout r b).1 w
