-- ===== src/Common/Worktree/Git.antt =====
-- `git` and the file system, as f/common/worktree.py calls them: for one Bare and one worktree, over
-- the states that the two can be in. A text that git prints is stripped, and empty where the command
-- fails under `check=False`.
pub mod Laws
use kdevops_ng.Prelude.{
  String, ◌<>◌, Bool, true, false, Option, none, some, List, [], ◌∷◌, ◌==◌, string_eq, starts_with,
  if◌then◌else◌,
}
use kdevops_ng.Prelude.Words.{split_at}

pub record Git : Type 1 where
  pub Repo : Type 0
  -- `Path.resolve` of the Bare, and of a path as seen from the worktree.
  pub bare : String
  pub resolve : String → String
  -- The worktree's path: whether it exists, is a directory, and has an entry.
  pub exists : Repo → Bool
  pub is_dir : Repo → Bool
  pub has_entry : Repo → Bool
  -- rev-parse --git-common-dir, --git-dir, HEAD and --symbolic-full-name HEAD in the worktree
  pub common_dir : Repo → String
  pub git_dir : Repo → String
  pub rev_parse_head : Repo → String
  pub symbolic_head : Repo → String
  -- Whether the git-dir has a directory, or an entry, of the name.
  pub marker_dir : Repo → String → Bool
  pub marker : Repo → String → Bool
  -- rev-parse --verify --quiet <name> in the Bare
  pub rev_parse : Repo → String → String
  -- for-each-ref refs/heads/<ref>: refname|objectname|worktreepath
  pub for_each_ref : Repo → String → String
  -- rev-list --max-count=1 <head> --not <every ref>, none where it fails
  pub rev_list : Repo → String → Option String
  -- worktree remove, worktree add <branch>, worktree add --detach <commit>: done or refused
  pub remove : Repo → Bool × Repo
  pub add_branch : Repo → String → Bool × Repo
  pub add_detached : Repo → String → Bool × Repo
  -- merge --ff-only <commit> and checkout <branch> in the worktree
  pub merge_ff_only : Repo → String → Bool × Repo
  pub checkout : Repo → String → Bool × Repo

-- `text or None`
abbrev pub or_none : String → Option String
or_none text = if text == "" then none else some text

-- `line.partition(sep)`, without the separator.
abbrev parts_of : String → Option (String × String) → String × String
parts_of line none = (line, "")
parts_of line (some parts) = parts

unfoldable pub partition : String → String × String
partition line = parts_of line (split_at b'|' line)

-- The text after a prefix of ours, empty where the text does not begin with it.
unfoldable pub after_prefix : String → String → String
after_prefix String.[] text = text
after_prefix (String.◌∷◌ c prefix) String.[] = ""
after_prefix (String.◌∷◌ c prefix) (String.◌∷◌ d text) =
    let rest = after_prefix prefix text in
    if String.◌∷◌ c String.[] == String.◌∷◌ d String.[] then rest else ""
