-- ===== src/Common/Worktree/Sync.antt =====
-- f/common/worktree.py: `_sync`, which brings a developer's worktree onto a commit or says why it was
-- left alone, and the probes that it reads.
pub mod Carries
pub mod Keeps
use kdevops_ng.Prelude.{
  String, ◌<>◌, Bool, true, false, ◌&&◌, ◌||◌, not, Option, none, some, List, [], ◌∷◌, ◌==◌, ◌!=◌,
  string_eq, option_eq, if◌then◌else◌,
}
use kdevops_ng.Prelude.Words.{split_lines}
use kdevops_ng.Common.Worktree.Git.{Git, or_none, partition, after_prefix}

-- Why a worktree was left alone.
pub data Reason : Type 0 where
  not_a_worktree unknown_orphans orphans not_removed : Reason
  busy : String → Reason
  not_added : String → Reason
  on_branch : String → Option String → Reason
  no_fast_forward : Option String → Reason

-- The markers of an operation in flight that are single files, in the order they are looked for.
abbrev pub markers : List (String × String)
markers =
    ("CHERRY_PICK_HEAD", "cherry-pick")
    ∷ ("REVERT_HEAD", "revert")
    ∷ ("MERGE_HEAD", "merge")
    ∷ ("BISECT_LOG", "bisect")
    ∷ []

module _ (git : Git) where
  unfoldable pub occupied : git.Repo → Bool
  occupied r =
      if not (git.exists r) then false else if not (git.is_dir r) then true else git.has_entry r

  unfoldable pub is_worktree_of : git.Repo → Bool
  is_worktree_of r =
      let common = git.common_dir r in
      if common == "" then false else git.resolve common == git.resolve git.bare

  unfoldable pub marked : git.Repo → List (String × String) → Option String
  marked r [] = none
  marked r ((marker, name) ∷ rest) =
      let later = marked r rest in if git.marker r marker then some name else later

  unfoldable pub in_progress : git.Repo → Option String
  in_progress r =
      if git.git_dir r == ""
      then none
      else if git.marker_dir r "rebase-apply"
      then some (if git.marker r "rebase-apply/applying" then "git am" else "rebase")
      else if git.marker_dir r "rebase-merge"
      then some "rebase"
      else marked r markers

  unfoldable pub head : git.Repo → Option String
  head r = or_none (git.rev_parse_head r)

  unfoldable pub attached_branch : git.Repo → String
  attached_branch r = after_prefix "refs/heads/" (git.symbolic_head r)

  -- The first line of the branch at the target decides.
  unfoldable pub attachable_from : String → String → List String → String
  attachable_from ref target [] = ""
  attachable_from ref target (line ∷ lines) =
      let rest = attachable_from ref target lines in
      let named = partition line in
      let held = partition named.1 in
      if named.0 != "refs/heads/" <> ref || held.0 != target
      then rest
      else if held.1 != "" && git.resolve held.1 != git.resolve git.bare
      then ""
      else ref

  unfoldable pub attachable_branch : git.Repo → String → String → String
  attachable_branch r ref target = attachable_from ref target (split_lines (git.for_each_ref r ref))

  -- The reason and the commit that are returned, and the state that is left.
  pub record Synced : Type 0 where
    pub reason : Option Reason
    pub commit : Option String
    pub repo : git.Repo

  abbrev pub declined : Reason → git.Repo → Synced
  declined why r = record { reason = some why; commit = head r; repo = r }

  abbrev pub carried : git.Repo → Synced
  carried r = record { reason = none; commit = head r; repo = r }

  unfoldable pub removed : git.Repo → Option Reason × git.Repo
  removed r = let (gone, r') = git.remove r in if gone then (none, r') else (some not_removed, r')

  unfoldable pub remove_worktree : git.Repo → Option Reason × git.Repo
  remove_worktree r = elim (head r) [
    | none ↦ removed r
    | some commit ↦ elim (git.rev_list r commit) [
      | none ↦ (some unknown_orphans, r)
      | some orphaned ↦ if orphaned != "" then (some orphans, r) else removed r
    ]
  ]

  abbrev pub added : String → Bool × git.Repo → Synced
  added place (true, r) = carried r
  added place (false, r) = record { reason = some (not_added place); commit = none; repo = r }

  unfoldable pub add_worktree : String → String → git.Repo → Synced
  add_worktree ref target r =
      let branch = attachable_branch r ref target in
      if branch != ""
      then added branch (git.add_branch r branch)
      else added target (git.add_detached r target)

  -- What `merge` reports is not read: the verdict is HEAD.
  unfoldable pub fast_forward : String → git.Repo → Synced
  fast_forward target r =
      let merged = (git.merge_ff_only r target).1 in
      if head merged != some target
      then declined (no_fast_forward (head r)) merged
      else carried merged

  -- A checkout that fails leaves the tree detached where it was.
  unfoldable pub reattach : String → String → git.Repo → Synced
  reattach ref target r =
      let branch = attachable_branch r ref target in
      if branch == ""
      then carried r
      else record { reason = none; commit = head r; repo = (git.checkout r branch).1 }

  unfoldable pub settle : String → String → git.Repo → Synced
  settle ref target r =
      let attached = attached_branch r in
      if head r != some target
      then (if attached != ""
          then declined (on_branch attached (head r)) r
          else fast_forward target r)
      else if attached != ""
      then carried r
      else reattach ref target r

  unfoldable pub lay : String → String → git.Repo → Synced
  lay ref target r = if not (occupied r) then add_worktree ref target r else settle ref target r

  unfoldable pub recreate : String → String → Option Reason × git.Repo → Synced
  recreate ref target (some why, r) = declined why r
  recreate ref target (none, r) = lay ref target r

  unfoldable pub sync : String → String → Bool → git.Repo → Synced
  sync ref target recreate_worktree r =
      if not (occupied r)
      then lay ref target r
      else if not (is_worktree_of r)
      then declined not_a_worktree r
      else elim (in_progress r) [
        | some operation ↦ declined (busy operation) r
        | none ↦
            if recreate_worktree then recreate ref target (remove_worktree r) else lay ref target r
      ]
