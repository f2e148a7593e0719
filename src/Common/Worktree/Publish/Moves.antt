-- ===== src/Common/Worktree/Publish/Moves.antt =====
-- What publishing a series leaves of the Bare's refs.
use mathlib.Core.Option.{some-injective}
use kdevops_ng.Prelude.{
  String, ◌≡◌, ◌≢◌, refl, ap, ◌⊎◌, inl, inr, true, false, Option, none, some, ◌==◌, ◌!=◌, string_eq,
  option_eq, Bool-cases, if-lem, eq_of_test, eq_of_same, ne_of_same,
}
use kdevops_ng.Common.Worktree.Git.{or_none}
use kdevops_ng.Common.Worktree.Labels.{Text}
use kdevops_ng.Common.Worktree.Publish.{
  Refs, branch_of, ref_of, anchor_of, anchored, created, publish_branch, publish_b4_branch,
}

-- What git documents of update-ref.
pub record Laws (git : Refs) : Type 1 where
  -- A ref that is set is at HEAD, which is a commit; another that is refused leaves all as it was.
  pub update_ref_at :
      (r : git.Repo) (ref : Text)
      → (git.update_ref r ref).0 ≡ true
      → git.rev_parse (git.update_ref r ref).1 ref ≡ git.rev_parse_head r
  pub update_ref_refused :
      (r : git.Repo) (ref : Text) → (git.update_ref r ref).0 ≡ false → (git.update_ref r ref).1 ≡ r
  -- A ref of refs/kdevops is none of refs/heads.
  pub update_ref_branches :
      (r : git.Repo) (name branch : Text)
      → git.rev_parse (git.update_ref r (anchor_of name)).1 (ref_of branch)
        ≡ git.rev_parse r (ref_of branch)
  pub create_ref_at :
      (r : git.Repo) (ref : Text)
      → (git.create_ref r ref).0 ≡ true
      → (git.rev_parse (git.create_ref r ref).1 ref ≡ git.rev_parse_head r)
        × (git.rev_parse_head r ≢ "")
  pub create_ref_refused :
      (r : git.Repo) (ref : Text) → (git.create_ref r ref).0 ≡ false → (git.create_ref r ref).1 ≡ r

some-or_none : (s h : String) → some s ≡ or_none h → (s ≡ h) × (h ≢ "")
some-or_none s h =
    if-lem (λ o. some s ≡ o → (s ≡ h) × (h ≢ "")) (h == "") none (some h) (λ nothing e. cc)
      (λ filled e. (some-injective s h e, ne_of_same h "" filled))

module _ (git : Refs) (laws : Laws git) where
  -- With a name: the branch is at HEAD, where it was before or where there was none. Without one: the
  -- branch is where it was, and HEAD is kept by the anchor, or nothing has changed.
  abbrev pub Published : Text → git.Repo → Option Text × git.Repo → Type 0
  Published branch r (some name, r') =
      (name ≡ branch)
      × (git.rev_parse r' (ref_of branch) ≡ git.rev_parse_head r)
      × (git.rev_parse_head r ≢ "")
      × ((git.rev_parse r (ref_of branch) ≡ git.rev_parse_head r)
          ⊎ (git.rev_parse r (ref_of branch) ≡ ""))
  Published branch r (none, r') =
      (git.rev_parse r' (ref_of branch) ≡ git.rev_parse r (ref_of branch))
      × ((git.rev_parse r' (anchor_of branch) ≡ git.rev_parse_head r) ⊎ (r' ≡ r))

  anchored-Published : (branch : Text) (r : git.Repo) → Published branch r (anchored git r branch)
  unfolding anchored
  anchored-Published branch r =
      let kept = Bool-cases (git.update_ref r (anchor_of branch)).0 in
      (
        laws.update_ref_branches r branch branch,
        elim kept [
          | inl done ↦ inl (laws.update_ref_at r (anchor_of branch) done)
          | inr refused ↦ inr (laws.update_ref_refused r (anchor_of branch) refused)
        ],
      )

  created-Published :
      (branch : Text) (r : git.Repo)
      → git.rev_parse r (ref_of branch) ≡ ""
      → Published branch r (created git r branch)
  unfolding created
  created-Published branch r none_yet =
      let (done, r') = git.create_ref r (ref_of branch) in
      if-lem (λ out. Published branch r out) done (some branch, r') (none, r')
        (λ did.
          let (at, real) = laws.create_ref_at r (ref_of branch) did in
          (refl, at, real, inr none_yet))
        (λ refused.
          let same = laws.create_ref_refused r (ref_of branch) refused in
          (ap (λ s. git.rev_parse s (ref_of branch)) same, inr same))

  already-Published :
      (branch : Text) (r : git.Repo)
      → some (git.rev_parse r (ref_of branch)) ≡ or_none (git.rev_parse_head r)
      → Published branch r (some branch, r)
  already-Published branch r same =
      let (at, real) = some-or_none (git.rev_parse r (ref_of branch)) (git.rev_parse_head r) same in
      (refl, at, real, inl at)

  publish_branch-Published :
      (branch : Text) (r : git.Repo) → Published branch r (publish_branch git branch r)
  unfolding publish_branch
  publish_branch-Published branch r =
      let existing = git.rev_parse r (ref_of branch) in
      if-lem (λ out. Published branch r out) (some existing == or_none (git.rev_parse_head r)) _ _
        (λ same. already-Published branch r (eq_of_same _ _ same))
        (λ other.
          if-lem (λ out. Published branch r out) (existing != "") _ _
            (λ there. anchored-Published branch r)
            (λ missing. created-Published branch r (eq_of_test existing "" missing)))

  -- Where git's commands do what it documents of them, publishing a series under its branch never
  -- moves a branch that was there. With a name that is returned, it is the series', its branch is at
  -- HEAD, a commit, and was there before or did not exist. With none, the branch is as it was, and
  -- this run's HEAD is kept under refs/kdevops or nothing has changed.
  pub publish_b4_branch-Published :
      (b4_series : Text) (r : git.Repo)
      → Published (branch_of b4_series) r (publish_b4_branch git b4_series r)
  unfolding publish_b4_branch
  publish_b4_branch-Published b4_series r = publish_branch-Published (branch_of b4_series) r
