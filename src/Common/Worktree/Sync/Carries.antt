-- ===== src/Common/Worktree/Sync/Carries.antt =====
-- Where a sync leaves the worktree, and what it reports of it.
use kdevops_ng.Prelude.{
  String, ◌<>◌, ◌≡◌, ◌≢◌, refl, ap, ◌∙◌, ◌⊎◌, inl, inr, Bool, true, false, Option, none, some, List,
  [], ◌∷◌, ◌==◌, ◌!=◌, string_eq, option_eq, arith, Bool-cases, eq_false, if-lem, ne_of_test,
  eq_of_test, ne_of_same,
}
use kdevops_ng.Prelude.Lists.{All}
use kdevops_ng.Prelude.Words.{split_lines}
use kdevops_ng.Common.Worktree.Git.{Git, or_none, partition}
use kdevops_ng.Common.Worktree.Git.Laws.{Laws}
use kdevops_ng.Common.Worktree.Sync.{
  Reason, not_added, no_fast_forward, head, attachable_from, attachable_branch, Synced,
  remove_worktree, add_worktree, added, fast_forward, reattach, settle, lay, recreate, sync,
}

or_none-some : (s : String) → s ≢ "" → or_none s ≡ some s
or_none-some s n = rw (eq_false s "" n) refl

module _ (git : Git) (laws : Laws git) where
  TipOf : git.Repo → String → String → Type 0
  TipOf r ref line =
      (partition line).0 ≡ "refs/heads/" <> ref
      → (partition (partition line).1).0 ≡ git.rev_parse r ("refs/heads/" <> ref)

  attachable_from-tip :
      (r : git.Repo) (ref target : String) (lines : List String)
      → All (TipOf r ref) lines
      → attachable_from git ref target lines ≢ ""
      → (attachable_from git ref target lines ≡ ref)
        × (git.rev_parse r ("refs/heads/" <> ref) ≡ target)
  unfolding attachable_from TipOf
  attachable_from-tip r ref target [] h found = absurd (found refl)
  attachable_from-tip r ref target (line ∷ lines) h found =
      ground (arith, attachable_from-tip r ref target lines h.1, h.0, found)

  -- A branch that can be attached is the ref's, at the target.
  pub attachable_branch-tip :
      (r : git.Repo) (ref target : String)
      → attachable_branch git r ref target ≢ ""
      → git.rev_parse r ("refs/heads/" <> attachable_branch git r ref target) ≡ target
  unfolding attachable_branch TipOf
  attachable_branch-tip r ref target found =
      let (named, tip) =
        attachable_from-tip r ref target (split_lines (git.for_each_ref r ref))
          (laws.for_each_ref_lem r ref) found in
      ap (λ b. git.rev_parse r ("refs/heads/" <> b)) named ∙ tip

  -- What is reported agrees with the tree that is left: with no reason its head is the target, which
  -- is reported; with a reason its head is reported, or nothing where no tree could be added.
  abbrev pub Accounted : String → Synced git → Type 0
  Accounted target s =
      ((s.reason ≡ none) × (s.commit ≡ some target) × (head git s.repo ≡ some target))
      ⊎ ((why : Reason) × (s.reason ≡ some why)
          × ((s.commit ≡ head git s.repo)
              ⊎ ((place : String) × (why ≡ not_added place) × (s.commit ≡ none))))

  head_lem :
      (r : git.Repo) (target : String)
      → target ≢ ""
      → git.rev_parse_head r ≡ target
      → head git r ≡ some target
  unfolding head
  head_lem r target n e = ap or_none e ∙ or_none-some target n

  module _ (ref target : String) (real : target ≢ "") where
    added-Accounted :
        (place : String) (p : Bool × git.Repo)
        → (p.0 ≡ true → git.rev_parse_head p.1 ≡ target)
        → Accounted target (added git place p)
    added-Accounted place (true, r) at =
        let here = head_lem r target real (at refl) in inl (refl, here, here)
    added-Accounted place (false, r) at = inr (not_added place, refl, inr (place, refl, refl))

    add_worktree-Accounted : (r : git.Repo) → Accounted target (add_worktree git ref target r)
    unfolding add_worktree
    add_worktree-Accounted r =
        let branch = attachable_branch git r ref target in
        if-lem (Accounted target) (branch != "") _ _
          (λ on. added-Accounted branch (git.add_branch r branch) (λ done.
            laws.add_branch_head r branch done
            ∙ attachable_branch-tip r ref target (ne_of_test branch "" on)))
          (λ off.
            added-Accounted target (git.add_detached r target)
              (λ done. laws.add_detached_head r target done))

    fast_forward-Accounted : (r : git.Repo) → Accounted target (fast_forward git target r)
    unfolding fast_forward
    fast_forward-Accounted r =
        let merged = (git.merge_ff_only r target).1 in
        if-lem (Accounted target) (head git merged != some target) _ _
          (λ away. inr (no_fast_forward (head git r), refl, inl refl))
          (λ at. let here = eq_of_test (head git merged) (some target) at in inl (refl, here, here))

    checkout-head :
        (r : git.Repo) (branch : String)
        → git.rev_parse r ("refs/heads/" <> branch) ≡ target
        → head git r ≡ some target
        → head git (git.checkout r branch).1 ≡ some target
    checkout-head r branch tip here = elim (Bool-cases (git.checkout r branch).0) [
      | inl done ↦ head_lem _ target real (laws.checkout_head r branch done ∙ tip)
      | inr refused ↦ ap (head git) (laws.checkout_refused r branch refused) ∙ here
    ]

    reattach-Accounted :
        (r : git.Repo) → head git r ≡ some target → Accounted target (reattach git ref target r)
    unfolding reattach
    reattach-Accounted r here =
        let branch = attachable_branch git r ref target in
        if-lem (Accounted target) (branch == "") _ _ (λ gone. inl (refl, here, here))
          (λ found. inl (
            refl,
            here,
            checkout-head r branch (attachable_branch-tip r ref target (ne_of_same branch "" found))
                here,
          ))

    settle-Accounted : (r : git.Repo) → Accounted target (settle git ref target r)
    unfolding settle
    settle-Accounted r = ground (arith, fast_forward-Accounted r, reattach-Accounted r)

    lay-Accounted : (r : git.Repo) → Accounted target (lay git ref target r)
    unfolding lay
    lay-Accounted r = ground (arith, add_worktree-Accounted r, settle-Accounted r)

    recreate-Accounted :
        (p : Option Reason × git.Repo) → Accounted target (recreate git ref target p)
    unfolding recreate
    recreate-Accounted (some why, r) = inr (why, refl, inl refl)
    recreate-Accounted (none, r) = lay-Accounted r

    -- For a target that is a commit, and whatever the tree and the refs are: a sync that gives no
    -- reason leaves the worktree's head at the target and reports the target; one that gives a
    -- reason reports the head of the tree that is left, or nothing where no tree could be added.
    pub sync-Accounted :
        (recreate_worktree : Bool) (r : git.Repo)
        → Accounted target (sync git ref target recreate_worktree r)
    unfolding sync
    sync-Accounted recreate_worktree r =
        ground (arith, lay-Accounted r, recreate-Accounted (remove_worktree git r))
