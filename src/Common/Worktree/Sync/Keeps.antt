-- ===== src/Common/Worktree/Sync/Keeps.antt =====
-- What a sync leaves of the developer's work.
use mathlib.Core.Path.{subst}
use kdevops_ng.Prelude.{
  String, ◌<>◌, ◌≡◌, refl, sym, ap, ◌∙◌, ◌⊎◌, inl, inr, Bool, true, false, not, Option, none, some,
  ◌==◌, ◌!=◌, string_eq, option_eq, arith, Bool-cases, Option-cases, if-lem, eq_of_test, ne_of_same,
}
use kdevops_ng.Common.Worktree.Git.{Git}
use kdevops_ng.Common.Worktree.Git.Laws.{Laws}
use kdevops_ng.Common.Worktree.Sync.{
  Reason, occupied, is_worktree_of, in_progress, head, attached_branch, attachable_branch, Synced,
  removed, remove_worktree, add_worktree, added, fast_forward, reattach, settle, lay, recreate,
  sync,
}
use kdevops_ng.Common.Worktree.Sync.Carries.{attachable_branch-tip}

module _ (git : Git) (laws : Laws git) where
  -- Nothing is lost between two states: a commit of a ref stays on a ref, a commit of the worktree's
  -- head is on a ref or the head's, and every changed file is there as it was.
  pub record Keeps (r r' : git.Repo) : Type 0 where
    pub refs : (c : String) → laws.OnRef r c → laws.OnRef r' c
    pub commits :
        (c : String)
        → occupied git r ≡ true
        → laws.Under (git.rev_parse_head r) c
        → laws.OnRef r' c ⊎ laws.Under (git.rev_parse_head r') c
    pub work : (w : String) → laws.Work r w → laws.Work r' w

  Keeps-refl : (r : git.Repo) → Keeps r r
  Keeps-refl r = record { refs = λ c h. h; commits = λ c o h. inr h; work = λ w h. h }

  occupied_work : (r : git.Repo) (w : String) → laws.Work r w → occupied git r ≡ true
  unfolding occupied
  occupied_work r w h = ground (arith, laws.empty_place r w h)

  at_empty :
      (r r' : git.Repo)
      → occupied git r ≡ false
      → ((c : String) → laws.OnRef r c → laws.OnRef r' c)
      → Keeps r r'
  at_empty r r' empty refs = record {
    refs = refs;
    commits = λ c o h. cc;
    work = λ w h. let there = occupied_work r w h in cc;
  }

  added_repo : (place : String) (p : Bool × git.Repo) → (added git place p).repo ≡ p.1
  added_repo place (true, r) = refl
  added_repo place (false, r) = refl

  add_worktree-Keeps :
      (ref target : String) (r : git.Repo)
      → occupied git r ≡ false
      → Keeps r (add_worktree git ref target r).repo
  unfolding add_worktree
  add_worktree-Keeps ref target r empty =
      let branch = attachable_branch git r ref target in
      if-lem (λ (s : Synced git). Keeps r s.repo) (branch != "") _ _
        (λ on.
          rw (added_repo branch (git.add_branch r branch))
            (at_empty r _ empty (laws.add_branch_refs r branch)))
        (λ off.
          rw (added_repo target (git.add_detached r target))
            (at_empty r _ empty (laws.add_detached_refs r target)))

  fast_forward-Keeps : (target : String) (r : git.Repo) → Keeps r (fast_forward git target r).repo
  unfolding fast_forward
  fast_forward-Keeps target r =
      let merged = (git.merge_ff_only r target).1 in
      let kept : Keeps r merged = record {
        refs = laws.merge_refs r target;
        commits = λ c o h. inr (laws.merge_head r target (git.rev_parse_head r) c refl h);
        work = laws.merge_work r target;
      } in
      if-lem (λ (s : Synced git). Keeps r s.repo) (head git merged != some target) _ _ (λ _. kept)
        (λ _. kept)

  checkout-Keeps :
      (r : git.Repo) (branch : String)
      → git.rev_parse r ("refs/heads/" <> branch) ≡ git.rev_parse_head r
      → Keeps r (git.checkout r branch).1
  checkout-Keeps r branch tip = elim (Bool-cases (git.checkout r branch).0) [
    | inr refused ↦ subst (Keeps r) (sym (laws.checkout_refused r branch refused)) (Keeps-refl r)
    | inl done ↦ record {
      refs = laws.checkout_refs r branch;
      commits = λ c o h.
          inr (subst (λ at. laws.Under at c) (sym (laws.checkout_head r branch done ∙ tip)) h);
      work = laws.checkout_work r branch;
    }
  ]

  head-some :
      (r : git.Repo) (target : String) → head git r ≡ some target → git.rev_parse_head r ≡ target
  unfolding head
  head-some r target h = ground (arith, h)

  head-none : (r : git.Repo) → head git r ≡ none → git.rev_parse_head r ≡ ""
  unfolding head
  head-none r h = ground (arith, h)

  reattach-Keeps :
      (ref target : String) (r : git.Repo)
      → head git r ≡ some target
      → Keeps r (reattach git ref target r).repo
  unfolding reattach
  reattach-Keeps ref target r at =
      let branch = attachable_branch git r ref target in
      if-lem (λ (s : Synced git). Keeps r s.repo) (branch == "") _ _ (λ _. Keeps-refl r)
        (λ found. checkout-Keeps r branch (
          attachable_branch-tip git laws r ref target (ne_of_same branch "" found)
          ∙ sym (head-some r target at)))

  settle-Keeps : (ref target : String) (r : git.Repo) → Keeps r (settle git ref target r).repo
  unfolding settle
  settle-Keeps ref target r =
      let attached = attached_branch git r in
      let P = λ (s : Synced git). Keeps r s.repo in
      if-lem P (head git r != some target) _ _
        (λ away.
          if-lem P (attached != "") _ _ (λ _. Keeps-refl r) (λ _. fast_forward-Keeps target r))
        (λ at.
          if-lem P (attached != "") _ _ (λ _. Keeps-refl r)
            (λ _. reattach-Keeps ref target r (eq_of_test (head git r) (some target) at)))

  lay-Keeps : (ref target : String) (r : git.Repo) → Keeps r (lay git ref target r).repo
  unfolding lay
  lay-Keeps ref target r = elim (Bool-cases (occupied git r)) [
    | inl there ↦ rw there (settle-Keeps ref target r)
    | inr empty ↦ rw empty (add_worktree-Keeps ref target r empty)
  ]

  -- A removal leaves all as it is, or found no work and every commit of the head on a ref.
  abbrev Removal : git.Repo → Option Reason × git.Repo → Type 0
  Removal r p =
      (p.1 ≡ r)
      ⊎ (((c : String) → laws.OnRef r c → laws.OnRef p.1 c)
          × ((c : String) → laws.Under (git.rev_parse_head r) c → laws.OnRef r c)
          × ((w : String) → ¬ laws.Work r w))

  removed-Removal :
      (r : git.Repo)
      → ((c : String) → laws.Under (git.rev_parse_head r) c → laws.OnRef r c)
      → Removal r (removed git r)
  unfolding removed
  removed-Removal r reached = elim (Bool-cases (git.remove r).0) [
    | inl gone ↦ rw gone (inr (laws.remove_refs r, reached, λ w. laws.remove_clean r w gone))
    | inr refused ↦ rw refused (inl (laws.remove_refused r refused))
  ]

  remove_worktree-Removal : (r : git.Repo) → Removal r (remove_worktree git r)
  unfolding remove_worktree
  remove_worktree-Removal r = elim (Option-cases (head git r)) [
    | inl e ↦
        rw (e, remove_worktree)
          (removed-Removal r (λ c u.
            absurd (laws.under_nothing c (subst (λ at. laws.Under at c) (head-none r e) u))))
    | inr (h, e) ↦ elim (Option-cases (git.rev_list r h)) [
      | inl f ↦ rw (e, f, remove_worktree) (inl refl)
      | inr (orphaned, f) ↦
          rw (e, f, remove_worktree)
            (if-lem (Removal r) (orphaned != "") _ _ (λ _. inl refl)
              (λ clean. removed-Removal r (λ c u.
                laws.rev_list_lem r h c (f ∙ ap some (eq_of_test orphaned "" clean))
                  (subst (λ at. laws.Under at c) (head-some r h e) u))))
    ]
  ]

  recreate-Keeps :
      (ref target : String) (r : git.Repo) (p : Option Reason × git.Repo)
      → Removal r p
      → Keeps r (recreate git ref target p).repo
  unfolding recreate
  recreate-Keeps ref target r (some why, r') (inl same) = subst (Keeps r) (sym same) (Keeps-refl r)
  recreate-Keeps ref target r (none, r') (inl same) =
      subst (λ from. Keeps from (lay git ref target r').repo) same (lay-Keeps ref target r')
  recreate-Keeps ref target r (some why, r') (inr (refs, reached, no_work)) = record {
    refs = refs;
    commits = λ c o h. inl (refs c (reached c h));
    work = λ w h. absurd (no_work w h);
  }
  recreate-Keeps ref target r (none, r') (inr (refs, reached, no_work)) =
      let laid = lay-Keeps ref target r' in
      record {
        refs = λ c h. laid.refs c (refs c h);
        commits = λ c o h. inl (laid.refs c (refs c (reached c h)));
        work = λ w h. absurd (no_work w h);
      }

  -- Whatever the ref and the target, a recreate included, and whatever git answers: a sync of a
  -- developer's worktree loses no commit and no uncommitted file.
  pub sync-Keeps :
      (ref target : String) (recreate_worktree : Bool) (r : git.Repo)
      → Keeps r (sync git ref target recreate_worktree r).repo
  unfolding sync
  sync-Keeps ref target recreate_worktree r =
      let P = λ (s : Synced git). Keeps r s.repo in
      if-lem P (not (occupied git r)) _ _ (λ _. lay-Keeps ref target r)
        (λ _.
          if-lem P (not (is_worktree_of git r)) _ _ (λ _. Keeps-refl r)
            (λ _. elim (Option-cases (in_progress git r)) [
              | inr (operation, e) ↦ rw e (Keeps-refl r)
              | inl e ↦ rw e (
                  if-lem P recreate_worktree _ _
                    (λ _.
                      recreate-Keeps ref target r (remove_worktree git r)
                        (remove_worktree-Removal r))
                    (λ _. lay-Keeps ref target r))
            ]))
