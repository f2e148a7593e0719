-- ===== src/Common/Worktree/Tests.antt =====
-- A toy git of two commits, "a" and its child "b", the tip of the branch "topic"; and labels.
use kdevops_ng.Prelude.{
  String, ◌<>◌, ◌≡◌, ◌≢◌, refl, sym, ◌⊎◌, inl, inr, Bool, true, false, ◌&&◌, none, some, [], ◌==◌,
  string_eq, nat_eq, option_eq, arith, eq_true, eq_false, if◌then◌else◌,
}
use kdevops_ng.Prelude.Lists.{All}
use kdevops_ng.Prelude.Words.{split_lines, split_at, is_break}
use kdevops_ng.Common.Worktree.Git.{Git, partition, after_prefix}
use kdevops_ng.Common.Worktree.Git.Laws.{Laws}
use kdevops_ng.Common.Worktree.Sync.{
  occupied, is_worktree_of, in_progress, marked, head, attached_branch, fast_forward, settle, lay,
  remove_worktree, removed, recreate, sync, not_removed,
}
use kdevops_ng.Common.Worktree.Sync.Carries.{Accounted, sync-Accounted}
use kdevops_ng.Common.Worktree.Sync.Keeps.{Keeps, sync-Keeps}
use kdevops_ng.Common.Worktree.Labels.{
  codes, strip_by, drop_start, drop_end, squeeze, slug, after_last, before_first, b4_slug,
  compute_label,
}
use kdevops_ng.Common.Worktree.Labels.Slugs.{IsSlug, IsLeaf, slug-slug, b4_slug-IsLeaf}

record Tree : Type 0 where
  there : Bool
  at : String
  dirty : Bool

abbrev tip_of : String → String
tip_of name = if name == "refs/heads/topic" then "b" else ""

abbrev toy_refs : String → String
toy_refs ref = if ref == "topic" then "refs/heads/topic|b|" else ""

abbrev toy_remove : Tree → Bool × Tree
toy_remove r =
    if r.dirty then (false, r) else (true, record { there = false; at = ""; dirty = false })

abbrev laid : String → Tree
laid at = record { there = true; at = at; dirty = false }

abbrev toy_merge : Tree → String → Bool × Tree
toy_merge r target =
    if r.at == "a" && target == "b" then (true, record r { at = "b" }) else (false, r)

abbrev toy_checkout : Tree → String → Bool × Tree
toy_checkout r branch =
    if branch == "topic"
    then (true, record r { at = tip_of ("refs/heads/" <> branch) })
    else (false, r)

abbrev toy : Git
toy = record {
  Repo = Tree;
  bare = "/bare";
  resolve = λ path. path;
  exists = λ r. r.there;
  is_dir = λ r. r.there;
  has_entry = λ r. r.there;
  common_dir = λ r. "/bare";
  git_dir = λ r. "/bare/worktrees/linux";
  rev_parse_head = λ r. r.at;
  symbolic_head = λ r. "HEAD";
  marker_dir = λ r name. false;
  marker = λ r name. false;
  rev_parse = λ r name. tip_of name;
  for_each_ref = λ r ref. toy_refs ref;
  rev_list = λ r h. some "";
  remove = toy_remove;
  add_branch = λ r branch. (true, laid (tip_of ("refs/heads/" <> branch)));
  add_detached = λ r target. (true, laid target);
  merge_ff_only = toy_merge;
  checkout = toy_checkout;
}

IsCommit : String → Type 0
IsCommit c = (c ≡ "a") ⊎ (c ≡ "b")

Below : String → String → Type 0
Below h c = ((h ≡ "a") × (c ≡ "a")) ⊎ ((h ≡ "b") × ((c ≡ "a") ⊎ (c ≡ "b")))

Changed : Tree → String → Type 0
Changed r w = (r.there ≡ true) × (r.dirty ≡ true) × (w ≡ "fs/xfs/xfs_super.c")

Below-IsCommit : (h c : String) → Below h c → IsCommit c
unfolding Below IsCommit
Below-IsCommit h c (inl (_, e)) = inl e
Below-IsCommit h c (inr (_, e)) = e

not_empty : (s : String) → (s == "") ≡ false → "" ≡ s → ⊥
not_empty s filled e = ground (arith, filled)

Below-nothing : (c : String) → ¬ Below "" c
unfolding Below string_eq
Below-nothing c (inl (e, _)) = not_empty "a" refl e
Below-nothing c (inr (e, _)) = not_empty "b" refl e

LineOf : String → String → Type 0
LineOf ref line =
    (partition line).0 ≡ "refs/heads/" <> ref
    → (partition (partition line).1).0 ≡ tip_of ("refs/heads/" <> ref)

topic_line : All (LineOf "topic") (split_lines "refs/heads/topic|b|")
unfolding LineOf split_lines is_break partition split_at nat_eq string_eq
topic_line = (λ e. refl, tt)

no_line : (ref : String) → All (LineOf ref) (split_lines "")
unfolding split_lines
no_line ref = tt

toy_line : (ref : String) → All (LineOf ref) (split_lines (toy_refs ref))
toy_line ref = elim (string_eq.dec ref "topic") [
  | yes p ↦ rw (eq_true ref "topic" p) (rw p topic_line)
  | no n ↦ rw (eq_false ref "topic" n) (no_line ref)
]

toy_merge-Below :
    (r : Tree) (target h c : String) → r.at ≡ h → Below h c → Below (toy_merge r target).1.at c
unfolding Below
toy_merge-Below r target h c e below = ground (arith, below)

no_work : (r : Tree) (w : String) → (toy_remove r).0 ≡ true → ¬ Changed r w
unfolding Changed
no_work r w gone h = ground (arith, gone, h)

toy_laws : Laws toy
unfolding Below IsCommit Changed LineOf
toy_laws = record {
  Under = Below;
  under_nothing = Below-nothing;
  OnRef = λ r c. IsCommit c;
  Work = Changed;
  empty_place = λ r w h. (h.0, h.0);
  rev_list_lem = λ r h c none_left below. Below-IsCommit h c below;
  for_each_ref_lem = λ r ref. toy_line ref;
  remove_clean = no_work;
  remove_refused = λ r refused. ground (arith, refused);
  remove_refs = λ r c h. h;
  add_branch_head = λ r b done. refl;
  add_branch_refs = λ r b c h. h;
  add_detached_head = λ r t done. refl;
  add_detached_refs = λ r t c h. h;
  merge_head = toy_merge-Below;
  merge_refs = λ r t c h. h;
  merge_work = λ r t w h. ground (arith, h);
  checkout_head = λ r b done. ground (arith, done);
  checkout_refused = λ r b refused. ground (arith, refused);
  checkout_refs = λ r b c h. h;
  checkout_work = λ r b w h. ground (arith, h);
}

-- A tree at "a" with a changed file.
abbrev behind : Tree
behind = record { there = true; at = "a"; dirty = true }

a_commit : ◌≢◌ {A = String} "b" ""
unfolding string_eq
a_commit e = not_empty "b" refl (sym e)

sync-Accounted_example : Accounted toy toy_laws "b" (sync toy "topic" "b" false behind)
sync-Accounted_example = sync-Accounted toy toy_laws "topic" "b" a_commit false behind

sync-Keeps_example : Keeps toy toy_laws behind (sync toy "topic" "b" true behind).repo
sync-Keeps_example = sync-Keeps toy toy_laws "topic" "b" true behind

moves_on :
    sync toy "topic" "b" false behind
    ≡ record { reason = none; commit = some "b"; repo = record behind { at = "b" } }
unfolding sync occupied is_worktree_of in_progress marked lay settle fast_forward attached_branch
    after_prefix head string_eq option_eq
moves_on = refl

stays_dirty :
    sync toy "topic" "b" true behind
    ≡ record { reason = some not_removed; commit = some "a"; repo = behind }
unfolding sync occupied is_worktree_of in_progress marked remove_worktree removed recreate head
    string_eq
stays_dirty = refl

slug-slug_example :
    IsSlug (slug (codes " Fix: XFS_log..replay! "))
    × (slug (slug (codes " Fix: XFS_log..replay! ")) ≡ slug (codes " Fix: XFS_log..replay! "))
slug-slug_example = slug-slug (codes " Fix: XFS_log..replay! ")

named_after : slug (codes " Fix: XFS_log..replay! ") ≡ codes "fix-xfs_log..replay"
unfolding slug strip_by drop_start drop_end squeeze nat_eq
named_after = refl

b4_slug-IsLeaf_example :
    IsLeaf (b4_slug (codes "https://lore.kernel.org/all/2025-log-v2@kernel.org/"))
b4_slug-IsLeaf_example =
    b4_slug-IsLeaf (codes "https://lore.kernel.org/all/2025-log-v2@kernel.org/")

leaf_of_url :
    b4_slug (codes "https://lore.kernel.org/all/2025-log-v2@kernel.org/") ≡ codes "2025-log-v2"
unfolding b4_slug slug strip_by drop_start drop_end squeeze after_last before_first nat_eq
leaf_of_url = refl

no_series : b4_slug (codes " / ") ≡ codes "series"
unfolding b4_slug slug strip_by drop_start drop_end squeeze after_last before_first nat_eq
no_series = refl

of_a_tag : compute_label [] [] [] true (codes "v6.12") ≡ codes "vanilla"
unfolding compute_label
of_a_tag = refl
