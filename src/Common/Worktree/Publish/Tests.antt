-- ===== src/Common/Worktree/Publish/Tests.antt =====
-- Refs by their names, with HEAD at the commit "c".
use kdevops_ng.Prelude.{
  String, ◌≡◌, ◌≢◌, refl, ap, ℕ, ne_of_same, if-lem, Bool, true, false, some, [], ◌∷◌, ◌==◌,
  string_eq, nat_eq, list_eq, option_eq, arith, eq_true, eq_false, if◌then◌else◌,
}
use kdevops_ng.Common.Worktree.Labels.{
  Text, codes, strip_by, drop_start, drop_end, squeeze, slug, after_last, before_first, b4_slug,
}
use kdevops_ng.Common.Worktree.Publish.{
  Refs, branch_of, ref_of, anchor_of, anchored, created, publish_branch, publish_b4_branch,
}
use kdevops_ng.Common.Worktree.Publish.Moves.{Laws, Published, publish_b4_branch-Published}

abbrev set : (Text → String) → Text → Text → String
set r ref name = if name == ref then "c" else r name

abbrev toy_create : (Text → String) → Text → Bool × (Text → String)
toy_create r ref = if r ref == "" then (true, set r ref) else (false, r)

abbrev toy : Refs
toy = record {
  Repo = Text → String;
  rev_parse_head = λ r. "c";
  rev_parse = λ r ref. r ref;
  update_ref = λ r ref. (true, set r ref);
  create_ref = toy_create;
}

set-same : (r : Text → String) (ref : Text) → set r ref ref ≡ "c"
set-same r ref = rw (eq_true ref ref refl) refl

sixth : Text → ℕ
sixth (a ∷ b ∷ c ∷ d ∷ e ∷ f ∷ s) = f
sixth (a ∷ b ∷ c ∷ d ∷ e ∷ []) = 0
sixth (a ∷ b ∷ c ∷ d ∷ []) = 0
sixth (a ∷ b ∷ c ∷ []) = 0
sixth (a ∷ b ∷ []) = 0
sixth (a ∷ []) = 0
sixth [] = 0

apart : (name branch : Text) → ref_of branch ≢ anchor_of name
unfolding sixth
apart name branch e = let same = ap sixth e in omega arith

set-anchor :
    (r : Text → String) (name branch : Text)
    → set r (anchor_of name) (ref_of branch) ≡ r (ref_of branch)
set-anchor r name branch = rw (eq_false (ref_of branch) (anchor_of name) (apart name branch)) refl

filled : ◌≢◌ {A = String} "c" ""
unfolding string_eq
filled = ne_of_same "c" "" refl

toy_create-at :
    (r : Text → String) (ref : Text)
    → (toy_create r ref).0 ≡ true
    → ((toy_create r ref).1 ref ≡ "c") × (◌≢◌ {A = String} "c" "")
toy_create-at r ref =
    if-lem
      (λ (p : Bool × (Text → String)). p.0 ≡ true → (p.1 ref ≡ "c") × (◌≢◌ {A = String} "c" ""))
      (r ref == "") (true, set r ref) (false, r) (λ _ _. (set-same r ref, filled)) (λ _ refused. cc)

toy_create-refused :
    (r : Text → String) (ref : Text) → (toy_create r ref).0 ≡ false → (toy_create r ref).1 ≡ r
toy_create-refused r ref refused = ground (arith, refused)

toy_laws : Laws toy
toy_laws = record {
  update_ref_at = λ r ref done. set-same r ref;
  update_ref_refused = λ r ref refused. cc;
  update_ref_branches = set-anchor;
  create_ref_at = toy_create-at;
  create_ref_refused = toy_create-refused;
}

-- The branch of the series stands at another commit.
abbrev series : Text
series = codes "20250101-log-v2@kernel.org"

abbrev before : Text → String
before ref = if ref == ref_of (branch_of series) then "b" else ""

publish_b4_branch-Published_example :
    Published toy toy_laws (branch_of series) before (publish_b4_branch toy series before)
publish_b4_branch-Published_example = publish_b4_branch-Published toy toy_laws series before

is_left : (publish_b4_branch toy series before).1 (ref_of (branch_of series)) ≡ "b"
unfolding publish_b4_branch publish_branch anchored b4_slug slug strip_by drop_start drop_end
    squeeze after_last before_first nat_eq list_eq string_eq option_eq
is_left = refl

is_named : (publish_b4_branch toy series (λ ref. "")).0 ≡ some (codes "b4/20250101-log-v2")
unfolding publish_b4_branch publish_branch created b4_slug slug strip_by drop_start drop_end squeeze
    after_last before_first nat_eq list_eq string_eq option_eq
is_named = refl
