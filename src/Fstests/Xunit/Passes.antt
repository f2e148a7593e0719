-- ===== src/Fstests/Xunit/Passes.antt =====
-- What the tally holds of one test.
use kdevops_ng.Prelude.{
  ℕ, ◌+◌, String, ◌≡◌, refl, ◌∙◌, Bool, ◌&&◌, ◌||◌, inl, inr, List, [], ◌∷◌, ◌==◌, string_eq,
  nat_eq, arith, Option-cases, if◌then◌else◌,
}
use mathlib.Core.Option.{get_or}
use kdevops_ng.Prelude.Lists.{length, any, all, keep, length-keep-le}
use kdevops_ng.Prelude.Dict.{Dict, lookup, has, lookup-insert}
use kdevops_ng.Fstests.Xunit.{
  Child, failure, skipped, other, Case, Failure, Tally, is_failure, only_skipped, count_up,
  note_failure, note_children, note_case, tally_cases, empty_tally, Outcome, failed, notrun, passed,
  status_of,
}

abbrev pub has_failure : Case → Bool
has_failure c = any is_failure c.children

-- The cases of a test: `-i` gives it one for each pass.
abbrev pub passes_of : String → List Case → List Case
passes_of name cases = keep (λ c. name == c.name) cases

-- The status that the passes of a test give it.
abbrev pub status_of_passes : List Case → Outcome
status_of_passes passes =
    if any has_failure passes then failed else if all only_skipped passes then notrun else passed

pub has-note_failure :
    (n name message type : String) (agg : Dict Failure)
    → has n (note_failure name message type agg) ≡ (n == name || has n agg)
unfolding note_failure
has-note_failure n name message type agg = elim (Option-cases (lookup name agg)) [
  | inl e ↦ rw (e, note_failure) (grind (arith, lookup-insert n name _ agg))
  | inr (entry, e) ↦ rw (e, note_failure) (grind (arith, lookup-insert n name _ agg))
]

pub has-note_children :
    (n name : String) (children : List Child) (agg : Dict Failure)
    → has n (note_children name children agg)
      ≡ ((n == name && any is_failure children) || has n agg)
unfolding note_children
has-note_children n name [] agg = ground arith
has-note_children n name (failure message type ∷ children) agg =
    has-note_children n name children (note_failure name message type agg)
    ∙ ground (arith, has-note_failure n name message type agg)
has-note_children n name (skipped ∷ children) agg = has-note_children n name children agg
has-note_children n name (other ∷ children) agg = has-note_children n name children agg

count_of : String → Dict ℕ → ℕ
count_of n d = get_or (lookup n d) 0

count_of-count_up :
    (n k : String) (d : Dict ℕ)
    → count_of n (count_up k d) ≡ (if n == k then count_of n d + 1 else count_of n d)
unfolding count_of count_up
count_of-count_up n k d = grind (arith, lookup-insert n k (get_or (lookup k d) 0 + 1) d)

failed_lem :
    (n : String) (cases : List Case) (t : Tally)
    → has n (tally_cases cases t).fail_agg
      ≡ (any has_failure (passes_of n cases) || has n t.fail_agg)
unfolding tally_cases note_case
failed_lem n [] t = refl
failed_lem n (c ∷ cases) t =
    failed_lem n cases (note_case c t)
    ∙ ground (arith, has-note_children n c.name c.children t.fail_agg)

runs_lem :
    (n : String) (cases : List Case) (t : Tally)
    → count_of n (tally_cases cases t).runs ≡ length (passes_of n cases) + count_of n t.runs
unfolding tally_cases note_case
runs_lem n [] t = omega arith
runs_lem n (c ∷ cases) t =
    runs_lem n cases (note_case c t) ∙ ground (arith, count_of-count_up n c.name t.runs)

skips_lem :
    (n : String) (cases : List Case) (t : Tally)
    → count_of n (tally_cases cases t).skips
      ≡ length (keep only_skipped (passes_of n cases)) + count_of n t.skips
unfolding tally_cases note_case
skips_lem n [] t = omega arith
skips_lem n (c ∷ cases) t =
    skips_lem n cases (note_case c t) ∙ ground (arith, count_of-count_up n c.name t.skips)

length-keep-all :
    {A : Type 0} (p : A → Bool) (xs : List A) → (length (keep p xs) == length xs) ≡ all p xs
length-keep-all p [] = ground arith
length-keep-all p (x ∷ xs) = ground (arith, length-keep-all p xs, length-keep-le p xs)

pub failed_of_empty :
    (n : String) (cases : List Case)
    → has n (tally_cases cases empty_tally).fail_agg ≡ any has_failure (passes_of n cases)
unfolding lookup
failed_of_empty n cases = failed_lem n cases empty_tally ∙ ground arith

skipped_of_empty :
    (n : String) (cases : List Case)
    → (count_of n (tally_cases cases empty_tally).skips
        == count_of n (tally_cases cases empty_tally).runs)
      ≡ all only_skipped (passes_of n cases)
unfolding lookup count_of
skipped_of_empty n cases = rw (skips_lem n cases empty_tally) (
    rw (runs_lem n cases empty_tally)
      (ground (arith, length-keep-all only_skipped (passes_of n cases))))

-- The status of a test is that of its passes: failed if one of them has a failure, else notrun if
-- every one is skipped, else passed.
pub status_of-passes :
    (cases : List Case) (name : String)
    → status_of (tally_cases cases empty_tally) name ≡ status_of_passes (passes_of name cases)
unfolding status_of count_of
status_of-passes cases name =
    rw (failed_of_empty name cases) (rw (skipped_of_empty name cases) refl)
