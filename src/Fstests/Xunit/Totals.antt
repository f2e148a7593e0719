-- ===== src/Fstests/Xunit/Totals.antt =====
-- The totals of a report, and what a section that passed means.
use kdevops_ng.Prelude.{
  ◌+◌, String, ◌≡◌, refl, sym, ap, ◌∙◌, Bool, true, false, ◌&&◌, not, inl, inr, List, [], ◌∷◌, ◌==◌,
  string_eq, nat_eq, arith, Bool-cases, Option-cases, contains,
}
use mathlib.Core.Option.{get_or}
use kdevops_ng.Prelude.Lists.{length, any, keep, All}
use kdevops_ng.Prelude.Dict.{Dict, lookup, has, keys, lookup-insert}
use kdevops_ng.Prelude.Distinct.{Distinct, has-keys, insert-Distinct, length-keep-contains}
use kdevops_ng.Fstests.Xunit.{
  Child, failure, skipped, other, Case, Failure, Tally, count_up, note_failure, note_children,
  note_case, tally_cases, empty_tally, Outcome, failed, notrun, passed, is_notrun, status_of,
  Report, missing, unparseable, cases, summary_of, parse_xunit, section_passed,
}
use kdevops_ng.Fstests.Xunit.Passes.{has_failure, passes_of, has-note_children, failed_of_empty}

-- The names of the failures are among those of the tests, and neither repeat.
record IsTally (t : Tally) : Type 0 where
  pub fails_distinct : Distinct (keys t.fail_agg)
  pub runs_distinct : Distinct (keys t.runs)
  pub inside : (name : String) → has name t.fail_agg ≡ true → has name t.runs ≡ true

note_failure-Distinct :
    (name message type : String) (agg : Dict Failure)
    → Distinct (keys agg)
    → Distinct (keys (note_failure name message type agg))
unfolding note_failure
note_failure-Distinct name message type agg h = elim (Option-cases (lookup name agg)) [
  | inl e ↦ rw (e, note_failure) (insert-Distinct name _ agg h)
  | inr (entry, e) ↦ rw (e, note_failure) (insert-Distinct name _ agg h)
]

note_children-Distinct :
    (name : String) (children : List Child) (agg : Dict Failure)
    → Distinct (keys agg)
    → Distinct (keys (note_children name children agg))
unfolding note_children
note_children-Distinct name [] agg h = h
note_children-Distinct name (failure message type ∷ children) agg h =
    note_children-Distinct name children (note_failure name message type agg)
      (note_failure-Distinct name message type agg h)
note_children-Distinct name (skipped ∷ children) agg h = note_children-Distinct name children agg h
note_children-Distinct name (other ∷ children) agg h = note_children-Distinct name children agg h

runs_grow :
    (name : String) (c : Case) (t : Tally)
    → has name (note_case c t).fail_agg ≡ true
    → (has name t.fail_agg ≡ true → has name t.runs ≡ true)
    → has name (note_case c t).runs ≡ true
unfolding note_case count_up
runs_grow name c t fails before = ground (
  arith,
  has-note_children name c.name c.children t.fail_agg,
  lookup-insert name c.name (get_or (lookup c.name t.runs) 0 + 1) t.runs,
  before,
  fails,
)

note_case-IsTally : (c : Case) (t : Tally) → IsTally t → IsTally (note_case c t)
unfolding note_case count_up
note_case-IsTally c t h = record {
  fails_distinct = note_children-Distinct c.name c.children t.fail_agg h.fails_distinct;
  runs_distinct = insert-Distinct c.name _ t.runs h.runs_distinct;
  inside = λ name failed. runs_grow name c t failed (h.inside name);
}

tally_cases-IsTally : (xs : List Case) (t : Tally) → IsTally t → IsTally (tally_cases xs t)
unfolding tally_cases
tally_cases-IsTally [] t h = h
tally_cases-IsTally (c ∷ xs) t h = tally_cases-IsTally xs (note_case c t) (note_case-IsTally c t h)

empty-IsTally : IsTally empty_tally
unfolding keys lookup
empty-IsTally = record { fails_distinct = tt; runs_distinct = tt; inside = λ name failed. cc }

keep-has :
    (d : Dict Failure) (names : List String)
    → keep (λ n. has n d) names ≡ keep (contains (keys d)) names
keep-has d [] = refl
keep-has d (n ∷ names) = rw (has-keys n d) (rw (keep-has d names) refl)

all_inside :
    (xs ys : List String)
    → ((x : String) → contains xs x ≡ true → contains ys x ≡ true)
    → All (λ x. contains ys x ≡ true) xs
all_inside [] ys h = tt
all_inside (x ∷ xs) ys h =
    (h x (ground arith), all_inside xs ys (λ y there. h y (ground (arith, there))))

fails_counted :
    (t : Tally)
    → IsTally t
    → length (keep (λ n. has n t.fail_agg) (keys t.runs)) ≡ length (keys t.fail_agg)
fails_counted t h =
    ap length (keep-has t.fail_agg (keys t.runs))
    ∙ length-keep-contains (keys t.fail_agg) (keys t.runs) h.fails_distinct h.runs_distinct (
        all_inside (keys t.fail_agg) (keys t.runs)
          (λ x there. sym (has-keys x t.runs) ∙ h.inside x (has-keys x t.fail_agg ∙ there)))

is_failed : Tally → String → Bool
is_failed t name = has name t.fail_agg

is_passed : Outcome → Bool
is_passed failed = false
is_passed notrun = false
is_passed passed = true

-- Every name has one of the three statuses.
three_ways :
    (t : Tally) (names : List String)
    → length names
      ≡ length (keep (λ n. has n t.fail_agg) names)
        + length (keep (λ n. is_notrun (status_of t n)) names)
        + length (keep (λ n. is_passed (status_of t n)) names)
unfolding status_of is_passed
three_ways t [] = refl
three_ways t (n ∷ names) = ground (arith, three_ways t names)

-- The counts of a report add up: no test is counted twice or left out, so that the clamp of the
-- passed ones never acts.
pub parse_xunit-totals :
    (r : Report)
    → (parse_xunit r).tests
      ≡ (parse_xunit r).passed_count + (parse_xunit r).failed_count + (parse_xunit r).skipped_count
unfolding parse_xunit summary_of
parse_xunit-totals missing = refl
parse_xunit-totals unparseable = refl
parse_xunit-totals (cases xs) =
    let t = tally_cases xs empty_tally in
    omega (
      arith,
      three_ways t (keys t.runs),
      fails_counted t (tally_cases-IsTally xs empty_tally empty-IsTally),
    )

-- What a section that passed has found: a report, with no failure in it where it could be read.
abbrev pub clean_report : Report → Bool
clean_report missing = false
clean_report unparseable = true
clean_report (cases xs) = not (any has_failure xs)

no_key : (d : Dict Failure) → ((n : String) → has n d ≡ false) → (length (keys d) == 0) ≡ true
unfolding keys lookup
no_key [] h = ground arith
no_key ((k, v) ∷ d) h = ground (arith, h k)

some_key : (n : String) (d : Dict Failure) → has n d ≡ true → (length (keys d) == 0) ≡ false
unfolding keys lookup
some_key n [] h = cc
some_key n ((k, v) ∷ d) h = ground arith

none_fails :
    (n : String) (xs : List Case)
    → any has_failure xs ≡ false
    → any has_failure (passes_of n xs) ≡ false
none_fails n [] h = refl
none_fails n (c ∷ xs) h = ground (arith, none_fails n xs, h)

one_fails :
    (xs : List Case)
    → any has_failure xs ≡ true
    → (n : String) × (any has_failure (passes_of n xs) ≡ true)
one_fails [] h = cc
one_fails (c ∷ xs) h = elim (Bool-cases (has_failure c)) [
  | inl on ↦ (c.name, ground (arith, on))
  | inr off ↦ let (n, e) = one_fails xs (ground (arith, h, off)) in (n, ground (arith, e))
]

no_failures :
    (xs : List Case)
    → (length (keys (tally_cases xs empty_tally).fail_agg) == 0) ≡ not (any has_failure xs)
no_failures xs = elim (Bool-cases (any has_failure xs)) [
  | inl on ↦
      let (name, e) = one_fails xs on in
      rw on (some_key name (tally_cases xs empty_tally).fail_agg (failed_of_empty name xs ∙ e))
  | inr off ↦ rw off (
      no_key (tally_cases xs empty_tally).fail_agg
        (λ name. failed_of_empty name xs ∙ none_fails name xs off))
]

-- A section passes exactly where its report is there and no case of it has a failure, the guest did
-- not crash and the wait did not time out. A report that cannot be parsed counts as one without
-- failures.
pub section_passed-clean_report :
    (r : Report) (crashed timed_out : Bool)
    → section_passed r crashed timed_out ≡ (clean_report r && not crashed && not timed_out)
unfolding section_passed parse_xunit summary_of nat_eq
section_passed-clean_report missing crashed timed_out = refl
section_passed-clean_report unparseable crashed timed_out = refl
section_passed-clean_report (cases xs) crashed timed_out = rw (no_failures xs) refl
