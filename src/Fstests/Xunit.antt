-- ===== src/Fstests/Xunit.antt =====
-- f/fstests/common.py: parse_xunit, from the test cases of a report to its summary, and the verdicts
-- on a section and on a run. The times of the tests are floats and stay out.
pub mod Passes
pub mod Totals
mod Tests
use kdevops_ng.Prelude.{
  ℕ, suc, ◌+◌, ◌-◌, String, Bool, true, false, ◌&&◌, ◌||◌, not, Option, none, some, List, [], ◌∷◌,
  ◌==◌, ◌!=◌, string_eq, nat_eq, ltb, leb, map, if◌then◌else◌,
}
use mathlib.Core.Option.{get_or}
use kdevops_ng.Prelude.Lists.{length, any, all, keep, sort_by}
use kdevops_ng.Prelude.Words.{text_ltb}
use kdevops_ng.Prelude.Dict.{Dict, lookup, insert, has, keys}

-- What a test case holds: a failure with its message and type, a skip or an element of another kind.
pub data Child : Type 0 where
  failure : String → String → Child
  skipped other : Child

-- A case, with the name that `_testcase_name` gives it.
pub record Case : Type 0 where
  pub name : String
  pub children : List Child

pub record Failure : Type 0 where
  pub name : String
  pub message : String
  pub type : String
  pub fails : ℕ

pub record Tally : Type 0 where
  pub fail_agg : Dict Failure
  pub runs : Dict ℕ
  pub skips : Dict ℕ

abbrev pub is_failure : Child → Bool
is_failure (failure _ _) = true
is_failure skipped = false
is_failure other = false

abbrev pub is_skip : Child → Bool
is_skip (failure _ _) = false
is_skip skipped = true
is_skip other = false

-- `d[k] = d.get(k, 0) + 1`
unfoldable pub count_up : String → Dict ℕ → Dict ℕ
count_up k d = insert k (get_or (lookup k d) 0 + 1) d

unfoldable pub note_failure : String → String → String → Dict Failure → Dict Failure
note_failure name message type agg = elim (lookup name agg) [
  | none ↦ insert name (record { name = name; message = message; type = type; fails = 1 }) agg
  | some entry ↦ insert name (record entry { fails = entry.fails + 1 }) agg
]

unfoldable pub note_children : String → List Child → Dict Failure → Dict Failure
note_children name [] agg = agg
note_children name (failure message type ∷ children) agg =
    note_children name children (note_failure name message type agg)
note_children name (skipped ∷ children) agg = note_children name children agg
note_children name (other ∷ children) agg = note_children name children agg

abbrev pub only_skipped : Case → Bool
only_skipped c = any is_skip c.children && not (any is_failure c.children)

unfoldable pub note_case : Case → Tally → Tally
note_case c t = record {
  fail_agg = note_children c.name c.children t.fail_agg;
  runs = count_up c.name t.runs;
  skips = if only_skipped c then count_up c.name t.skips else t.skips;
}

unfoldable pub tally_cases : List Case → Tally → Tally
tally_cases [] t = t
tally_cases (c ∷ cases) t = tally_cases cases (note_case c t)

abbrev pub empty_tally : Tally
empty_tally = record { fail_agg = []; runs = []; skips = [] }

pub data Outcome : Type 0 where
  failed notrun passed : Outcome

-- The status of one test over all its passes.
unfoldable pub status_of : Tally → String → Outcome
status_of t name =
    if has name t.fail_agg
    then failed
    else if get_or (lookup name t.skips) 0 == get_or (lookup name t.runs) 0
    then notrun
    else passed

pub record Row : Type 0 where
  pub test : String
  pub status : Outcome
  pub runs : ℕ
  pub fails : ℕ
  pub message : String

unfoldable pub row_of : Tally → String → Row
row_of t name = elim (lookup name t.fail_agg) [
  | some entry ↦ record {
    test = name;
    status = status_of t name;
    runs = get_or (lookup name t.runs) 0;
    fails = entry.fails;
    message = entry.message;
  }
  | none ↦ record {
    test = name;
    status = status_of t name;
    runs = get_or (lookup name t.runs) 0;
    fails = 0;
    message = "";
  }
]

abbrev rank : Outcome → ℕ
rank failed = 0
rank notrun = 1
rank passed = 2

abbrev goes_first : Row → Row → Bool
goes_first a b =
    ltb (rank a.status) (rank b.status)
    || (rank a.status == rank b.status && text_ltb a.test b.test)

abbrev pub is_notrun : Outcome → Bool
is_notrun failed = false
is_notrun notrun = true
is_notrun passed = false

unfoldable pub greatest : List ℕ → ℕ
greatest [] = 0
greatest (n ∷ ns) = let rest = greatest ns in if ltb rest n then n else rest

-- A report as it is found: none, one that is no XML, or its test cases.
pub data Report : Type 0 where
  missing unparseable : Report
  cases : List Case → Report

pub record Summary : Type 0 where
  pub report_present : Bool
  pub passed_count : ℕ
  pub failed_count : ℕ
  pub skipped_count : ℕ
  pub tests : ℕ
  pub iterations : ℕ
  pub failures : List Failure
  pub notruns : List String
  pub per_test : List Row

abbrev base_summary : Bool → Summary
base_summary present = record {
  report_present = present;
  passed_count = 0;
  failed_count = 0;
  skipped_count = 0;
  tests = 0;
  iterations = 0;
  failures = [];
  notruns = [];
  per_test = [];
}

abbrev values {ℓ} : {V : Type ℓ} → Dict V → List V
values [] = []
values ((_, v) ∷ d) = v ∷ values d

abbrev pub notrun_names : Tally → List String
notrun_names t = keep (λ name. is_notrun (status_of t name)) (keys t.runs)

unfoldable pub summary_of : Tally → Summary
summary_of t = record {
  report_present = true;
  passed_count = length (keys t.runs) - length (keys t.fail_agg) - length (notrun_names t);
  failed_count = length (keys t.fail_agg);
  skipped_count = length (notrun_names t);
  tests = length (keys t.runs);
  iterations = greatest (values t.runs);
  failures = values t.fail_agg;
  notruns = sort_by text_ltb (notrun_names t);
  per_test = sort_by goes_first (map (row_of t) (keys t.runs));
}

unfoldable pub parse_xunit : Report → Summary
parse_xunit missing = base_summary false
parse_xunit unparseable = base_summary true
parse_xunit (cases xs) = summary_of (tally_cases xs empty_tally)

-- The status of a section, true for passed.
unfoldable pub section_passed : Report → Bool → Bool → Bool
section_passed report crashed timed_out =
    let summary = parse_xunit report in
    summary.report_present && summary.failed_count == 0 && not crashed && not timed_out

-- The status of a run, true for passed: every section passed, and there is one.
unfoldable pub run_passed : List Bool → Bool
run_passed sections = length sections != 0 && all (λ passed. passed) sections
