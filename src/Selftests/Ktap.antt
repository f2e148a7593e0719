-- ===== src/Selftests/Ktap.antt =====
-- f/selftests/common.py: `parse_ktap`, over lines that its regular expressions have sorted, and
-- f/selftests/collect.py: the verdict on a run item.
pub mod Journal
pub mod Counts
pub mod Verdict
mod Tests
use kdevops_ng.Prelude.{
  ℕ, suc, ◌+◌, String, Bool, true, false, ◌&&◌, ◌||◌, not, Option, none, some, List, [], ◌∷◌, ◌++◌,
  ◌==◌, ◌!=◌, nat_eq, string_eq, ltb, if◌then◌else◌,
}
use mathlib.Core.Option.{get_or}
use kdevops_ng.Prelude.Lists.{length, keep}

-- The directive of a result: none, a skip, an expected failure or another one, with its text.
pub data Directive : Type 0 where
  bare : Directive
  skip xfail noted : String → Directive

pub record Totals : Type 0 where
  pub passed : ℕ
  pub failed : ℕ
  pub xfail : ℕ
  pub xpass : ℕ
  pub skipped : ℕ
  pub error : ℕ

-- A line at column 0: the header, a plan `1..N`, the runner's totals, or a result with its collection
-- and test.
pub data Line : Type 0 where
  header : Line
  plan_line : ℕ → Line
  totals_line : Totals → Line
  result : Bool → Directive → String → String → Line
  other : Line

pub data Status : Type 0 where
  passed failed notrun : Status

pub record Test : Type 0 where
  pub collection : String
  pub test : String
  pub status : Status
  pub message : String

pub record Summary : Type 0 where
  pub tests : List Test
  pub passed_count : ℕ
  pub failed_count : ℕ
  pub skipped_count : ℕ
  pub plan : Option ℕ
  pub totals : Option Totals
  pub complete : Bool
  pub report_present : Bool

unfoldable pub empty_summary : Summary
empty_summary = record {
  tests = [];
  passed_count = 0;
  failed_count = 0;
  skipped_count = 0;
  plan = none;
  totals = none;
  complete = false;
  report_present = false;
}

-- The lines after the last header.
unfoldable pub after_header : List Line → Option (List Line)
after_header [] = none
after_header (header ∷ lines) = elim (after_header lines) [
  | some found ↦ some found
  | none ↦ some lines
]
after_header (_ ∷ lines) = after_header lines

unfoldable pub status_of : Bool → Directive → Status
status_of is_ok (skip _) = notrun
status_of true _ = passed
status_of false _ = failed

-- A passed test keeps the directive of an expected failure only.
unfoldable pub message_of : Bool → Directive → String
message_of is_ok bare = ""
message_of is_ok (skip text) = text
message_of is_ok (xfail text) = text
message_of true (noted text) = ""
message_of false (noted text) = text

unfoldable pub count_status : Status → Summary → Summary
count_status passed s = record s { passed_count = suc s.passed_count }
count_status failed s = record s { failed_count = suc s.failed_count }
count_status notrun s = record s { skipped_count = suc s.skipped_count }

unfoldable pub add_result : Bool → Directive → String → String → Summary → Summary
add_result is_ok directive collection test s =
    let counted = count_status (status_of is_ok directive) s in
    record counted {
      tests =
          s.tests
          ++ (record {
            collection = collection;
            test = test;
            status = status_of is_ok directive;
            message = message_of is_ok directive;
          }
              ∷ []);
    }

abbrev pub first_plan : Option ℕ → ℕ → Option ℕ
first_plan none count = some count
first_plan (some plan) count = some plan

-- The first plan counts, and the last totals.
unfoldable pub add_line : Line → Summary → Summary
add_line header s = s
add_line (plan_line count) s = record s { plan = first_plan s.plan count }
add_line (totals_line t) s = record s { totals = some t }
add_line (result is_ok directive collection test) s = add_result is_ok directive collection test s
add_line other s = s

unfoldable pub add_lines : List Line → Summary → Summary
add_lines [] s = s
add_lines (line ∷ lines) s = add_lines lines (add_line line s)

unfoldable pub totals_ok : Option Totals → Summary → Bool
totals_ok none s = true
totals_ok (some t) s =
    t.passed + t.xfail + t.xpass == s.passed_count
    && t.failed + t.error == s.failed_count
    && t.skipped == s.skipped_count

unfoldable pub is_planned : Option ℕ → ℕ → Bool
is_planned none count = false
is_planned (some plan) count = count == plan

unfoldable pub finish : Summary → Summary
finish s = record s { complete = is_planned s.plan (length s.tests) && totals_ok s.totals s }

unfoldable pub parse_ktap : List Line → Summary
parse_ktap lines = elim (after_header lines) [
  | none ↦ empty_summary
  | some rest ↦ finish (add_lines rest (record empty_summary { report_present = true }))
]

-- How the run of an item ended, as the wait saw it.
pub record Ending : Type 0 where
  pub result : String
  pub exec_status : String
  pub crashed : Bool
  pub timed_out : Bool
  pub user_crashes : List String
  pub user_crash_count : Option ℕ
  pub fail_on_user_crash : Bool

unfoldable pub plumbing_ok : Ending → Bool
plumbing_ok e =
    e.result == "done"
    && (e.exec_status == "" || e.exec_status == "0")
    && not e.crashed
    && not e.timed_out

unfoldable pub crash_count : Ending → ℕ
crash_count e = elim e.user_crash_count [ none ↦ length e.user_crashes | some count ↦ count ]

unfoldable pub crash_fails : Ending → Bool
crash_fails e = e.fail_on_user_crash && crash_count e != 0

unfoldable pub verdict : Ending → Summary → Status
verdict e s =
    if not (plumbing_ok e) || not s.complete || s.failed_count != 0 || crash_fails e
    then failed
    else if s.passed_count == 0
    then notrun
    else passed

-- The verdict on an item, from its journal's lines.
unfoldable pub collect : Ending → List Line → Status
collect e lines = verdict e (parse_ktap lines)
