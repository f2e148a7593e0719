-- ===== src/Kunit/Ktap.antt =====
-- f/kunit/common.py: `parse_ktap`, over lines that its regular expressions have sorted.
pub mod Complete
use kdevops_ng.Prelude.{
  ℕ, suc, String, Bool, true, false, ◌&&◌, Option, none, some, List, [], ◌∷◌, ◌++◌, ◌==◌, string_eq,
  nat_eq, ltb, if◌then◌else◌,
}
use kdevops_ng.Prelude.Lists.{length}

-- A line, by the expression that matches it: a `# Subtest:` header, a plan `1..N`, an `ok` or
-- `not ok` result, whose directive skips the test or not, or the suite's statistics.
pub data Line : Type 0 where
  subtest : ℕ → String → Line
  plan_line : ℕ → ℕ → Line
  result : ℕ → Bool → Bool → String → String → Line
  stats : String → ℕ → ℕ → ℕ → Line
  other : Line

pub data Status : Type 0 where
  passed failed notrun : Status

pub record Test : Type 0 where
  pub name : String
  pub status : Status
  pub message : String

pub record Summary : Type 0 where
  pub tests : List Test
  pub passed_count : ℕ
  pub failed_count : ℕ
  pub skipped_count : ℕ
  pub plan : Option ℕ
  pub complete : Bool
  pub report_present : Bool

unfoldable pub empty_summary : Summary
empty_summary = record {
  tests = [];
  passed_count = 0;
  failed_count = 0;
  skipped_count = 0;
  plan = none;
  complete = false;
  report_present = false;
}

-- The last header of the suite: its indent, and the lines after it.
unfoldable pub last_header : String → List Line → Option (ℕ × List Line)
last_header suite [] = none
last_header suite (subtest indent name ∷ lines) = elim (last_header suite lines) [
  | some found ↦ some found
  | none ↦ if name == suite then some (indent, lines) else none
]
last_header suite (_ ∷ lines) = last_header suite lines

-- A result at the suite's own indent. A skip counts as such whatever its verdict.
unfoldable pub add_result : Bool → Bool → String → String → Summary → Summary
add_result is_ok true name message s = record s {
  skipped_count = suc s.skipped_count;
  tests = s.tests ++ (record { name = name; status = notrun; message = message } ∷ []);
}
add_result true false name message s = record s {
  passed_count = suc s.passed_count;
  tests = s.tests ++ (record { name = name; status = passed; message = message } ∷ []);
}
add_result false false name message s = record s {
  failed_count = suc s.failed_count;
  tests = s.tests ++ (record { name = name; status = failed; message = message } ∷ []);
}

unfoldable pub take_plan : ℕ → ℕ → ℕ → Summary → Summary
take_plan sub_indent indent count s = elim s.plan [
  | some _ ↦ s
  | none ↦ if indent == sub_indent then record s { plan = some count } else s
]

-- The loop over the lines after the header: a result outside the suite's block ends it.
unfoldable pub scan : ℕ → List Line → Summary → Summary
scan sub_indent [] s = s
scan sub_indent (plan_line indent count ∷ lines) s =
    scan sub_indent lines (take_plan sub_indent indent count s)
scan sub_indent (result indent is_ok is_skip name message ∷ lines) s =
    if ltb indent sub_indent
    then s
    else scan sub_indent lines
        (if ltb sub_indent indent then s else add_result is_ok is_skip name message s)
scan sub_indent (subtest _ _ ∷ lines) s = scan sub_indent lines s
scan sub_indent (stats _ _ _ _ ∷ lines) s = scan sub_indent lines s
scan sub_indent (other ∷ lines) s = scan sub_indent lines s

agrees : Summary → ℕ → ℕ → ℕ → Bool
agrees s p f k = p == s.passed_count && (f == s.failed_count && k == s.skipped_count)

-- The last statistics line of the suite, where there is one, agrees with the counts.
unfoldable pub stats_ok : String → Summary → List Line → Bool → Bool
unfolding agrees
stats_ok suite s [] ok = ok
stats_ok suite s (stats name p f k ∷ lines) ok =
    stats_ok suite s lines (if name == suite then agrees s p f k else ok)
stats_ok suite s (_ ∷ lines) ok = stats_ok suite s lines ok

unfoldable pub planned : Summary → Bool
planned s = elim s.plan [ none ↦ false | some count ↦ length s.tests == count ]

-- The summary of the lines after a header.
unfoldable pub parse_after : String → ℕ → List Line → Summary
parse_after suite sub_indent lines =
    let s = scan sub_indent lines (record empty_summary { report_present = true }) in
    record s { complete = planned s && stats_ok suite s lines true }

unfoldable pub parse_ktap : List Line → String → Summary
parse_ktap lines suite = elim (last_header suite lines) [
  | none ↦ empty_summary
  | some (sub_indent, rest) ↦ parse_after suite sub_indent rest
]
