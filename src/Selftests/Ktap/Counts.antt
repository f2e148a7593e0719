-- ===== src/Selftests/Ktap/Counts.antt =====
-- What the counts of a summary are.
use kdevops_ng.Prelude.{
  ℕ, ◌+◌, ◌≡◌, Bool, true, false, some, List, [], ◌∷◌, nat_eq, string_eq, arith,
}
use kdevops_ng.Prelude.Lists.{length, keep, length-append}
use kdevops_ng.Selftests.Ktap.{
  Line, header, plan_line, totals_line, result, other, Status, passed, failed, notrun, Summary,
  status_of, count_status, add_result, first_plan, add_line, add_lines,
}

-- The statuses of the results among lines.
abbrev pub results_of : List Line → List Status
results_of [] = []
results_of (result is_ok directive _ _ ∷ lines) = status_of is_ok directive ∷ results_of lines
results_of (header ∷ lines) = results_of lines
results_of (plan_line _ ∷ lines) = results_of lines
results_of (totals_line _ ∷ lines) = results_of lines
results_of (other ∷ lines) = results_of lines

abbrev pub is_passed : Status → Bool
is_passed passed = true
is_passed failed = false
is_passed notrun = false

abbrev pub is_failed : Status → Bool
is_failed passed = false
is_failed failed = true
is_failed notrun = false

abbrev pub is_notrun : Status → Bool
is_notrun passed = false
is_notrun failed = false
is_notrun notrun = true

-- The counts of a summary are those before the lines and those of their results.
pub record Counts (s : Summary) (tests passes fails skips : ℕ) (results : List Status)
    : Type 0 where
  pub all_tests : length s.tests ≡ tests + length results
  pub passed_ones : s.passed_count ≡ passes + length (keep is_passed results)
  pub failed_ones : s.failed_count ≡ fails + length (keep is_failed results)
  pub skipped_ones : s.skipped_count ≡ skips + length (keep is_notrun results)

counted :
    (st : Status) (rest : List Status) (b s : Summary) (n : ℕ)
    → n ≡ length b.tests + 1
    → Counts s n
        (count_status st b).passed_count
        (count_status st b).failed_count
        (count_status st b).skipped_count
        rest
    → Counts s (length b.tests) b.passed_count b.failed_count b.skipped_count (st ∷ rest)
unfolding count_status
counted passed rest b s n one h = record {
  all_tests = omega (arith, one, h.all_tests);
  passed_ones = omega (arith, h.passed_ones);
  failed_ones = omega (arith, h.failed_ones);
  skipped_ones = omega (arith, h.skipped_ones);
}
counted failed rest b s n one h = record {
  all_tests = omega (arith, one, h.all_tests);
  passed_ones = omega (arith, h.passed_ones);
  failed_ones = omega (arith, h.failed_ones);
  skipped_ones = omega (arith, h.skipped_ones);
}
counted notrun rest b s n one h = record {
  all_tests = omega (arith, one, h.all_tests);
  passed_ones = omega (arith, h.passed_ones);
  failed_ones = omega (arith, h.failed_ones);
  skipped_ones = omega (arith, h.skipped_ones);
}

pub add_lines-Counts :
    (lines : List Line) (b : Summary)
    → Counts
        (add_lines lines b)
        (length b.tests)
        b.passed_count
        b.failed_count
        b.skipped_count
        (results_of lines)
unfolding add_lines add_line add_result
add_lines-Counts [] b = record {
  all_tests = omega arith;
  passed_ones = omega arith;
  failed_ones = omega arith;
  skipped_ones = omega arith;
}
add_lines-Counts (header ∷ lines) b = add_lines-Counts lines b
add_lines-Counts (plan_line n ∷ lines) b =
    add_lines-Counts lines (record b { plan = first_plan b.plan n })
add_lines-Counts (totals_line t ∷ lines) b = add_lines-Counts lines (record b { totals = some t })
add_lines-Counts (result is_ok directive collection test ∷ lines) b =
    counted (status_of is_ok directive) (results_of lines) b _ _ (length-append b.tests _)
      (add_lines-Counts lines (add_result is_ok directive collection test b))
add_lines-Counts (other ∷ lines) b = add_lines-Counts lines b
