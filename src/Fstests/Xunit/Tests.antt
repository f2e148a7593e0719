-- ===== src/Fstests/Xunit/Tests.antt =====
-- A report of two passes over three tests.
use kdevops_ng.Prelude.{
  ◌+◌, String, ◌≡◌, refl, true, false, ◌&&◌, not, List, [], ◌∷◌, string_eq, nat_eq,
}
use kdevops_ng.Prelude.Lists.{sort_by, insert_by}
use kdevops_ng.Prelude.Dict.{lookup, insert, keys}
use kdevops_ng.Prelude.Words.{text_ltb}
use kdevops_ng.Fstests.Xunit.{
  failure, skipped, Case, count_up, note_failure, note_children, note_case, tally_cases,
  empty_tally, failed, notrun, passed, status_of, row_of, cases, summary_of, parse_xunit,
  section_passed, run_passed, unparseable,
}
use kdevops_ng.Fstests.Xunit.Passes.{passes_of, status_of_passes, status_of-passes}
use kdevops_ng.Fstests.Xunit.Totals.{clean_report, parse_xunit-totals, section_passed-clean_report}

abbrev clean : String → Case
clean name = record { name = name; children = [] }

abbrev broken : Case
broken = record { name = "xfs/003"; children = failure "bad output" "TestFail" ∷ [] }

abbrev left_out : Case
left_out = record { name = "xfs/001"; children = skipped ∷ [] }

abbrev two_passes : List Case
two_passes = left_out ∷ clean "xfs/002" ∷ broken ∷ left_out ∷ clean "xfs/002" ∷ clean "xfs/003" ∷ []

rows :
    (parse_xunit (cases two_passes)).per_test
    ≡ record { test = "xfs/003"; status = failed; runs = 2; fails = 1; message = "bad output" }
      ∷ record { test = "xfs/001"; status = notrun; runs = 2; fails = 0; message = "" }
      ∷ record { test = "xfs/002"; status = passed; runs = 2; fails = 0; message = "" }
      ∷ []
unfolding parse_xunit summary_of sort_by keys tally_cases note_case count_up insert string_eq
    insert_by row_of lookup note_children note_failure status_of nat_eq text_ltb
rows = refl

status_of-passes_example :
    status_of (tally_cases two_passes empty_tally) "xfs/003"
    ≡ status_of_passes (passes_of "xfs/003" two_passes)
status_of-passes_example = status_of-passes two_passes "xfs/003"

counts_add_up :
    (parse_xunit (cases two_passes)).tests
    ≡ (parse_xunit (cases two_passes)).passed_count
      + (parse_xunit (cases two_passes)).failed_count
      + (parse_xunit (cases two_passes)).skipped_count
counts_add_up = parse_xunit-totals (cases two_passes)

section_passed-clean_report_example :
    section_passed (cases two_passes) false false
    ≡ (clean_report (cases two_passes) && not false && not false)
section_passed-clean_report_example = section_passed-clean_report (cases two_passes) false false

-- A report that is cut off within its XML passes.
cut_off : run_passed (section_passed unparseable false false ∷ []) ≡ true
unfolding run_passed section_passed parse_xunit nat_eq
cut_off = refl
