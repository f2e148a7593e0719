-- ===== src/Selftests/Ktap/Tests.antt =====
-- A journal with one run of two tests, after a truncated one.
use kdevops_ng.Prelude.{◌≡◌, refl, true, false, none, List, [], ◌∷◌, nat_eq, string_eq}
use kdevops_ng.Selftests.Ktap.{
  bare, skip, Line, header, plan_line, totals_line, result, other, passed, failed, empty_summary,
  after_header, status_of, count_status, add_result, add_line, add_lines, totals_ok, is_planned,
  finish, parse_ktap, Ending, plumbing_ok, crash_count, crash_fails, verdict, collect,
}
use kdevops_ng.Selftests.Ktap.Verdict.{Sound, collect-Sound}

abbrev ending : Ending
ending = record {
  result = "done";
  exec_status = "";
  crashed = false;
  timed_out = false;
  user_crashes = "app[7]: segfault at 0" ∷ [];
  user_crash_count = none;
  fail_on_user_crash = false;
}

abbrev journal : List Line
journal =
    header
    ∷ plan_line 9
    ∷ header
    ∷ other
    ∷ plan_line 2
    ∷ result true (skip "# SKIP") "net" "a.sh"
    ∷ result true bare "net" "b.sh"
    ∷ totals_line (record { passed = 1; failed = 0; xfail = 0; xpass = 0; skipped = 1; error = 0 })
    ∷ []

collect_passed : collect ending journal ≡ passed
unfolding collect verdict plumbing_ok string_eq parse_ktap after_header finish is_planned add_lines
    add_line add_result count_status status_of empty_summary nat_eq totals_ok crash_fails
    crash_count
collect_passed = refl

collect-Sound_example : Sound ending journal
collect-Sound_example = collect-Sound ending journal collect_passed

-- The crash of a user's program fails the item where it is asked to.
collect_crash : collect (record ending { fail_on_user_crash = true }) journal ≡ failed
unfolding collect verdict plumbing_ok string_eq parse_ktap after_header finish is_planned add_lines
    add_line add_result count_status status_of empty_summary nat_eq totals_ok crash_fails
    crash_count
collect_crash = refl
