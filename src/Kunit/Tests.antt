-- ===== src/Kunit/Tests.antt =====
-- A journal of a suite of two tests, whole and cut short.
use kdevops_ng.Prelude.{◌≡◌, refl, ◌+◌, ◌++◌, true, false, some, List, [], ◌∷◌, string_eq, nat_eq}
use kdevops_ng.Prelude.Lists.{length}
use kdevops_ng.Kunit.Ktap.{
  Line, subtest, plan_line, result, stats, other, empty_summary, last_header, add_result, take_plan,
  scan, stats_ok, planned, parse_after, parse_ktap,
}
use kdevops_ng.Kunit.Ktap.Complete.{parse_ktap-append, parse_ktap-complete}

abbrev whole : List Line
whole =
    other
    ∷ subtest 4 "list"
    ∷ plan_line 4 2
    ∷ result 4 true false "add" ""
    ∷ result 8 false false "param" ""
    ∷ result 4 true true "del" "SKIP"
    ∷ []

abbrev tail : List Line
tail = stats "list" 1 0 1 ∷ result 0 true false "list" "" ∷ result 4 false false "later" "" ∷ []

parse_ktap-append_example :
    (parse_ktap (whole ++ tail) "list").tests ≡ (parse_ktap whole "list").tests
unfolding parse_ktap last_header string_eq parse_after scan take_plan add_result planned stats_ok
    empty_summary nat_eq
parse_ktap-append_example = parse_ktap-append whole tail "list" refl refl refl

parse_ktap-complete_example :
    let s = parse_ktap whole "list" in
    (s.plan ≡ some (length s.tests))
    × (length s.tests ≡ s.passed_count + s.failed_count + s.skipped_count)
unfolding parse_ktap last_header string_eq parse_after scan take_plan add_result planned stats_ok
    empty_summary nat_eq
parse_ktap-complete_example = parse_ktap-complete whole "list" refl

cut_short :
    (parse_ktap
      (subtest 4 "list" ∷ plan_line 4 2 ∷ result 4 true false "add" "" ∷ [])
      "list").complete
    ≡ false
unfolding parse_ktap last_header string_eq parse_after scan take_plan add_result planned stats_ok
    empty_summary nat_eq
cut_short = refl
