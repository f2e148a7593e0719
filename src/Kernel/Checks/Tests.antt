-- ===== src/Kernel/Checks/Tests.antt =====
-- A sparse run with a finding that is reported twice.
use kdevops_ng.Prelude.{
  String, ◌≡◌, ◌↔◌, refl, false, ◌||◌, Option, none, some, List, [], ◌∷◌, string_eq, nat_eq,
  option_eq,
}
use kdevops_ng.Prelude.Lists.{any, All}
use kdevops_ng.Prelude.Words.{strip, lstrip, rstrip, rstrip_char}
use kdevops_ng.Common.Gitrefs.{strip_prefix}
use kdevops_ng.Kernel.Checks.{
  Finding, drop_dots, below_root, worktree_path, finding_of, collect_findings, diagnostics,
  has_level, result,
}
use kdevops_ng.Kernel.Checks.Paths.{worktree_path-same}
use kdevops_ng.Kernel.Checks.Findings.{
  Once, Reports, findings_of, IsOneOf, diagnostics-Once, result-passed,
}

abbrev warning : String → Finding
warning file = record { file = file; line = some 4; level = "warning"; message = " shadowed " }

abbrev lines : List (Option Finding)
lines = some (warning "../lib/xarray.c") ∷ none ∷ some (warning "/w/linux/lib/xarray.c") ∷ []

one_warning :
    diagnostics lines "/w/linux/"
    ≡ record { file = "lib/xarray.c"; line = some 4; level = "warning"; message = "shadowed" } ∷ []
unfolding diagnostics collect_findings string_eq finding_of worktree_path drop_dots below_root
    strip_prefix rstrip_char nat_eq option_eq strip rstrip lstrip
one_warning = refl

one_file :
    (worktree_path "../lib/xarray.c" "/w/linux/" ≡ "lib/xarray.c")
    × (worktree_path "/w/linux/lib/xarray.c" "/w/linux/" ≡ "lib/xarray.c")
unfolding drop_dots nat_eq strip_prefix rstrip_char string_eq
one_file = worktree_path-same "/w/linux/" "lib/xarray.c" (λ e. cc) refl refl

diagnostics-Once_example :
    Once (diagnostics lines "/w/linux/")
    × Reports "/w/linux/" (diagnostics lines "/w/linux/") lines
    × All (IsOneOf (findings_of "/w/linux/" lines)) (diagnostics lines "/w/linux/")
diagnostics-Once_example = diagnostics-Once lines "/w/linux/"

warned_passes :
    ((result "sparse" (warning "a.c" ∷ []) false).status ≡ "passed")
    ↔ ((any (has_level "error") (warning "a.c" ∷ []) || false) ≡ false)
warned_passes = result-passed "sparse" (warning "a.c" ∷ []) false
