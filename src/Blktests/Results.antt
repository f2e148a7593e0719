-- ===== src/Blktests/Results.antt =====
-- f/blktests/common.py, collect.py and judge.py: from the wait and the result rows of each group
-- to the verdict on the run.
pub mod Verdict
use kdevops_ng.Prelude.{
  String, Bool, true, false, not, ◌||◌, Option, none, some, List, [], ◌∷◌, map, ◌==◌, string_eq,
  contains, if◌then◌else◌,
}
use kdevops_ng.Prelude.Lists.{any, all}
use kdevops_ng.Blktests.Wait.{Waited}

pub data Status : Type 0 where
  passed failed notrun : Status

-- The states of a result row that fail no group; a file that is cut off reads as `missing`.
abbrev pub harmless : List String
harmless = "pass" ∷ "not run" ∷ []

rows_status : List String → Status
rows_status [] = notrun
rows_status (row ∷ rows) =
    if any (λ s. not (contains harmless s)) (row ∷ rows)
    then failed
    else if all (λ s. s == "not run") (row ∷ rows)
    then notrun
    else passed

-- A group's verdict from the statuses of its rows and from its run.
unfoldable pub group_status : List String → Bool → Bool → Bool → Status
unfolding rows_status
group_status rows unit_ok crashed timed_out =
    if crashed || timed_out || not unit_ok then failed else rows_status rows

-- A group as the flow ran it: its wait, and the rows that its run left. A `collect` gives its
-- verdict; `unit_ok` is the flow's `results.wait.result === 'success'`.
pub record Group : Type 0 where
  pub waited : Waited
  pub rows : List String

unfoldable pub collect : Group → Status
collect g = group_status g.rows (g.waited.result == "success") g.waited.crashed g.waited.timed_out

abbrev pub is_passed : Option Status → Bool
is_passed (some passed) = true
is_passed _ = false

-- An entry of a step that failed has no status.
unfoldable pub run_status : List (Option Status) → Status
run_status [] = failed
run_status (g ∷ groups) = if all is_passed (g ∷ groups) then passed else failed
