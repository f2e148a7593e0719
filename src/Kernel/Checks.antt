-- ===== src/Kernel/Checks.antt =====
-- f/kernel/checks.py: the findings of a check, its counts and its verdict. Lines come sorted by the
-- tools' regular expressions.
pub mod Paths
pub mod Findings
mod Tests
use Prim.Native.Char.{code}
use kdevops_ng.Prelude.{
  ℕ, ◌+◌, String, ◌<>◌, Bool, true, false, ◌&&◌, ◌||◌, not, Option, none, some, List, [], ◌∷◌, ◌++◌,
  map, ◌==◌, ◌!=◌, string_eq, nat_eq, option_eq, contains, if◌then◌else◌,
}
use kdevops_ng.Prelude.Lists.{length, take, keep, any}
use kdevops_ng.Prelude.Words.{rstrip_char, strip}
use kdevops_ng.Common.Gitrefs.{strip_prefix}

abbrev pub max_findings : ℕ
max_findings = 100

pub record Finding : Type 0 where
  pub file : String
  pub line : Option ℕ
  pub level : String
  pub message : String

-- The loop that drops leading `../` and `./`.
unfoldable pub drop_dots : String → String
drop_dots String.[] = ""
drop_dots (String.◌∷◌ c String.[]) = String.◌∷◌ c ""
drop_dots (String.◌∷◌ c (String.◌∷◌ d String.[])) =
    if code c == b'.' && code d == b'/' then "" else String.◌∷◌ c (String.◌∷◌ d "")
drop_dots (String.◌∷◌ c (String.◌∷◌ d (String.◌∷◌ e s))) =
    let after_two = drop_dots (String.◌∷◌ e s) in
    let after_three = drop_dots s in
    if code c == b'.' && code d == b'/'
    then after_two
    else if code c == b'.' && code d == b'.' && code e == b'/'
    then after_three
    else String.◌∷◌ c (String.◌∷◌ d (String.◌∷◌ e s))

unfoldable pub below_root : String → String → String
below_root path worktree = elim (strip_prefix (rstrip_char b'/' worktree <> "/") path) [
  | none ↦ path
  | some rest ↦ rest
]

unfoldable pub worktree_path : String → String → String
worktree_path path worktree = drop_dots (if worktree == "" then path else below_root path worktree)

-- A match of the shared form `file:line: level:`.
unfoldable pub finding_of : String → Finding → Finding
finding_of worktree m = record m { file = worktree_path m.file worktree; message = strip m.message }

abbrev pub same_finding : Finding → Finding → Bool
same_finding a b =
    a.file == b.file && a.line == b.line && a.level == b.level && a.message == b.message

-- Each finding once, in the order of its first line.
unfoldable pub collect_findings : String → List Finding → List (Option Finding) → List Finding
collect_findings worktree found [] = found
collect_findings worktree found (none ∷ lines) = collect_findings worktree found lines
collect_findings worktree found (some m ∷ lines) =
    let finding = finding_of worktree m in
    collect_findings worktree
      (if any (same_finding finding) found then found else found ++ (finding ∷ [])) lines

unfoldable pub diagnostics : List (Option Finding) → String → List Finding
diagnostics lines worktree = collect_findings worktree [] lines

unfoldable pub in_files : List Finding → List String → List Finding
in_files findings files = keep (λ f. contains files f.file) findings

pub record Counts : Type 0 where
  pub errors : ℕ
  pub warnings : ℕ
  pub checks : ℕ

abbrev pub has_level : String → Finding → Bool
has_level level f = f.level == level

unfoldable pub counts : List Finding → Counts
counts findings = record {
  errors = length (keep (has_level "error") findings);
  warnings = length (keep (has_level "warning") findings);
  checks = length (keep (has_level "check") findings);
}

unfoldable pub status : ℕ → Bool → String
status errors failed = if errors != 0 || failed then "failed" else "passed"

pub record Result : Type 0 where
  pub check : String
  pub status : String
  pub tally : Counts
  pub findings : List Finding

unfoldable pub result : String → List Finding → Bool → Result
result check findings failed = record {
  check = check;
  status = status (counts findings).errors failed;
  tally = counts findings;
  findings = take max_findings findings;
}

-- A step's result as the flow holds it: none where the step did not run, an error object where it
-- raised, or a result with its status.
pub data Held : Type 0 where
  nothing : Held
  raised : Held
  returned : Result → Held

unfoldable pub outcome : Held → String
outcome nothing = "not run"
outcome raised = "error"
outcome (returned r) = r.status
