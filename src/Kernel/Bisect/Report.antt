-- ===== src/Kernel/Bisect/Report.antt =====
-- f/kernel/bisect_step.py: the verdict on a candidate, read from the reports on disk.
pub mod Newest
use kdevops_ng.Prelude.{
  ℕ, String, Bool, true, Option, none, some, List, [], ◌∷◌, ◌==◌, ◌!=◌, string_eq, option_eq, ltb,
  leb, if◌then◌else◌,
}

pub data Verdict : Type 0 where
  good bad skip : Verdict

-- What the step uses of Python's floats: 0, `+`, `>`, `==` and the truth value.
pub record Floats (R : Type 0) : Type 0 where
  pub zero : R
  pub add : R → R → R
  pub above : R → R → Bool
  pub is_set : R → Bool
  pub equal : R → R → Bool

-- A report's `status` and its items' `runtime` fields, none where the key is missing or null.
pub record Report (R : Type 0) : Type 0 where
  pub status : Option String
  pub items : List (Option R)

-- A report.json that is there; its text may not be a JSON object.
pub record ReportFile (R : Type 0) : Type 0 where
  pub mtime : ℕ
  pub body : Option (Report R)

module _ {R : Type 0} where
  unfoldable pub fresher : Option (ReportFile R) → ReportFile R → ReportFile R
  fresher none path = path
  fresher (some best) path = if ltb best.mtime path.mtime then path else best

  -- The loop over the candidate paths; a path that is no file is none.
  unfoldable pub newest :
      Option (ReportFile R) → List (Option (ReportFile R)) → Option (ReportFile R)
  newest best [] = best
  newest best (none ∷ paths) = newest best paths
  newest best (some path ∷ paths) = newest (some (fresher best path)) paths

module _ {R : Type 0} (F : Floats R) where
  open F use {zero, add, above, is_set}

  -- `sum((i.get("runtime") or 0) for i in items)`
  unfoldable pub total_runtime : R → List (Option R) → R
  total_runtime acc [] = acc
  total_runtime acc (none ∷ items) = total_runtime (add acc zero) items
  total_runtime acc (some runtime ∷ items) = total_runtime (add acc runtime) items

  unfoldable pub verdict_of : R → Report R → Verdict
  verdict_of max_runtime report =
      if report.status == some "untestable"
      then skip
      else if report.status != some "passed"
      then bad
      else if is_set max_runtime
      then (if above (total_runtime zero report.items) max_runtime then bad else good)
      else good

  judge_best : Option (ReportFile R) → ℕ → R → Option Verdict
  judge_best none decided_at max_runtime = none
  judge_best (some best) decided_at max_runtime =
      if leb best.mtime decided_at
      then none
      else elim best.body [ none ↦ none | some report ↦ some (verdict_of max_runtime report) ]

  unfoldable pub fresh_verdict : List (Option (ReportFile R)) → ℕ → R → Option Verdict
  unfolding judge_best
  fresh_verdict candidates decided_at max_runtime =
      judge_best (newest none candidates) decided_at max_runtime
