-- ===== src/Kernel/Bisect/Loop.antt =====
-- The while loop of f/kernel/bisect.flow/flow.yaml: step until a step reports `done`.
pub mod Ends
use kdevops_ng.Prelude.{String, Option, none, some, List, [], ◌∷◌, if◌then◌else◌}
use kdevops_ng.Kernel.Bisect.Report.{Floats}
use kdevops_ng.Kernel.Bisect.State.{Inputs, Git, Disk, Result, ok, err}
use kdevops_ng.Kernel.Bisect.Step.{Observation, StepResult, step}

module _ {R : Type 0} {git : Git} (F : Floats R) (vm_name : String) (i : Inputs R) where
  -- One observation for each iteration: what its payload has left, and when it steps. An
  -- iteration that raises is skipped (`skip_failures`). None if the loop still runs at the end.
  unfoldable pub run : List (Observation R) → Disk R git → Option StepResult × Disk R git
  run [] d = (none, d)
  run (seen ∷ later) d =
      let (result, d') = step F vm_name i seen d in
      let goes_on = run later d' in
      elim result [ err e ↦ goes_on | ok r ↦ if r.done then (some r, d') else goes_on ]
