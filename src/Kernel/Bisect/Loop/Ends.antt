-- ===== src/Kernel/Bisect/Loop/Ends.antt =====
-- How many iterations the loop takes.
use kdevops_ng.Prelude.{String, ◌≡◌, ◌≢◌, Option, none, some}
use kdevops_ng.Kernel.Bisect.Report.{Floats}
use kdevops_ng.Kernel.Bisect.State.{Inputs, State, Git, Disk}
use kdevops_ng.Kernel.Bisect.Step.{StepResult}
use kdevops_ng.Kernel.Bisect.Step.Ready.{IsReady, Stands}

module _ {R : Type 0} {git : Git} {F : Floats R} {vm_name : String} {i : Inputs R}
    (ready : IsReady git F vm_name i) where
  abbrev pub Ends : Option StepResult × Disk R git → Type 0
  Ends after = (r : StepResult) × (after.0 ≡ some r) × (r.outcome ≢ none)

  -- A saved state, if there is one, stands beside a clone that has its commits.
  abbrev pub StandsOn : Option (State R) → Disk R git → Type 0
  StandsOn none d = Unit
  StandsOn (some s) d = Stands ready s d
