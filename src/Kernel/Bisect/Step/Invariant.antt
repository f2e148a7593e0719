-- ===== src/Kernel/Bisect/Step/Invariant.antt =====
-- The step keeps state.json explained by its iterations, also where it raises.
use mathlib.Core.Option.{get_or, some-injective}
use mathlib.Core.Path.{subst}
use kdevops_ng.Prelude.{
  ℕ, String, ◌≡◌, refl, Option, none, some, ap, ◌∙◌, inl, inr, sym, Bool-cases, Option-cases,
  string_eq,
}
use kdevops_ng.Common.Json.{Fields}
use kdevops_ng.Kernel.Bisect.Report.{Floats, Verdict, skip, fresh_verdict}
use kdevops_ng.Kernel.Bisect.State.{Inputs, State, Git, Disk, Result, ok, err, continue, pure}
use kdevops_ng.Kernel.Bisect.State.{◌>>=◌}
use kdevops_ng.Kernel.Bisect.Step.Reset.{IfOk, IsFirst, reset-IsFirst_state}
use kdevops_ng.Kernel.Bisect.Step.{
  Observation, decide, advance, reset, next_state, first_state, is_stale, result_of, finish,
  check_arguments, step,
}
use kdevops_ng.Kernel.Bisect.Step.History.{
  Explained, IsExplained, noted, DiskExplained, decide-Explained, decide-saved, stamp-Explained,
  running_of_current,
}

module _ {R : Type 0} {git : Git} where
  -- The next state is explained, if there is one, and so is what state.json holds meanwhile.
  abbrev pub Sound : Result (State R) × Disk R git → Type 0
  Sound (r, d) = IfOk IsExplained r × DiskExplained d

  noted-Sound :
      (s : State R) (v : Verdict) (x : Result (State R) × Disk R git)
      → IfOk (λ t. IsExplained (noted s v t)) x.0
      → DiskExplained x.1
      → Sound (continue x (λ t. pure (noted s v t)))
  unfolding pure
  noted-Sound s v (ok t, d) h k = (h, k)
  noted-Sound s v (err e, d) h k = (tt, k)

  advance-Sound :
      (F : Floats R) (i : Inputs R) (seen : Observation R) (s : State R) (d : Disk R git)
      → d.saved ≡ some s
      → s.outcome ≡ none
      → IsExplained s
      → Sound (advance F i seen s d)
  unfolding advance
  advance-Sound F i seen s d stored run h =
      let v = get_or (fresh_verdict F seen.reports s.decided_at i.max_runtime) skip in
      noted-Sound s v (decide i v s.phase s d)
        (decide-Explained i v s.phase s d refl run (subst (λ o. Explained s.phase o s) run h))
        (λ t e.
          subst IsExplained
            (some-injective s t (sym stored ∙ sym (decide-saved i v s.phase s d) ∙ e)) h)

  first-Sound :
      (i : Inputs R) (x : Result (State R) × Disk R git)
      → IfOk (IsFirst i) x.0
      → x.1.saved ≡ none
      → Sound x
  unfolding first_state
  first-Sound i (ok t, d) (b, g, e) h = (subst IsExplained (sym e) (refl, refl, refl), λ s k. cc)
  first-Sound i (err e, d) p h = (tt, λ s k. cc)

  reset-Sound : (i : Inputs R) (d : Disk R git) → Sound (reset i d)
  reset-Sound i d = let (p, h) = reset-IsFirst_state i d in first-Sound i (reset i d) p h

  next_state-Sound :
      (F : Floats R) (i : Inputs R) (seen : Observation R) (o : Option (State R)) (d : Disk R git)
      → d.saved ≡ o
      → DiskExplained d
      → Sound (next_state F i seen o d)
  unfolding next_state
  next_state-Sound F i seen none d e h = reset-Sound i d
  next_state-Sound F i seen (some s) d e h = elim (Bool-cases (is_stale F i (some s))) [
    | inl stale ↦ rw stale (reset-Sound i d)
    | inr current ↦
        rw current (advance-Sound F i seen s d e (running_of_current F i s current) (h s e))
  ]

  result_of-disk : (s : State R) (o : Option Fields) (d : Disk R git) → (result_of s o d).1 ≡ d
  unfolding finish
  result_of-disk s none d = refl
  result_of-disk s (some b) d = refl

  pub finish-saved :
      (vm_name : String) (i : Inputs R) (now : ℕ) (s : State R) (d : Disk R git)
      → (finish vm_name i now s d).1.saved ≡ some (record s { decided_at = now })
  unfolding finish
  finish-saved vm_name i now s d =
      ap (λ (e : Disk R git). e.saved) (result_of-disk (record s { decided_at = now }) _ _)

  finish-Sound :
      (vm_name : String) (i : Inputs R) (now : ℕ) (x : Result (State R) × Disk R git)
      → Sound x
      → DiskExplained (continue x (finish vm_name i now)).1
  finish-Sound vm_name i now (ok s, d) (h, k) = λ t e.
      subst IsExplained
        (some-injective (record s { decided_at = now }) t
          (sym (finish-saved vm_name i now s d) ∙ e))
        (stamp-Explained now s.phase s.outcome s h)
  finish-Sound vm_name i now (err e, d) (h, k) = k

  -- Whatever the inputs, the reports and git's answers, an iteration leaves a state.json whose
  -- iterations explain it, also where the iteration raises, if they explained the one before.
  pub step-IsExplained :
      (F : Floats R) (vm_name : String) (i : Inputs R) (seen : Observation R) (d : Disk R git)
      → DiskExplained d
      → DiskExplained (step F vm_name i seen d).1
  unfolding step ◌>>=◌
  step-IsExplained F vm_name i seen d h = elim (Option-cases (check_arguments git vm_name i)) [
    | inl accepted ↦
        rw (accepted, step)
          (finish-Sound vm_name i seen.now (next_state F i seen d.saved d)
            (next_state-Sound F i seen d.saved d refl h))
    | inr (e, refused) ↦ rw (refused, step) h
  ]
