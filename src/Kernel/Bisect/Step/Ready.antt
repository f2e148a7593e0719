-- ===== src/Kernel/Bisect/Step/Ready.antt =====
-- Where git's commands succeed on a clone and both refs resolve in it, no iteration raises.
use mathlib.Core.Path.{subst}
use kdevops_ng.Prelude.{
  ℕ, String, ◌≡◌, refl, ◌≢◌, ◌⊎◌, ◌<>◌, sym, true, false, Option, none, some, ◌∙◌, ap, inl, inr,
  Option-cases, string_eq, list_eq,
}
use kdevops_ng.Common.Json.{same}
use kdevops_ng.Kernel.Bisect.Report.{Floats, Verdict}
use kdevops_ng.Kernel.Bisect.Bringup.{bringup_args}
use kdevops_ng.Kernel.Bisect.State.{Inputs, State, Git, Disk, ok, ◌>>=◌}
use kdevops_ng.Kernel.Bisect.Step.{
  Observation, StepResult, advance, reset, next_state, is_stale, is_some, finish, result_of,
  check_inputs, check_arguments, state_dir, step,
}
use kdevops_ng.Kernel.Bisect.Step.Reset.{reset_any}
use kdevops_ng.Kernel.Bisect.Step.Progress.{Closer, Works, advance-Closer}
use kdevops_ng.Kernel.Bisect.Step.Yields.{
  Succeeds, Started, Yields, bind-Yields, on_repo-Yields, resolve-Yields, fresh_clone-Yields,
  first_state-Yields, returned,
}

-- What a run needs of git, of the names, of the pasted guest and of the numbers: the state directory
-- is below its root; a clone can be made, both refs name a commit of it, or of its origin, and the
-- commands succeed on a clone and its commits; the guest has the shape of a bringup's inputs; and
-- equality is reflexive.
pub record IsReady {R : Type 0} (git : Git) (F : Floats R) (vm_name : String) (i : Inputs R)
    : Type 1 where
  pub accepted : check_inputs i ≡ none
  pub inside : git.is_inside vm_name ≡ true
  pub IsClone : git.Repo → Type 0
  pub IsCommit : String → Type 0
  pub clones : Succeeds IsClone git.clone
  pub commits :
      (r : git.Repo) (ref : String)
      → IsClone r
      → git.rev_parse r ref ≢ ""
      → IsCommit (git.rev_parse r ref)
  pub bad_resolves :
      (r : git.Repo)
      → IsClone r
      → (git.rev_parse r i.bad ≢ "") ⊎ (git.rev_parse r ("origin/" <> i.bad) ≢ "")
  pub good_resolves :
      (r : git.Repo)
      → IsClone r
      → (git.rev_parse r i.good ≢ "") ⊎ (git.rev_parse r ("origin/" <> i.good) ≢ "")
  pub updates :
      (r : git.Repo) (sha : String)
      → IsClone r
      → IsCommit sha
      → Succeeds IsClone (git.update_ref r sha)
  pub links : (r : git.Repo) → IsClone r → Succeeds IsClone (git.symbolic_ref r)
  pub starts :
      (r : git.Repo) (b g : String)
      → IsClone r
      → IsCommit b
      → IsCommit g
      → Succeeds IsClone (git.bisect_start r b g)
  pub feeds :
      (r : git.Repo) (v : Verdict) (c : String) → IsClone r → IsClone (git.bisect_feed r v c).1
  pub boots :
      (c : String)
      → bringup_args c vm_name i.payload i.suites i.compiler i.make_flags i.guest ≢ none
  pub same_runtime : F.equal i.max_runtime i.max_runtime ≡ true
  pub same_guest : same i.guest i.guest ≡ true

module _ {R : Type 0} {git : Git} {F : Floats R} {vm_name : String} {i : Inputs R}
    (ready : IsReady git F vm_name i) where
  checked : check_arguments git vm_name i ≡ none
  unfolding check_arguments state_dir
  checked = rw (ready.accepted, check_arguments) (rw (ready.inside, state_dir) refl)

  reset-Yields : Yields ready.IsClone (Started ready.IsCommit i) (reset {R = R} {git = git} i)
  unfolding reset
  reset-Yields =
      let C = ready.IsClone in
      bind-Yields C (fresh_clone-Yields C ready.clones) λ _ _.
        bind-Yields C (resolve-Yields C ready.IsCommit i.bad ready.commits ready.bad_resolves)
          λ b hb.
            bind-Yields C
              (on_repo-Yields C (λ repo. git.update_ref repo b) (λ r c. ready.updates r b c hb))
              λ _ _. bind-Yields C (on_repo-Yields C git.symbolic_ref ready.links) λ _ _.
                bind-Yields C
                  (resolve-Yields C ready.IsCommit i.good ready.commits ready.good_resolves)
                  λ g hg. first_state-Yields C ready.IsCommit i b g hb hg

  -- A state stands beside a clone that has its commits.
  pub record Stands (s : State R) (d : Disk R git) : Type 0 where
    pub clone : ready.IsClone d.repo
    pub bad_commit : ready.IsCommit s.bad_sha
    pub good_commit : ready.IsCommit s.good_sha

  -- What an iteration does where none raises: it saves a state beside a clone and reports its outcome.
  abbrev pub Stepped : (State R → Type 0) → Observation R → Disk R git → Type 0
  Stepped P seen d =
      (t : State R) × (r : StepResult) × ((step F vm_name i seen d).0 ≡ ok r)
      × ((step F vm_name i seen d).1.saved ≡ some (record t { decided_at = seen.now }))
      × (r.outcome ≡ t.outcome)
      × (r.done ≡ is_some t.outcome)
      × ready.IsClone (step F vm_name i seen d).1.repo
      × P t

  -- What `finish` reports of a state.
  finish-result :
      (now : ℕ) (t : State R) (d : Disk R git)
      → (r : StepResult) × ((finish vm_name i now t d).0 ≡ ok r)
        × ((finish vm_name i now t d).1.saved ≡ some (record t { decided_at = now }))
        × (r.outcome ≡ t.outcome)
        × (r.done ≡ is_some t.outcome)
        × ((finish vm_name i now t d).1.repo ≡ d.repo)
  unfolding finish
  finish-result now t d =
      elim (Option-cases
        (bringup_args t.candidate vm_name i.payload i.suites i.compiler i.make_flags i.guest)) [
          | inl none_fits ↦ absurd (ready.boots t.candidate none_fits)
          | inr (b, e) ↦ rw (e, result_of) (_, refl, refl, refl, refl, refl)
        ]

  next-Stepped :
      (P : State R → Type 0) (seen : Observation R) (d : Disk R git) (t : State R) (d' : Disk R git)
      → next_state F i seen d.saved d ≡ (ok t, d')
      → ready.IsClone d'.repo
      → P t
      → Stepped P seen d
  unfolding step ◌>>=◌
  next-Stepped P seen d t d' e c p =
      let (r, fine, saved, outcome, done, same) = finish-result seen.now t d' in
      rw (checked, step, e) (t, r, fine, saved, outcome, done, subst ready.IsClone (sym same) c, p)

  next_state-stale :
      (seen : Observation R) (o : Option (State R)) (d : Disk R git)
      → is_stale F i o ≡ true
      → next_state F i seen o d ≡ reset i d
  unfolding next_state
  next_state-stale seen none d h = refl
  next_state-stale seen (some s) d h = rw h

  pub step-reset :
      (seen : Observation R) (d : Disk R git)
      → is_stale F i d.saved ≡ true
      → Stepped (Started ready.IsCommit i) seen d
  step-reset seen d stale =
      let P = Started ready.IsCommit i in
      let (repo, made, clone) = ready.clones in
      let e : Disk R git = record { saved = none; repo = repo } in
      let (t, d', reset_to, first, left) =
        returned ready.IsClone P (reset i e) (reset-Yields.run e clone) in
      next-Stepped P seen d t d'
        (next_state-stale seen d.saved d stale ∙ reset_any i d e ∙ reset_to) left first

  next_state-current :
      (seen : Observation R) (s : State R) (d : Disk R git)
      → is_stale F i (some s) ≡ false
      → next_state F i seen (some s) d ≡ advance F i seen s d
  unfolding next_state
  next_state-current seen s d h = rw h

  pub step-advance :
      (seen : Observation R) (d : Disk R git) (s : State R)
      → d.saved ≡ some s
      → Stands s d
      → is_stale F i (some s) ≡ false
      → Stepped (Closer i.max_steps s) seen d
  step-advance seen d s stored stands current =
      let works : Works git ready.IsClone s = record {
        starts = λ r c. ready.starts r s.bad_sha s.good_sha c stands.bad_commit stands.good_commit;
        feeds = ready.feeds;
      } in
      let (t, d', e, closer, left) =
        advance-Closer {git = git} ready.IsClone F i seen s d works stands.clone in
      next-Stepped (Closer i.max_steps s) seen d t d'
        (ap (λ o. next_state F i seen o d) stored ∙ next_state-current seen s d current ∙ e) left
        closer
