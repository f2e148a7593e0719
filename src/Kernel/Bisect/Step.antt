-- ===== src/Kernel/Bisect/Step.antt =====
-- f/kernel/bisect_step.py: `main`, one iteration of the bisect, on the state directory.
pub mod Reset
pub mod History
pub mod Invariant
pub mod Progress
pub mod Yields
pub mod Ready
use mathlib.Core.Option.{get_or}
use kdevops_ng.Prelude.{
  ℕ, ◌+◌, String, Bool, true, false, ◌||◌, Option, none, some, List, [], ◌∷◌, ◌++◌, ◌<>◌, not, ◌==◌,
  ◌!=◌, string_eq, list_eq, contains, leb, if◌then◌else◌,
}
use kdevops_ng.Prelude.Lists.{all}
use kdevops_ng.Prelude.Words.{contains_text, words}
use kdevops_ng.Common.Json.{obj, Fields, end, same}
use kdevops_ng.Kernel.Bisect.Report.{Floats, ReportFile, Verdict, good, bad, skip, fresh_verdict}
use kdevops_ng.Kernel.Bisect.Bringup.{bringup_args}
use kdevops_ng.Kernel.Bisect.Dicts.{guest_ok}
use kdevops_ng.Kernel.Bisect.State.{
  Phase, verify_bad, verify_good, bisect, Outcome, not_reproducible_standalone, endpoint_untestable,
  good_endpoint_failed, inconclusive, first_bad_found, max_steps_exceeded, Iteration, Inputs, State,
  Git, Error, bad_guest, no_suites, unknown_payload, unknown_harness, unresolved, outside,
  bad_inputs, ok, err, Exec, pure, raise, on_repo, ◌>>=◌, ◌>>◌,
}

abbrev pub payloads : List String
payloads = "kunit" ∷ "selftests" ∷ "runtime_tests" ∷ "usertests" ∷ "usertests_build" ∷ []

-- The keys of `CATALOG` in f/kernel/build_usertests.py.
abbrev pub catalog : List String
catalog = "radix-tree" ∷ "vma" ∷ "memblock" ∷ "scatterlist" ∷ []

-- What an iteration sees of the world: the candidate report files and the time.
pub record Observation (R : Type 0) : Type 0 where
  pub reports : List (Option (ReportFile R))
  pub now : ℕ

pub record StepResult : Type 0 where
  pub done : Bool
  pub phase : Phase
  pub candidate : String
  pub outcome : Option Outcome
  pub steps : ℕ
  pub bringup : Fields

first_word : List String → String
first_word [] = ""
first_word (w ∷ ws) = w

abbrev pub is_some : {A : Type 0} → Option A → Bool
is_some none = false
is_some (some _) = true

-- The checks that `main` makes of its arguments before it looks for the state directory.
unfoldable pub check_inputs : {R : Type 0} → Inputs R → Option Error
check_inputs i =
    if not (guest_ok i.guest)
    then some bad_guest
    else if i.suites == []
    then some no_suites
    else if not (contains payloads i.payload)
    then some unknown_payload
    else if i.payload == "usertests_build"
    then (if all (contains catalog) i.suites then none else some unknown_harness)
    else none

-- `_state_dir`: whether the directory of the VM's name is below the root.
unfoldable pub state_dir : Git → String → Option Error
state_dir git vm_name = if git.is_inside vm_name then none else some (outside vm_name)

-- The raises of `main` before it looks at the disk.
unfoldable pub check_arguments : {R : Type 0} → Git → String → Inputs R → Option Error
check_arguments git vm_name i = elim (check_inputs i) [
  | some e ↦ some e
  | none ↦ state_dir git vm_name
]

module _ {R : Type 0} (F : Floats R) where
  -- The saved state is of another run, or of one that has concluded. The guest of the inputs is past
  -- `guest or {}`.
  unfoldable pub is_stale : Inputs R → Option (State R) → Bool
  is_stale i none = true
  is_stale i (some s) =
      s.good != i.good
      || s.bad != i.bad
      || s.suites != i.suites
      || get_or s.payload "kunit" != i.payload
      || get_or s.error_re "" != i.error_re
      || not (F.equal (get_or s.max_runtime F.zero) i.max_runtime)
      || not (same (get_or s.guest (obj end)) i.guest)
      || is_some s.outcome

module _ {R : Type 0} where
  unfoldable pub first_state : Inputs R → String → String → State R
  first_state i bad_sha good_sha = record {
    good = i.good;
    bad = i.bad;
    suites = i.suites;
    payload = some i.payload;
    error_re = some i.error_re;
    max_runtime = some i.max_runtime;
    guest = some i.guest;
    good_sha = good_sha;
    bad_sha = bad_sha;
    phase = verify_bad;
    candidate = bad_sha;
    decided_at = 0;
    steps = 0;
    iterations = [];
    outcome = none;
    first_bad = none;
  }

  conclude : Outcome → State R → State R
  conclude outcome s = record s { outcome = some outcome }

  start_bisect : State R → String → State R
  start_bisect s head =
      if head != "" then record s { phase = bisect; candidate = head } else conclude inconclusive s

  -- After one bisect step was counted: git's answer, and the next commit it names.
  unfoldable pub after_feed : ℕ → String → String → State R → State R
  unfolding conclude first_word
  after_feed max_steps out head s =
      if contains_text "is the first bad commit" out
      then record s { outcome = some first_bad_found; first_bad = some (first_word (words out)) }
      else if head == ""
      then conclude inconclusive s
      else if leb max_steps s.steps
      then conclude max_steps_exceeded s
      else record s { candidate = head }

module _ {R : Type 0} {git : Git} where
  open git use {Repo, rev_parse}

  -- `_resolve`: the ref, or the ref of the clone's origin.
  unfoldable pub resolve : String → Exec R git String
  resolve ref d =
      let direct = rev_parse d.repo ref in
      let remote = rev_parse d.repo ("origin/" <> ref) in
      if direct != ""
      then (ok direct, d)
      else if remote != ""
      then (ok remote, d)
      else (err (unresolved ref), d)

  -- `shutil.rmtree`, then `git clone`
  unfoldable pub fresh_clone : Exec R git (Unit {0})
  unfolding on_repo
  fresh_clone d = on_repo (λ _. git.clone) (record { saved = none; repo = git.absent })

  -- The branch `if stale`.
  unfoldable pub reset : Inputs R → Exec R git (State R)
  reset i = do
    fresh_clone
    bad_sha ← resolve i.bad
    on_repo (λ repo. git.update_ref repo bad_sha)
    on_repo git.symbolic_ref
    good_sha ← resolve i.good
    pure (first_state i bad_sha good_sha)

  read_head : Exec R git String
  read_head d = (ok (git.bisect_head d.repo), d)

  feed : Verdict → String → Exec R git String
  feed verdict sha d =
      let (out, repo) = git.bisect_feed d.repo verdict sha in (ok out, record d { repo = repo })

  -- The decision on the previous candidate, by the phase.
  unfoldable pub decide : Inputs R → Verdict → Phase → State R → Exec R git (State R)
  unfolding conclude read_head feed start_bisect after_feed ◌>>=◌
  decide i good verify_bad s = pure (conclude not_reproducible_standalone s)
  decide i bad verify_bad s = pure (record s { phase = verify_good; candidate = s.good_sha })
  decide i skip verify_bad s = pure (conclude endpoint_untestable s)
  decide i good verify_good s = do
    on_repo (λ repo. git.bisect_start repo s.bad_sha s.good_sha)
    head ← read_head
    pure (start_bisect s head)
  decide i bad verify_good s = pure (conclude good_endpoint_failed s)
  decide i skip verify_good s = pure (conclude endpoint_untestable s)
  decide i verdict bisect s = do
    out ← feed verdict s.candidate
    head ← read_head
    pure (after_feed i.max_steps out head (record s { steps = s.steps + 1 }))

  save : State R → Exec R git (Unit {0})
  save s d = (ok tt, record d { saved = some s })

  result_of : State R → Option Fields → Exec R git StepResult
  result_of s none = raise bad_inputs
  result_of s (some bringup) = pure (record {
    done = is_some s.outcome;
    phase = s.phase;
    candidate = s.candidate;
    outcome = s.outcome;
    steps = s.steps;
    bringup = bringup;
  })

  -- state.json is written before the result is put together.
  unfoldable pub finish : String → Inputs R → ℕ → State R → Exec R git StepResult
  unfolding save result_of ◌>>=◌
  finish vm_name i now s = do
    let stamped = record s { decided_at = now }
    save stamped
    result_of stamped
        (bringup_args s.candidate vm_name i.payload i.suites i.compiler i.make_flags i.guest)

module _ {R : Type 0} {git : Git} (F : Floats R) where
  -- The branch `else`: decide on the candidate of the saved state, and note the iteration.
  unfoldable pub advance : Inputs R → Observation R → State R → Exec R git (State R)
  unfolding decide ◌>>=◌
  advance i seen s = do
    let verdict = get_or (fresh_verdict F seen.reports s.decided_at i.max_runtime) skip
    decided ← decide i verdict s.phase s
    let noted : Iteration = record { phase = s.phase; candidate = s.candidate; verdict = verdict }
    pure (record decided { iterations = decided.iterations ++ (noted ∷ []) })

  next_state : Inputs R → Observation R → Option (State R) → Exec R git (State R)
  unfolding reset advance
  next_state i seen none = reset i
  next_state i seen (some s) = if is_stale F i (some s) then reset i else advance i seen s

  unfoldable pub step : String → Inputs R → Observation R → Exec R git StepResult
  unfolding next_state finish ◌>>=◌
  step vm_name i seen d = elim (check_arguments git vm_name i) [
    | some e ↦ (err e, d)
    | none ↦ (next_state i seen d.saved >>= finish vm_name i seen.now) d
  ]
