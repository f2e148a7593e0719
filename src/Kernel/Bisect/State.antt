-- ===== src/Kernel/Bisect/State.antt =====
-- f/kernel/bisect_step.py: the run's inputs, the state that state.json keeps, the clone that it
-- stands beside, and `git`, which the program calls.
use kdevops_ng.Prelude.{ℕ, String, Bool, Option, none, some, List}
use kdevops_ng.Common.Json.{Value}
use kdevops_ng.Kernel.Bisect.Report.{Verdict}

pub data Phase : Type 0 where
  verify_bad verify_good bisect : Phase

-- The values of `outcome`; the empty text, a run that goes on, is none.
pub data Outcome : Type 0 where
  not_reproducible_standalone endpoint_untestable good_endpoint_failed : Outcome
  inconclusive first_bad_found max_steps_exceeded : Outcome

pub record Iteration : Type 0 where
  pub phase : Phase
  pub candidate : String
  pub verdict : Verdict

-- The arguments of `main`, apart from the VM's name; the guest is the one that `guest or {}` gives.
pub record Inputs (R : Type 0) : Type 0 where
  pub good : String
  pub bad : String
  pub suites : List String
  pub max_steps : ℕ
  pub payload : String
  pub error_re : String
  pub max_runtime : R
  pub compiler : String
  pub make_flags : String
  pub guest : Value

-- A state.json. The four fields that are read with a default may be missing.
pub record State (R : Type 0) : Type 0 where
  pub good : String
  pub bad : String
  pub suites : List String
  pub payload : Option String
  pub error_re : Option String
  pub max_runtime : Option R
  pub guest : Option Value
  pub good_sha : String
  pub bad_sha : String
  pub phase : Phase
  pub candidate : String
  pub decided_at : ℕ
  pub steps : ℕ
  pub iterations : List Iteration
  pub outcome : Option Outcome
  pub first_bad : Option String

-- `git` and the file system, over the states of the clone's directory. What `git.run` raises is none; `git.capture`
-- runs with `check=False` and gives an empty text where the command fails.
pub record Git : Type 1 where
  pub Repo : Type 0
  -- `root.resolve() in (root / vm_name).resolve().parents`
  pub is_inside : String → Bool
  pub absent : Repo
  pub clone : Option Repo
  -- rev-parse --verify <ref>^{commit}, stripped
  pub rev_parse : Repo → String → String
  -- update-ref refs/heads/bisect-base <sha>, then symbolic-ref HEAD
  pub update_ref : Repo → String → Option Repo
  pub symbolic_ref : Repo → Option Repo
  -- bisect start --no-checkout <bad> <good>
  pub bisect_start : Repo → String → String → Option Repo
  -- bisect good|bad|skip <sha>
  pub bisect_feed : Repo → Verdict → String → String × Repo
  -- rev-parse --verify BISECT_HEAD, stripped
  pub bisect_head : Repo → String

pub data Error : Type 0 where
  bad_guest no_suites unknown_payload unknown_harness git_failed : Error
  unresolved outside : String → Error
  bad_inputs : Error

-- The state directory: state.json, none where it is absent or cannot be read, and the clone.
pub record Disk (R : Type 0) (git : Git) : Type 0 where
  pub saved : Option (State R)
  pub repo : git.Repo

-- What was written before a raise stays written: the directory comes back beside the error.
pub data Result {ℓ} (A : Type ℓ) : Type ℓ where
  ok : A → Result A
  err : Error → Result A

abbrev pub Exec : Type 0 → Git → Type 0 → Type 0
Exec R git A = Disk R git → Result A × Disk R git

module _ {R : Type 0} {git : Git} where
  unfoldable pub pure : {A : Type 0} → A → Exec R git A
  pure a d = (ok a, d)

  unfoldable pub raise : {A : Type 0} → Error → Exec R git A
  raise e d = (err e, d)

  abbrev pub continue :
      {A B : Type 0} → Result A × Disk R git → (A → Exec R git B) → Result B × Disk R git
  continue (ok a, d) f = f a d
  continue (err e, d) f = (err e, d)

  -- A command that `git.run` runs on the clone.
  unfoldable pub on_repo : (git.Repo → Option git.Repo) → Exec R git (Unit {0})
  on_repo command d = elim (command d.repo) [
    | none ↦ (err git_failed, d)
    | some repo ↦ (ok tt, record d { repo = repo })
  ]

  infixl 5 ◌>>=◌ ◌>>◌
  -- Opening this opens `pure`, `raise` and `on_repo` too.
  unfoldable pub ◌>>=◌ : {A B : Type 0} → Exec R git A → (A → Exec R git B) → Exec R git B
  unfolding pure raise on_repo
  ◌>>=◌ m f d = continue (m d) f

  abbrev pub ◌>>◌ : {B : Type 0} → Exec R git (Unit {0}) → Exec R git B → Exec R git B
  m >> k = m >>= λ _. k
