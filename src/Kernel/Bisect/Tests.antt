-- ===== src/Kernel/Bisect/Tests.antt =====
-- The bisect over a toy git, and its theorems at concrete inputs.
use Prim.Native.Nat.{compare, Ordering}
use kdevops_ng.Prelude.{
  ℕ, ◌+◌, ◌<◌, ◌≡◌, refl, Option, none, some, List, [], ◌∷◌, arith, string_eq, list_eq, option_eq,
  ltb, ◌==◌, ◌!=◌, nat_eq, if◌then◌else◌,
}
use kdevops_ng.Prelude.Lists.{All}
use kdevops_ng.Prelude.Words.{contains_text, words}
use kdevops_ng.Common.Json.{
  num, str, obj, Fields, end, get, pop, put, dict, fields_of, same, truthy,
}
use kdevops_ng.Kernel.Bisect.Report.{
  Floats, Report, ReportFile, good, bad, newest, fresher, verdict_of, total_runtime, fresh_verdict,
}
use kdevops_ng.Kernel.Bisect.Report.Newest.{
  Among, NotAfter, fresh_verdict-newest, fresh_verdict-stale,
}
use kdevops_ng.Kernel.Bisect.Dicts.{guest_ok, vm_group}
use kdevops_ng.Kernel.Bisect.Bringup.{bringup_args}
use kdevops_ng.Kernel.Bisect.Bringup.Keeps.{KeepsRest, Builds, bringup_args-keeps}
use kdevops_ng.Kernel.Bisect.State.{
  Inputs, State, Git, Disk, verify_bad, verify_good, bisect, first_bad_found,
}
use kdevops_ng.Kernel.Bisect.Step.{
  Observation, check_inputs, check_arguments, state_dir, is_stale, fresh_clone, resolve,
  first_state, step,
}
use kdevops_ng.Kernel.Bisect.Step.History.{DiskExplained, IsExplained, iteration}
use kdevops_ng.Kernel.Bisect.Step.Invariant.{step-IsExplained}
use kdevops_ng.Kernel.Bisect.Loop.{run}
use kdevops_ng.Kernel.Bisect.Loop.Ends.{Ends}
use kdevops_ng.Kernel.Bisect.Judge.{judge, Concluded, judge-Concluded}

-- Runtimes in whole seconds.
abbrev seconds : Floats ℕ
seconds = record {
  zero = 0;
  add = λ a b. a + b;
  above = λ a b. ltb b a;
  is_set = λ a. ltb 0 a;
  equal = λ a b. a == b;
}

abbrev passed_at : ℕ → Option (ReportFile ℕ)
passed_at t = some (record {
  mtime = t;
  body = some (record { status = some "passed"; items = some 5 ∷ some 6 ∷ [] });
})

abbrev failed_at : ℕ → Option (ReportFile ℕ)
failed_at t =
    some (record { mtime = t; body = some (record { status = some "failed"; items = [] }) })

prefers_the_newest :
    (fresh_verdict seconds (failed_at 100 ∷ none ∷ passed_at 200 ∷ []) 0 0 ≡ some good)
    × (fresh_verdict seconds (passed_at 100 ∷ []) 0 10 ≡ some bad)
    × (fresh_verdict seconds (passed_at 100 ∷ []) 0 11 ≡ some good)
    × (fresh_verdict seconds (passed_at 100 ∷ []) 100 0 ≡ none)
unfolding fresh_verdict newest fresher verdict_of total_runtime string_eq option_eq
prefers_the_newest = (refl, refl, refl, refl)

abbrev reports : List (Option (ReportFile ℕ))
reports = failed_at 100 ∷ none ∷ passed_at 200 ∷ []

fresh_verdict-newest_example :
    (p : ReportFile ℕ) × (r : Report ℕ) × Among p reports
    × (150 < p.mtime)
    × All (NotAfter p.mtime) reports
    × (p.body ≡ some r)
    × (good ≡ verdict_of seconds 0 r)
unfolding fresh_verdict newest fresher verdict_of total_runtime string_eq option_eq
fresh_verdict-newest_example = fresh_verdict-newest seconds reports 150 0 refl

stale_reports : fresh_verdict seconds reports 200 0 ≡ none
stale_reports = fresh_verdict-stale seconds reports 200 0 (omega arith)

-- A clone on which every command succeeds, and the third bisect step finds the commit.
abbrev toy : Git
toy = record {
  Repo = ℕ;
  is_inside = λ vm_name. vm_name != "..";
  absent = 0;
  clone = some 1;
  rev_parse = λ r ref. if r == 0 then "" else ref;
  update_ref = λ r sha. if r == 0 then none else some r;
  symbolic_ref = λ r. if r == 0 then none else some r;
  bisect_start = λ r b g. if r == 0 then none else some 1;
  bisect_feed = λ r v sha.
      (elim (compare r 3) [ Ordering.eq ↦ "c9 is the first bad commit" | _ ↦ "Bisecting" ], r + 1);
  bisect_head = λ r. "mid";
}

abbrev inputs : Inputs ℕ
inputs = record {
  good = "v7.0";
  bad = "v7.1";
  suites = "bitmap" ∷ [];
  max_steps = 5;
  payload = "kunit";
  error_re = "";
  max_runtime = 0;
  compiler = "gcc";
  make_flags = "";
  guest = obj end;
}

abbrev nowhere : Disk ℕ toy
nowhere = record { saved = none; repo = 0 }

abbrev sees : ℕ → Option (ReportFile ℕ) → Observation ℕ
sees t r = record { reports = r ∷ []; now = t }

abbrev nights : List (Observation ℕ)
nights =
    sees 10 none
    ∷ sees 20 (failed_at 15)
    ∷ sees 30 (passed_at 25)
    ∷ sees 40 (failed_at 35)
    ∷ sees 50 none
    ∷ sees 60 (failed_at 55)
    ∷ sees 70 none
    ∷ sees 80 none
    ∷ sees 90 none
    ∷ []

first_disk : Disk ℕ toy
first_disk = (step seconds "vm" inputs (sees 10 none) nowhere).1

nowhere_explained : DiskExplained nowhere
nowhere_explained s e = cc

step-IsExplained_example : DiskExplained (step seconds "vm" inputs (sees 10 none) nowhere).1
step-IsExplained_example =
    step-IsExplained seconds "vm" inputs (sees 10 none) nowhere nowhere_explained

found : State ℕ
found = record {
  good = "v7.0";
  bad = "v7.1";
  suites = "bitmap" ∷ [];
  payload = some "kunit";
  error_re = some "";
  max_runtime = some 0;
  guest = some (obj end);
  good_sha = "a";
  bad_sha = "z";
  phase = bisect;
  candidate = "m";
  decided_at = 40;
  steps = 1;
  iterations =
      iteration verify_bad "z" bad ∷ iteration verify_good "a" good ∷ iteration bisect "m" bad ∷ [];
  outcome = some first_bad_found;
  first_bad = some "m";
}

found-IsExplained : IsExplained found
unfolding found
found-IsExplained = (iteration bisect "m" bad ∷ [], refl, refl, (refl, tt), refl)

judge-Concluded_example : Concluded first_bad_found found
unfolding judge found
judge-Concluded_example =
    judge-Concluded found {o = first_bad_found} {c = "m"} found-IsExplained refl

-- A guest that pins a ref and a developer worktree.
abbrev pinned : Fields
pinned = fields_of (
    ("worktree", dict (("path", str "/w") ∷ []))
    ∷ ("closure", dict (("mode", str "build") ∷ []))
    ∷ ("kernel", dict (("worktree", dict (("ref", str "v6.0") ∷ [])) ∷ []))
    ∷ ("boot_qemu", dict (("ram", num 8192) ∷ []))
    ∷ [])

pinned_args : Option Fields
unfolding bringup_args string_eq
pinned_args = bringup_args "m" "vm" "kunit" ("bitmap" ∷ []) "gcc" "" (obj pinned)

pinned_out : Fields
unfolding pinned_args
pinned_out = elim pinned_args [ none ↦ end | some out ↦ out ]

bringup_args-keeps_example :
    KeepsRest "m" "vm" "kunit" ("bitmap" ∷ []) "gcc" "" pinned pinned_out
    × (get "vm" pinned_out ≡ some (vm_group "vm"))
    × (get "worktree" pinned_out ≡ none)
    × Builds "m" "vm" "kunit" ("bitmap" ∷ []) "gcc" "" pinned_out
unfolding pinned_out truthy guest_ok get pop put
bringup_args-keeps_example =
    bringup_args-keeps "m" "vm" "kunit" ("bitmap" ∷ []) "gcc" "" pinned {out = pinned_out} refl refl

run_finds :
    (elim (run seconds "vm" inputs nights nowhere).0 [ none ↦ none | some r ↦ r.outcome ])
    ≡ some first_bad_found
unfolding run step string_eq list_eq option_eq nat_eq fresh_verdict newest fresher verdict_of
    contains_text words check_inputs check_arguments state_dir is_stale same get guest_ok truthy
    fresh_clone resolve bringup_args first_state
run_finds = refl
