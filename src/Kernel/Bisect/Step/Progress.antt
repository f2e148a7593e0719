-- ===== src/Kernel/Bisect/Step/Progress.antt =====
-- Each iteration concludes or comes closer to `max_steps`.
use mathlib.Core.Option.{get_or}
use kdevops_ng.Prelude.{
  ℕ, suc, ◌+◌, ◌-◌, ◌≤◌, String, ◌≡◌, refl, ◌≢◌, ◌⊎◌, inl, inr, Option, none, some, List, [], ◌∷◌,
  ◌++◌, arith, Bool-cases, ◌==◌, ◌!=◌, string_eq, leb,
}
use kdevops_ng.Prelude.Words.{contains_text}
use kdevops_ng.Kernel.Bisect.Report.{Floats, Verdict, good, bad, skip, fresh_verdict}
use kdevops_ng.Kernel.Bisect.State.{
  Phase, Outcome, Iteration, verify_bad, verify_good, bisect, Inputs, State, Git, Disk, Result, ok,
  err, continue, pure,
}
use kdevops_ng.Kernel.Bisect.Step.{Observation, decide, advance, start_bisect, conclude, after_feed}

-- There is a value, and it has the property.
abbrev pub Returns : {A : Type 0} → (A → Type 0) → Result A → Type 0
Returns P (ok a) = P a
Returns P (err e) = ⊥

-- How many more iterations a phase can take.
abbrev pub bound : ℕ → Phase → ℕ → ℕ
bound m verify_bad steps = m + 3
bound m verify_good steps = m + 2
bound m bisect steps = m - steps + 1

module _ {R : Type 0} where
  abbrev pub left : ℕ → State R → ℕ
  left m s = bound m s.phase s.steps

  -- The fields that a state keeps of the run's inputs.
  pub record SameRun (s t : State R) : Type 0 where
    pub good : t.good ≡ s.good
    pub bad : t.bad ≡ s.bad
    pub suites : t.suites ≡ s.suites
    pub payload : t.payload ≡ s.payload
    pub error_re : t.error_re ≡ s.error_re
    pub max_runtime : t.max_runtime ≡ s.max_runtime
    pub guest : t.guest ≡ s.guest
    pub good_sha : t.good_sha ≡ s.good_sha
    pub bad_sha : t.bad_sha ≡ s.bad_sha

  same_run :
      (s : State R) (p : Phase) (c : String) (n : ℕ) (o : Option Outcome) (f : Option String)
      → SameRun s (record s { phase = p; candidate = c; steps = n; outcome = o; first_bad = f })
  same_run s p c n o f = record {
    good = refl;
    bad = refl;
    suites = refl;
    payload = refl;
    error_re = refl;
    max_runtime = refl;
    guest = refl;
    good_sha = refl;
    bad_sha = refl;
  }

  abbrev pub Closer : ℕ → State R → State R → Type 0
  Closer m s t = SameRun s t × ((t.outcome ≢ none) ⊎ (suc (left m t) ≤ left m s))

  start_bisect-Closer :
      (m : ℕ) (s : State R) (head : String)
      → s.phase ≡ verify_good
      → Closer m s (start_bisect s head)
  unfolding start_bisect conclude
  start_bisect-Closer m s head ph = elim (Bool-cases (head != "")) [
    | inl named ↦ rw named (same_run s _ _ _ _ _, inr (rw ph (omega arith)))
    | inr gone ↦ rw gone (same_run s _ _ _ _ _, inl (λ e. cc))
  ]

  after_feed-Closer :
      (m : ℕ) (out head : String) (s : State R)
      → s.phase ≡ bisect
      → Closer m s (after_feed m out head (record s { steps = s.steps + 1 }))
  unfolding after_feed conclude
  after_feed-Closer m out head s ph =
      elim (Bool-cases (contains_text "is the first bad commit" out)) [
        | inl found ↦ rw found (same_run s _ _ _ _ _, inl (λ e. cc))
        | inr more ↦ elim (Bool-cases (head == "")) [
          | inl gone ↦ rw (more, gone) (same_run s _ _ _ _ _, inl (λ e. cc))
          | inr named ↦ elim (Bool-cases (leb m (s.steps + 1))) [
            | inl over ↦ rw (more, named, over) (same_run s _ _ _ _ _, inl (λ e. cc))
            | inr on ↦ rw (more, named, on) (same_run s _ _ _ _ _, inr (rw ph (ground arith)))
          ]
        ]
      ]

-- The commands of the decisions, on a clone at the commits of the state: they succeed and leave a
-- clone.
pub record Works {R : Type 0} (git : Git) (IsClone : git.Repo → Type 0) (s : State R) : Type 0 where
  pub starts :
      (r : git.Repo)
      → IsClone r
      → (r' : git.Repo) × (git.bisect_start r s.bad_sha s.good_sha ≡ some r') × IsClone r'
  pub feeds :
      (r : git.Repo) (v : Verdict) (c : String) → IsClone r → IsClone (git.bisect_feed r v c).1

module _ {R : Type 0} {git : Git} (IsClone : git.Repo → Type 0) where
  -- There is a value, which has the property, beside a clone.
  abbrev pub Leaves : {A : Type 0} → (A → Type 0) → Result A × Disk R git → Type 0
  Leaves P (r, d) = Returns P r × IsClone d.repo

  decide-Closer :
      (i : Inputs R) (v : Verdict) (p : Phase) (s : State R) (d : Disk R git)
      → Works git IsClone s
      → IsClone d.repo
      → s.phase ≡ p
      → Leaves (Closer i.max_steps s) (decide i v p s d)
  unfolding decide
  decide-Closer i good verify_bad s d works c ph = ((same_run s _ _ _ _ _, inl (λ e. cc)), c)
  decide-Closer i bad verify_bad s d works c ph =
      ((same_run s _ _ _ _ _, inr (rw ph (omega arith))), c)
  decide-Closer i skip verify_bad s d works c ph = ((same_run s _ _ _ _ _, inl (λ e. cc)), c)
  decide-Closer i good verify_good s d works c ph =
      let (repo, started, clone) = works.starts d.repo c in
      rw started (start_bisect-Closer i.max_steps s _ ph, clone)
  decide-Closer i bad verify_good s d works c ph = ((same_run s _ _ _ _ _, inl (λ e. cc)), c)
  decide-Closer i skip verify_good s d works c ph = ((same_run s _ _ _ _ _, inl (λ e. cc)), c)
  decide-Closer i v bisect s d works c ph =
      (after_feed-Closer i.max_steps _ _ s ph, works.feeds d.repo v s.candidate c)

  note-Closer :
      (m : ℕ) (s : State R) (its : List Iteration → List Iteration)
      (x : Result (State R) × Disk R git)
      → Leaves (Closer m s) x
      → (t : State R) × (d : Disk R git) × (continue x
            (λ t. pure (record t { iterations = its t.iterations }))
          ≡ (ok t, d))
        × Closer m s t
        × IsClone d.repo
  unfolding pure
  note-Closer m s its (ok t, d) ((same, near), c) = (_, d, refl, (note_same t same, near), c)
    where
      note_same :
          (t : State R) → SameRun s t → SameRun s (record t { iterations = its t.iterations })
      note_same t h = record {
        good = h.good;
        bad = h.bad;
        suites = h.suites;
        payload = h.payload;
        error_re = h.error_re;
        max_runtime = h.max_runtime;
        guest = h.guest;
        good_sha = h.good_sha;
        bad_sha = h.bad_sha;
      }
  note-Closer m s its (err e, d) (h, c) = elim h [ ]

  pub advance-Closer :
      (F : Floats R) (i : Inputs R) (seen : Observation R) (s : State R) (d : Disk R git)
      → Works git IsClone s
      → IsClone d.repo
      → (t : State R) × (d' : Disk R git) × (advance F i seen s d ≡ (ok t, d'))
        × Closer i.max_steps s t
        × IsClone d'.repo
  unfolding advance
  advance-Closer F i seen s d works c =
      let v = get_or (fresh_verdict F seen.reports s.decided_at i.max_runtime) skip in
      let one : Iteration = record { phase = s.phase; candidate = s.candidate; verdict = v } in
      note-Closer i.max_steps s (λ its. its ++ (one ∷ [])) (decide i v s.phase s d)
        (decide-Closer i v s.phase s d works c refl)
