-- ===== src/Kernel/Bisect/Step/History.antt =====
-- The iterations that state.json keeps explain its phase, its count of steps and its outcome.
use kdevops_ng.Prelude.{
  ℕ, ◌+◌, String, ◌≡◌, refl, Bool, true, false, Option, none, some, List, [], ◌∷◌, ◌++◌, arith, inl,
  inr, sym, Bool-cases, Option-cases, ◌==◌, ◌!=◌, string_eq, leb,
}
use kdevops_ng.Prelude.Lists.{length, length-append, All, All-append}
use kdevops_ng.Prelude.Words.{contains_text}
use kdevops_ng.Kernel.Bisect.Report.{Floats, Verdict, good, bad, skip}
use kdevops_ng.Kernel.Bisect.State.{
  Phase, verify_bad, verify_good, bisect, Outcome, not_reproducible_standalone, endpoint_untestable,
  good_endpoint_failed, inconclusive, first_bad_found, max_steps_exceeded, Iteration, Inputs, State,
  Git, Disk,
}
use kdevops_ng.Kernel.Bisect.Step.Reset.{IfOk}
use kdevops_ng.Kernel.Bisect.Step.{decide, is_stale, start_bisect, conclude, after_feed}

abbrev pub iteration : Phase → String → Verdict → Iteration
iteration p c v = record { phase = p; candidate = c; verdict = v }

-- How a verdict on an endpoint ends the run.
abbrev pub bad_end : Verdict → Option Outcome
bad_end good = some not_reproducible_standalone
bad_end bad = none
bad_end skip = some endpoint_untestable

abbrev pub good_end : Verdict → Option Outcome
good_end good = some inconclusive
good_end bad = some good_endpoint_failed
good_end skip = some endpoint_untestable

-- The outcomes that the bisect phase can reach.
abbrev pub bisect_end : Option Outcome → Bool
bisect_end none = true
bisect_end (some inconclusive) = true
bisect_end (some first_bad_found) = true
bisect_end (some max_steps_exceeded) = true
bisect_end (some _) = false

abbrev pub InBisect : Iteration → Type 0
InBisect it = it.phase ≡ bisect

module _ {R : Type 0} where
  abbrev pub Explained : Phase → Option Outcome → State R → Type 0
  Explained verify_bad none s = (s.iterations ≡ []) × (s.candidate ≡ s.bad_sha) × (s.steps ≡ 0)
  Explained verify_bad (some o) s =
      (v : Verdict) × (s.iterations ≡ iteration verify_bad s.bad_sha v ∷ [])
      × (bad_end v ≡ some o)
      × (s.steps ≡ 0)
  Explained verify_good none s =
      (s.iterations ≡ iteration verify_bad s.bad_sha bad ∷ [])
      × (s.candidate ≡ s.good_sha)
      × (s.steps ≡ 0)
  Explained verify_good (some o) s =
      (v : Verdict) × (s.iterations
        ≡ iteration verify_bad s.bad_sha bad ∷ iteration verify_good s.good_sha v ∷ [])
      × (good_end v ≡ some o)
      × (s.steps ≡ 0)
  Explained bisect o s =
      (rest : List Iteration) × (s.iterations
        ≡ iteration verify_bad s.bad_sha bad ∷ iteration verify_good s.good_sha good ∷ rest)
      × (length rest ≡ s.steps)
      × All InBisect rest
      × (bisect_end o ≡ true)

  -- The first iteration tested the bad commit, a second one the good commit, and all others
  -- were bisect steps, as many as were counted; the outcome follows from the verdicts.
  abbrev pub IsExplained : State R → Type 0
  IsExplained s = Explained s.phase s.outcome s

  abbrev pub noted : State R → Verdict → State R → State R
  noted s v t = record t { iterations = t.iterations ++ (iteration s.phase s.candidate v ∷ []) }

  abbrev pub DiskExplained : {git : Git} → Disk R git → Type 0
  DiskExplained d = (s : State R) → d.saved ≡ some s → IsExplained s

module _ {R : Type 0} where
  start_bisect-Explained :
      (s : State R) (head : String)
      → s.phase ≡ verify_good
      → s.outcome ≡ none
      → Explained verify_good none s
      → IsExplained (noted s good (start_bisect s head))
  unfolding start_bisect conclude
  start_bisect-Explained s head ph run (its, c, n) = elim (Bool-cases (head != "")) [
    | inl named ↦ rw named ([], rw (its, c, ph), sym n, tt, rw run)
    | inr gone ↦ rw (gone, ph) (good, rw (its, c), refl, n)
  ]

  after_feed-Explained :
      (m : ℕ) (out head : String) (v : Verdict) (s : State R)
      → s.phase ≡ bisect
      → s.outcome ≡ none
      → Explained bisect none s
      → IsExplained (noted s v (after_feed m out head (record s { steps = s.steps + 1 })))
  unfolding after_feed conclude
  after_feed-Explained m out head v s ph run (rest, its, n, all, e) =
      let one : Iteration = iteration bisect s.candidate v in
      let grown : List Iteration = rest ++ (one ∷ []) in
      let counted : length grown ≡ s.steps + 1 = omega (arith, length-append rest (one ∷ [])) in
      let in_bisect : All InBisect grown = All-append InBisect rest (one ∷ []) all (refl, tt) in
      let kept : s.iterations ++ (one ∷ [])
          ≡ iteration verify_bad s.bad_sha bad ∷ iteration verify_good s.good_sha good ∷ grown =
        rw its in
      elim (Bool-cases (contains_text "is the first bad commit" out)) [
        | inl found ↦ rw (found, ph) (grown, kept, counted, in_bisect, refl)
        | inr more ↦ elim (Bool-cases (head == "")) [
          | inl gone ↦ rw (more, gone, ph) (grown, kept, counted, in_bisect, refl)
          | inr named ↦ elim (Bool-cases (leb m (s.steps + 1))) [
            | inl over ↦ rw (more, named, over, ph) (grown, kept, counted, in_bisect, refl)
            | inr on ↦ rw (more, named, on, ph) (grown, kept, counted, in_bisect, rw run)
          ]
        ]
      ]

module _ {R : Type 0} where
  pub running_of_current :
      (F : Floats R) (i : Inputs R) (s : State R) → is_stale F i (some s) ≡ false → s.outcome ≡ none
  unfolding is_stale
  running_of_current F i s h = ground arith

  -- The time of the decision has no part in it.
  pub stamp-Explained :
      (now : ℕ) (p : Phase) (o : Option Outcome) (s : State R)
      → Explained p o s
      → Explained p o (record s { decided_at = now })
  stamp-Explained now verify_bad none s h = h
  stamp-Explained now verify_bad (some o) s h = h
  stamp-Explained now verify_good none s h = h
  stamp-Explained now verify_good (some o) s h = h
  stamp-Explained now bisect o s h = h

module _ {R : Type 0} {git : Git} where
  pub decide-Explained :
      (i : Inputs R) (v : Verdict) (p : Phase) (s : State R) (d : Disk R git)
      → s.phase ≡ p
      → s.outcome ≡ none
      → Explained p none s
      → IfOk (λ t. IsExplained (noted s v t)) (decide i v p s d).0
  unfolding decide
  decide-Explained i good verify_bad s d ph run (its, c, n) = rw (ph) (good, rw (its, c), refl, n)
  decide-Explained i bad verify_bad s d ph run (its, c, n) = rw (run) (rw (its, c, ph), refl, n)
  decide-Explained i skip verify_bad s d ph run (its, c, n) = rw (ph) (skip, rw (its, c), refl, n)
  decide-Explained i good verify_good s d ph run (its, c, n) =
      elim (Option-cases (git.bisect_start d.repo s.bad_sha s.good_sha)) [
        | inl failed ↦ rw failed tt
        | inr (repo, started) ↦
            rw started (start_bisect-Explained s (git.bisect_head repo) ph run (its, c, n))
      ]
  decide-Explained i bad verify_good s d ph run (its, c, n) = rw (ph) (bad, rw (its, c), refl, n)
  decide-Explained i skip verify_good s d ph run (its, c, n) = rw (ph) (skip, rw (its, c), refl, n)
  decide-Explained i v bisect s d ph run h =
      let (out, repo) = git.bisect_feed d.repo v s.candidate in
      after_feed-Explained i.max_steps out (git.bisect_head repo) v s ph run h

  -- A decision leaves state.json as it is.
  pub decide-saved :
      (i : Inputs R) (v : Verdict) (p : Phase) (s : State R) (d : Disk R git)
      → (decide i v p s d).1.saved ≡ d.saved
  unfolding decide
  decide-saved i good verify_bad s d = refl
  decide-saved i bad verify_bad s d = refl
  decide-saved i skip verify_bad s d = refl
  decide-saved i good verify_good s d =
      elim (Option-cases (git.bisect_start d.repo s.bad_sha s.good_sha)) [
        | inl failed ↦ rw failed
        | inr (repo, started) ↦ rw started
      ]
  decide-saved i bad verify_good s d = refl
  decide-saved i skip verify_good s d = refl
  decide-saved i v bisect s d = refl
