-- ===== src/Kernel/Bisect/Judge.antt =====
-- f/kernel/bisect_judge.py: fails the run unless it reached a conclusion.
use mathlib.Core.Option.{get_or, some-injective}
use mathlib.Core.Path.{subst}
use kdevops_ng.Prelude.{
  String, ◌≡◌, inl, inr, Bool, true, false, Option, none, some, List, [], ◌∷◌, ap, Bool-cases,
  Option-cases, if◌then◌else◌,
}
use kdevops_ng.Prelude.Lists.{length}
use kdevops_ng.Kernel.Bisect.Report.{Verdict, good, bad}
use kdevops_ng.Kernel.Bisect.State.{
  Phase, verify_bad, verify_good, bisect, Outcome, not_reproducible_standalone, endpoint_untestable,
  good_endpoint_failed, inconclusive, first_bad_found, max_steps_exceeded, State, Iteration,
}
use kdevops_ng.Kernel.Bisect.Step.History.{IsExplained, Explained, iteration, bad_end, good_end}

-- `_CONCLUSIVE`
unfoldable pub conclusive : Outcome → Bool
conclusive first_bad_found = true
conclusive not_reproducible_standalone = true
conclusive good_endpoint_failed = true
conclusive inconclusive = false
conclusive endpoint_untestable = false
conclusive max_steps_exceeded = false

module _ {R : Type 0} where
  -- None where it raises: the outcome, and the first bad commit or an empty text.
  unfoldable pub judge : State R → Option (Outcome × String)
  unfolding conclusive
  judge s = elim s.outcome [
    | none ↦ none
    | some o ↦ if conclusive o then some (o, get_or s.first_bad "") else none
  ]

  -- What a green run means, read off the iterations that the state keeps.
  unfoldable pub Concluded : Outcome → State R → Type 0
  Concluded not_reproducible_standalone s = s.iterations ≡ iteration verify_bad s.bad_sha good ∷ []
  Concluded good_endpoint_failed s =
      s.iterations ≡ iteration verify_bad s.bad_sha bad ∷ iteration verify_good s.good_sha bad ∷ []
  Concluded first_bad_found s =
      (rest : List Iteration) × (s.iterations
        ≡ iteration verify_bad s.bad_sha bad ∷ iteration verify_good s.good_sha good ∷ rest)
      × (length rest ≡ s.steps)
  Concluded _ s = ⊥

  Concluded-bad :
      (v : Verdict) (o : Outcome) (s : State R)
      → s.iterations ≡ iteration verify_bad s.bad_sha v ∷ []
      → bad_end v ≡ some o
      → conclusive o ≡ true
      → Concluded o s
  unfolding conclusive Concluded
  Concluded-bad good not_reproducible_standalone s its e k = its
  Concluded-bad _ _ s its e k = cc

  Concluded-good :
      (v : Verdict) (o : Outcome) (s : State R)
      → s.iterations ≡ iteration verify_bad s.bad_sha bad ∷ iteration verify_good s.good_sha v ∷ []
      → good_end v ≡ some o
      → conclusive o ≡ true
      → Concluded o s
  unfolding conclusive Concluded
  Concluded-good bad good_endpoint_failed s its e k = its
  Concluded-good _ _ s its e k = cc

  Concluded-bisect :
      (o : Outcome) (s : State R)
      → Explained bisect (some o) s
      → conclusive o ≡ true
      → Concluded o s
  unfolding conclusive Concluded
  Concluded-bisect first_bad_found s (rest, its, n, all, e) k = (rest, its, n)
  Concluded-bisect _ s (rest, its, n, all, e) k = cc

  conclude_cases :
      (p : Phase) (o : Outcome) (s : State R)
      → Explained p (some o) s
      → conclusive o ≡ true
      → Concluded o s
  conclude_cases verify_bad o s (v, its, e, n) k = Concluded-bad v o s its e k
  conclude_cases verify_good o s (v, its, e, n) k = Concluded-good v o s its e k
  conclude_cases bisect o s h k = Concluded-bisect o s h k

  -- A run that the judge passes has one of the three conclusions, and its iterations show it:
  -- the bad commit passed alone; or it failed and the good commit failed too; or it failed, the
  -- good commit passed, and every further iteration was one of the counted bisect steps.
  pub judge-Concluded :
      (s : State R) {o : Outcome} {c : String}
      → IsExplained s
      → judge s ≡ some (o, c)
      → Concluded o s
  unfolding judge
  judge-Concluded s {o} {c} h j = elim (Option-cases s.outcome) [
    | inl running ↦ cc (rw running at j)
    | inr (o', over) ↦ elim (Bool-cases (conclusive o')) [
      | inl yes_it_is ↦
          subst (λ x. Concluded x s) (same_outcome o' (rw (over, yes_it_is) at j))
            (conclude_cases s.phase o' s (subst (λ x. Explained s.phase x s) over h) yes_it_is)
      | inr open_end ↦ cc (rw (over, open_end) at j)
    ]
  ]
    where
      same_outcome :
          (o' : Outcome)
          → ◌≡◌ {A = Option (Outcome × String)} (some (o', get_or s.first_bad "")) (some (o, c))
          → o' ≡ o
      same_outcome o' e = ap (λ (p : Outcome × String). p.0) (some-injective _ _ e)
