-- ===== src/Kernel/Bisect/Report/Newest.antt =====
-- The verdict is the one of the newest report, and only of a report written since the decision.
use kdevops_ng.Prelude.{
  Option-cases, ℕ, ◌≤◌, ◌<◌, ◌≡◌, refl, ◌⊎◌, inl, inr, Option, none, some, List, [], ◌∷◌, arith,
}
use kdevops_ng.Prelude.Lists.{All}
use kdevops_ng.Kernel.Bisect.Report.{
  Floats, Report, ReportFile, Verdict, fresher, newest, verdict_of, fresh_verdict,
}

module _ {R : Type 0} where
  -- The file is one of the candidates.
  abbrev pub Among : ReportFile R → List (Option (ReportFile R)) → Type 0
  Among p [] = ⊥
  Among p (c ∷ cs) = (c ≡ some p) ⊎ Among p cs

  abbrev pub NotAfter : ℕ → Option (ReportFile R) → Type 0
  NotAfter t none = Unit
  NotAfter t (some p) = p.mtime ≤ t

  fresher-ge : (b : Option (ReportFile R)) (p : ReportFile R) → p.mtime ≤ (fresher b p).mtime
  unfolding fresher
  fresher-ge none p = omega arith
  fresher-ge (some b) p = ground arith

  fresher-ge_best : (b : ReportFile R) (p : ReportFile R) → b.mtime ≤ (fresher (some b) p).mtime
  unfolding fresher
  fresher-ge_best b p = ground arith

  newest-ge :
      (b : ReportFile R) (cs : List (Option (ReportFile R))) {p : ReportFile R}
      → newest (some b) cs ≡ some p
      → b.mtime ≤ p.mtime
  unfolding newest
  newest-ge b [] h = ground arith
  newest-ge b (none ∷ cs) h = newest-ge b cs h
  newest-ge b (some c ∷ cs) h =
      omega (arith, fresher-ge_best b c, newest-ge (fresher (some b) c) cs h)

  newest-bounds :
      (b : Option (ReportFile R)) (cs : List (Option (ReportFile R))) {p : ReportFile R}
      → newest b cs ≡ some p
      → All (NotAfter p.mtime) cs
  unfolding newest
  newest-bounds b [] h = tt
  newest-bounds b (none ∷ cs) h = (tt, newest-bounds b cs h)
  newest-bounds b (some c ∷ cs) h = (
    omega (arith, fresher-ge b c, newest-ge (fresher b c) cs h),
    newest-bounds (some (fresher b c)) cs h,
  )

  fresher-cases :
      (b : Option (ReportFile R)) (p : ReportFile R) → (b ≡ some (fresher b p)) ⊎ (p ≡ fresher b p)
  unfolding fresher
  fresher-cases none p = inr refl
  fresher-cases (some b) p = ground arith

  -- The newest is the one held before the loop, or a candidate.
  newest-Among :
      (b : Option (ReportFile R)) (cs : List (Option (ReportFile R))) {p : ReportFile R}
      → newest b cs ≡ some p
      → (b ≡ some p) ⊎ Among p cs
  unfolding newest
  newest-Among b [] h = inl h
  newest-Among b (none ∷ cs) h = elim (newest-Among b cs h) [ inl e ↦ inl e | inr m ↦ inr (inr m) ]
  newest-Among b (some c ∷ cs) {p} h = elim (newest-Among (some (fresher b c)) cs h) [
    | inl e ↦ elim (fresher-cases b c) [ inl old ↦ inl (cc) | inr new ↦ inr (inl (cc)) ]
    | inr m ↦ inr (inr m)
  ]

  newest-some :
      (b : ReportFile R) (cs : List (Option (ReportFile R)))
      → (p : ReportFile R) × (newest (some b) cs ≡ some p)
  unfolding newest
  newest-some b [] = (b, refl)
  newest-some b (none ∷ cs) = newest-some b cs
  newest-some b (some c ∷ cs) = newest-some (fresher (some b) c) cs

  Among-bound :
      (t : ℕ) (cs : List (Option (ReportFile R))) (p : ReportFile R)
      → All (NotAfter t) cs
      → Among p cs
      → p.mtime ≤ t
  Among-bound t [] p h m = elim m [ ]
  Among-bound t (none ∷ cs) p h m = elim m [ inl e ↦ cc | inr k ↦ Among-bound t cs p h.1 k ]
  Among-bound t (some c ∷ cs) p h m = elim m [
    | inl e ↦ ground (arith, h.0)
    | inr k ↦ Among-bound t cs p h.1 k
  ]

module _ {R : Type 0} (F : Floats R) (cs : List (Option (ReportFile R))) (decided_at : ℕ)
    (m : R) where
  -- A verdict of `fresh_verdict` is the verdict of a candidate that was written after the last
  -- decision, could be read, and is at least as new as every candidate.
  pub fresh_verdict-newest :
      {v : Verdict}
      → fresh_verdict F cs decided_at m ≡ some v
      → (p : ReportFile R) × (r : Report R) × Among p cs
        × (decided_at < p.mtime)
        × All (NotAfter p.mtime) cs
        × (p.body ≡ some r)
        × (v ≡ verdict_of F m r)
  unfolding fresh_verdict
  fresh_verdict-newest {v} h = elim (Option-cases (newest none cs)) [
    | inl e ↦ cc (rw e at h)
    | inr (p, e) ↦ elim (Option-cases p.body) [
      | inl unread ↦ ground arith
      | inr (r, body) ↦ (
        p,
        r,
        elim (newest-Among none cs e) [ inl no_file ↦ cc | inr m ↦ m ],
        ground arith,
        newest-bounds none cs e,
        body,
        ground arith,
      )
    ]
  ]

  -- With no candidate written after the last decision there is no verdict.
  pub fresh_verdict-stale : All (NotAfter decided_at) cs → fresh_verdict F cs decided_at m ≡ none
  unfolding fresh_verdict
  fresh_verdict-stale h = elim (Option-cases (newest none cs)) [
    | inl e ↦ rw e
    | inr (p, e) ↦
        let old : p.mtime ≤ decided_at = elim (newest-Among none cs e) [
          | inl no_file ↦ cc
          | inr k ↦ Among-bound decided_at cs p h k
        ] in
        rw e (ground arith)
  ]
