-- ===== src/Kernel/Checks/Findings.antt =====
-- Which findings a check reports, and when it passes.
use kdevops_ng.Prelude.{
  String, ◌≡◌, refl, sym, ◌∙◌, ◌↔◌, Bool, true, false, ◌||◌, inl, inr, Option, none, some, List, [],
  ◌∷◌, ◌++◌, ◌!=◌, string_eq, nat_eq, option_eq, eq_true, Bool-cases, if-lem, arith, if◌then◌else◌,
}
use kdevops_ng.Prelude.Lists.{length, keep, any, All}
use kdevops_ng.Kernel.Checks.{
  Finding, finding_of, same_finding, collect_findings, diagnostics, has_level, counts, status,
  result,
}

-- No finding twice.
abbrev pub Once : List Finding → Type 0
Once [] = Unit
Once (f ∷ fs) = (any (same_finding f) fs ≡ false) × Once fs

-- The finding of each line that matched is there.
abbrev pub Reports : String → List Finding → List (Option Finding) → Type 0
Reports worktree found [] = Unit
Reports worktree found (none ∷ lines) = Reports worktree found lines
Reports worktree found (some m ∷ lines) =
    (any (same_finding (finding_of worktree m)) found ≡ true) × Reports worktree found lines

-- The findings of the lines that match, in their order.
abbrev pub findings_of : String → List (Option Finding) → List Finding
findings_of worktree [] = []
findings_of worktree (none ∷ lines) = findings_of worktree lines
findings_of worktree (some m ∷ lines) = finding_of worktree m ∷ findings_of worktree lines

-- The finding is one of the list.
abbrev pub IsOneOf : List Finding → Finding → Type 0
IsOneOf xs f = any (same_finding f) xs ≡ true

same_refl : (f : Finding) → same_finding f f ≡ true
same_refl f = ground arith

same_sym : (f g : Finding) → same_finding f g ≡ same_finding g f
same_sym f g = ground arith

or_false : (a b : Bool) → a ≡ false → b ≡ false → (a || (b || false)) ≡ false
or_false a b h k = ground (arith, h, k)

no_or : (a b : Bool) → (a || b) ≡ false → (a ≡ false) × (b ≡ false)
no_or a b h = ground (arith, h)

or_left : (a b : Bool) → a ≡ true → (a || b) ≡ true
or_left a b h = ground (arith, h)

or_last : (a b : Bool) → b ≡ true → (a || (b || false)) ≡ true
or_last a b h = ground (arith, h)

any-append : (p : Finding → Bool) (xs ys : List Finding) → any p (xs ++ ys) ≡ (any p xs || any p ys)
any-append p [] ys = refl
any-append p (x ∷ xs) ys = ground (arith, any-append p xs ys)

Once-append :
    (found : List Finding) (f : Finding)
    → Once found
    → any (same_finding f) found ≡ false
    → Once (found ++ (f ∷ []))
Once-append [] f once apart = (refl, tt)
Once-append (g ∷ found) f once apart = (
  any-append (same_finding g) found (f ∷ [])
      ∙ or_false (any (same_finding g) found) (same_finding g f) once.0
          (same_sym g f ∙ (no_or (same_finding f g) (any (same_finding f) found) apart).0),
  Once-append found f once.1 (no_or (same_finding f g) (any (same_finding f) found) apart).1,
)

-- What is found stays found.
any-collect_findings :
    (worktree : String) (lines : List (Option Finding)) (found : List Finding) (f : Finding)
    → any (same_finding f) found ≡ true
    → any (same_finding f) (collect_findings worktree found lines) ≡ true
unfolding collect_findings
any-collect_findings worktree [] found f there = there
any-collect_findings worktree (none ∷ lines) found f there =
    any-collect_findings worktree lines found f there
any-collect_findings worktree (some m ∷ lines) found f there =
    any-collect_findings worktree lines _ f
      (elim (Bool-cases (any (same_finding (finding_of worktree m)) found)) [
        | inl on ↦ rw on there
        | inr off ↦
            rw off
              (any-append (same_finding f) found (finding_of worktree m ∷ []) ∙ or_left _ _ there)
      ])

once_lem :
    (worktree : String) (lines : List (Option Finding)) (found : List Finding)
    → Once found
    → Once (collect_findings worktree found lines)
unfolding collect_findings
once_lem worktree [] found once = once
once_lem worktree (none ∷ lines) found once = once_lem worktree lines found once
once_lem worktree (some m ∷ lines) found once =
    once_lem worktree lines _
      (elim (Bool-cases (any (same_finding (finding_of worktree m)) found)) [
        | inl on ↦ rw on once
        | inr off ↦ rw off (Once-append found (finding_of worktree m) once off)
      ])

reports_lem :
    (worktree : String) (lines : List (Option Finding)) (found : List Finding)
    → Reports worktree (collect_findings worktree found lines) lines
unfolding collect_findings
reports_lem worktree [] found = tt
reports_lem worktree (none ∷ lines) found = reports_lem worktree lines found
reports_lem worktree (some m ∷ lines) found = (
  any-collect_findings worktree lines _ (finding_of worktree m)
      (elim (Bool-cases (any (same_finding (finding_of worktree m)) found)) [
        | inl on ↦ rw on on
        | inr off ↦ rw off (
            any-append _ found (finding_of worktree m ∷ [])
            ∙ or_last _ _ (same_refl (finding_of worktree m)))
      ]),
  reports_lem worktree lines _,
)

-- What holds of the findings before the lines and of those of the lines holds of all.
all_lem :
    (P : Finding → Type 0) (worktree : String) (lines : List (Option Finding))
    (found : List Finding)
    → All P found
    → All P (findings_of worktree lines)
    → All P (collect_findings worktree found lines)
unfolding collect_findings
all_lem P worktree [] found before h = before
all_lem P worktree (none ∷ lines) found before h = all_lem P worktree lines found before h
all_lem P worktree (some m ∷ lines) found before (one, rest) =
    all_lem P worktree lines _
      (if-lem (λ fs. All P fs) (any (same_finding (finding_of worktree m)) found) found _
        (λ _. before) (λ _. All-snoc P found (finding_of worktree m) before one))
      rest
  where
    All-snoc :
        (P : Finding → Type 0) (xs : List Finding) (x : Finding)
        → All P xs
        → P x
        → All P (xs ++ (x ∷ []))
    All-snoc P [] x h one = (one, tt)
    All-snoc P (y ∷ xs) x (first, h) one = (first, All-snoc P xs x h one)

IsOneOf-more :
    (g : Finding) (xs ys : List Finding) → All (IsOneOf xs) ys → All (IsOneOf (g ∷ xs)) ys
IsOneOf-more g xs [] h = tt
IsOneOf-more g xs (y ∷ ys) (there, h) = (ground (arith, there), IsOneOf-more g xs ys h)

IsOneOf-self : (xs : List Finding) → All (IsOneOf xs) xs
IsOneOf-self [] = tt
IsOneOf-self (x ∷ xs) = (
  or_left (same_finding x x) (any (same_finding x) xs) (same_refl x),
  IsOneOf-more x xs xs (IsOneOf-self xs),
)

-- The diagnostics of a text are the findings of all its lines that match, each of them once, and
-- nothing else.
pub diagnostics-Once :
    (lines : List (Option Finding)) (worktree : String)
    → Once (diagnostics lines worktree)
      × Reports worktree (diagnostics lines worktree) lines
      × All (IsOneOf (findings_of worktree lines)) (diagnostics lines worktree)
unfolding diagnostics
diagnostics-Once lines worktree = (
  once_lem worktree lines [] tt,
  reports_lem worktree lines [],
  all_lem (IsOneOf (findings_of worktree lines)) worktree lines [] tt
      (IsOneOf-self (findings_of worktree lines)),
)

any_kept : (p : Finding → Bool) (xs : List Finding) → (length (keep p xs) != 0) ≡ any p xs
any_kept p [] = ground arith
any_kept p (x ∷ xs) = ground (arith, any_kept p xs)

verdict_lem :
    (bad : Bool) → (◌≡◌ {A = String} (if bad then "failed" else "passed") "passed") ↔ (bad ≡ false)
unfolding string_eq
verdict_lem true = (λ e. sym (eq_true {A = String} "failed" "passed" e), λ e. cc)
verdict_lem false = (λ e. refl, λ e. refl)

-- A check passes exactly where none of its findings is an error, those beyond the first hundred
-- included, and it did not fail otherwise.
pub result-passed :
    (check : String) (findings : List Finding) (failed : Bool)
    → ((result check findings failed).status ≡ "passed")
      ↔ ((any (has_level "error") findings || failed) ≡ false)
unfolding result status counts
result-passed check findings failed =
    rw (any_kept (has_level "error") findings)
      (verdict_lem (any (has_level "error") findings || failed))
