-- ===== src/Selftests/Ktap/Journal.antt =====
-- What a journal says after its last header: its first plan and its last totals.
use mathlib.Core.Option.{some-injective}
use kdevops_ng.Prelude.{
  ℕ, ◌+◌, ◌≡◌, refl, sym, ap, ◌∙◌, Bool, true, false, Option, none, some, List, [], ◌∷◌, ◌++◌,
  arith, Option-cases, inl, inr, nat_eq,
}
use kdevops_ng.Prelude.Lists.{any}
use kdevops_ng.Selftests.Ktap.{
  Line, header, plan_line, totals_line, result, other, Status, passed, failed, notrun, Totals,
  Summary, after_header, status_of, count_status, add_result, first_plan, add_line, add_lines,
  totals_ok,
}

abbrev pub is_header : Line → Bool
is_header header = true
is_header (plan_line _) = false
is_header (totals_line _) = false
is_header (result _ _ _ _) = false
is_header other = false

-- The plans, and the totals, of the lines in their order.
abbrev pub plans_of : List Line → List ℕ
plans_of [] = []
plans_of (plan_line n ∷ lines) = n ∷ plans_of lines
plans_of (header ∷ lines) = plans_of lines
plans_of (totals_line _ ∷ lines) = plans_of lines
plans_of (result _ _ _ _ ∷ lines) = plans_of lines
plans_of (other ∷ lines) = plans_of lines

abbrev pub totals_of : List Line → List Totals
totals_of [] = []
totals_of (totals_line t ∷ lines) = t ∷ totals_of lines
totals_of (header ∷ lines) = totals_of lines
totals_of (plan_line _ ∷ lines) = totals_of lines
totals_of (result _ _ _ _ ∷ lines) = totals_of lines
totals_of (other ∷ lines) = totals_of lines

module _ {A : Type 0} where
  abbrev pub first : List A → Option A
  first [] = none
  first (a ∷ more) = some a

  abbrev pub last_after : Option A → List A → Option A
  last_after held [] = held
  last_after held (a ∷ more) = last_after (some a) more

-- A journal whose last header stands before the rest.
pub record LastHeader (lines rest : List Line) : Type 0 where
  pub before : List Line
  pub split : lines ≡ before ++ (header ∷ rest)
  pub no_more : any is_header rest ≡ false

no_header : (lines : List Line) → after_header lines ≡ none → any is_header lines ≡ false
unfolding after_header
no_header [] n = refl
no_header (header ∷ lines) n = elim (Option-cases (after_header lines)) [
  | inl e ↦ cc (rw (e, after_header) at n)
  | inr (found, e) ↦ cc (rw (e, after_header) at n)
]
no_header (plan_line _ ∷ lines) n = no_header lines n
no_header (totals_line _ ∷ lines) n = no_header lines n
no_header (result _ _ _ _ ∷ lines) n = no_header lines n
no_header (other ∷ lines) n = no_header lines n

further :
    (line : Line) (lines rest : List Line) → LastHeader lines rest → LastHeader (line ∷ lines) rest
further line lines rest h = record {
  before = line ∷ h.before;
  split = ap (λ ls. line ∷ ls) h.split;
  no_more = h.no_more;
}

pub after_header-LastHeader :
    (lines rest : List Line) → after_header lines ≡ some rest → LastHeader lines rest
unfolding after_header
after_header-LastHeader [] rest e = cc
after_header-LastHeader (header ∷ lines) rest e = elim (Option-cases (after_header lines)) [
  | inl n ↦
      let here = some-injective lines rest (rw (n, after_header) at e) in
      record {
        before = [];
        split = ap (λ ls. header ∷ ls) here;
        no_more = sym (ap (any is_header) here) ∙ no_header lines n;
      }
  | inr (found, f) ↦
      further header lines rest
        (after_header-LastHeader lines rest (f ∙ (rw (f, after_header) at e)))
]
after_header-LastHeader (plan_line n ∷ lines) rest e =
    further (plan_line n) lines rest (after_header-LastHeader lines rest e)
after_header-LastHeader (totals_line t ∷ lines) rest e =
    further (totals_line t) lines rest (after_header-LastHeader lines rest e)
after_header-LastHeader (result k d c t ∷ lines) rest e =
    further (result k d c t) lines rest (after_header-LastHeader lines rest e)
after_header-LastHeader (other ∷ lines) rest e =
    further other lines rest (after_header-LastHeader lines rest e)

abbrev either : Option ℕ → Option ℕ → Option ℕ
either none later = later
either (some n) later = some n

either_first : (o : Option ℕ) (n : ℕ) (p : Option ℕ) → either (first_plan o n) p ≡ either o (some n)
either_first none n p = refl
either_first (some m) n p = refl

either-none : (o : Option ℕ) → either o none ≡ o
either-none none = refl
either-none (some n) = refl

counted_plan : (st : Status) (b : Summary) → (count_status st b).plan ≡ b.plan
unfolding count_status
counted_plan passed b = refl
counted_plan failed b = refl
counted_plan notrun b = refl

counted_totals : (st : Status) (b : Summary) → (count_status st b).totals ≡ b.totals
unfolding count_status
counted_totals passed b = refl
counted_totals failed b = refl
counted_totals notrun b = refl

pub plan-add_lines :
    (lines : List Line) (b : Summary)
    → (add_lines lines b).plan ≡ either b.plan (first (plans_of lines))
unfolding add_lines add_line add_result
plan-add_lines [] b = sym (either-none b.plan)
plan-add_lines (header ∷ lines) b = plan-add_lines lines b
plan-add_lines (plan_line n ∷ lines) b =
    plan-add_lines lines (record b { plan = first_plan b.plan n }) ∙ either_first b.plan n _
plan-add_lines (totals_line t ∷ lines) b = plan-add_lines lines (record b { totals = some t })
plan-add_lines (result k d c t ∷ lines) b =
    plan-add_lines lines (add_result k d c t b)
    ∙ ap (λ o. either o (first (plans_of lines))) (counted_plan (status_of k d) b)
plan-add_lines (other ∷ lines) b = plan-add_lines lines b

pub totals-add_lines :
    (lines : List Line) (b : Summary)
    → (add_lines lines b).totals ≡ last_after b.totals (totals_of lines)
unfolding add_lines add_line add_result
totals-add_lines [] b = refl
totals-add_lines (header ∷ lines) b = totals-add_lines lines b
totals-add_lines (plan_line n ∷ lines) b =
    totals-add_lines lines (record b { plan = first_plan b.plan n })
totals-add_lines (totals_line t ∷ lines) b = totals-add_lines lines (record b { totals = some t })
totals-add_lines (result k d c t ∷ lines) b =
    totals-add_lines lines (add_result k d c t b)
    ∙ ap (λ o. last_after o (totals_of lines)) (counted_totals (status_of k d) b)
totals-add_lines (other ∷ lines) b = totals-add_lines lines b

-- Totals, where there are any, that agree with three counts.
abbrev pub Agrees : Option Totals → ℕ → ℕ → ℕ → Type 0
Agrees none passes fails skips = Unit
Agrees (some t) passes fails skips =
    (t.passed + t.xfail + t.xpass ≡ passes) × (t.failed + t.error ≡ fails) × (t.skipped ≡ skips)

pub totals_ok-Agrees :
    (o : Option Totals) (s : Summary)
    → totals_ok o s ≡ true
    → Agrees o s.passed_count s.failed_count s.skipped_count
unfolding totals_ok
totals_ok-Agrees none s h = tt
totals_ok-Agrees (some t) s h = ground (arith, h)
