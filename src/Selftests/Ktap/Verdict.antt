-- ===== src/Selftests/Ktap/Verdict.antt =====
-- What an item that passed has reported.
use kdevops_ng.Prelude.{
  ℕ, ◌≡◌, ◌≢◌, refl, sym, ap, ◌∙◌, ◌⊎◌, Bool, true, false, ◌&&◌, inl, inr, Option, none, some, List,
  nat_eq, string_eq, arith, Option-cases,
}
use kdevops_ng.Prelude.Lists.{length, keep}
use kdevops_ng.Selftests.Ktap.{
  Line, passed, Summary, empty_summary, after_header, add_lines, is_planned, finish, parse_ktap,
  Ending, plumbing_ok, crash_fails, crash_count, verdict, collect, Totals, totals_ok,
}
use kdevops_ng.Selftests.Ktap.Journal.{
  plans_of, totals_of, first, last_after, LastHeader, after_header-LastHeader, plan-add_lines,
  totals-add_lines, Agrees, totals_ok-Agrees,
}
use mathlib.Core.Path.{subst}
use kdevops_ng.Selftests.Ktap.Counts.{results_of, is_passed, is_failed, is_notrun, add_lines-Counts}

-- What an item that passed has: a run that was done, with no exit status or 0, in a guest that stayed
-- up, before its deadline; no crash of a user's program, if one is to fail the item; and after the
-- journal's last header a first plan of as many results as there are, none of them failed and one
-- passed, with whose counts the last totals agree, if there are any.
pub record Sound (e : Ending) (lines : List Line) : Type 0 where
  pub finished : e.result ≡ "done"
  pub exited : (e.exec_status ≡ "") ⊎ (e.exec_status ≡ "0")
  pub stayed_up : e.crashed ≡ false
  pub in_time : e.timed_out ≡ false
  pub no_crash : (e.fail_on_user_crash ≡ false) ⊎ (crash_count e ≡ 0)
  pub rest : List Line
  pub reported : LastHeader lines rest
  pub planned : first (plans_of rest) ≡ some (length (results_of rest))
  pub totalled :
      Agrees
        (last_after none (totals_of rest))
        (length (keep is_passed (results_of rest)))
        (length (keep is_failed (results_of rest)))
        (length (keep is_notrun (results_of rest)))
  pub none_failed : length (keep is_failed (results_of rest)) ≡ 0
  pub one_passed : length (keep is_passed (results_of rest)) ≢ 0

plumbed :
    (e : Ending)
    → plumbing_ok e ≡ true
    → (e.result ≡ "done")
      × ((e.exec_status ≡ "") ⊎ (e.exec_status ≡ "0"))
      × (e.crashed ≡ false)
      × (e.timed_out ≡ false)
unfolding plumbing_ok
plumbed e h = ground (arith, h)

uncounted :
    (e : Ending) → crash_fails e ≡ false → (e.fail_on_user_crash ≡ false) ⊎ (crash_count e ≡ 0)
unfolding crash_fails
uncounted e h = ground (arith, h)

passes :
    (e : Ending) (s : Summary)
    → verdict e s ≡ passed
    → (plumbing_ok e ≡ true)
      × (s.complete ≡ true)
      × (s.failed_count ≡ 0)
      × (crash_fails e ≡ false)
      × (s.passed_count ≢ 0)
unfolding verdict
passes e s h = ground (arith, h)

planned_lem :
    (plan : Option ℕ) (count : ℕ) (more : Bool)
    → (is_planned plan count && more) ≡ true
    → (plan ≡ some count) × (more ≡ true)
unfolding is_planned
planned_lem none count more h = cc
planned_lem (some plan) count more h = ground (arith, h)

incomplete : (e : Ending) → verdict e empty_summary ≢ passed
unfolding empty_summary
incomplete e h = cc ((passes e empty_summary h).1)

unreported : (lines : List Line) → after_header lines ≡ none → parse_ktap lines ≡ empty_summary
unfolding parse_ktap
unreported lines n = rw (n, parse_ktap) refl

reported :
    (lines rest : List Line)
    → after_header lines ≡ some rest
    → parse_ktap lines ≡ finish (add_lines rest (record empty_summary { report_present = true }))
unfolding parse_ktap
reported lines rest r = rw (r, parse_ktap) refl

start : Summary
start = record empty_summary { report_present = true }

from_none :
    (rest : List Line)
    → (length (add_lines rest start).tests ≡ length (results_of rest))
      × ((add_lines rest start).passed_count ≡ length (keep is_passed (results_of rest)))
      × ((add_lines rest start).failed_count ≡ length (keep is_failed (results_of rest)))
      × ((add_lines rest start).skipped_count ≡ length (keep is_notrun (results_of rest)))
unfolding empty_summary start
from_none rest =
    let counts = add_lines-Counts rest start in
    (
      omega (arith, counts.all_tests),
      omega (arith, counts.passed_ones),
      omega (arith, counts.failed_ones),
      omega (arith, counts.skipped_ones),
    )

Agrees-of :
    (o p : Option Totals) {a a' b b' c c' : ℕ}
    → o ≡ p
    → a ≡ a'
    → b ≡ b'
    → c ≡ c'
    → Agrees o a b c
    → Agrees p a' b' c'
Agrees-of o p {a' = a'} {b' = b'} {c' = c'} oo aa bb cc' h =
    subst (λ o. Agrees o a' b' c') oo (rw (← aa, ← bb, ← cc') h)

sound_lem :
    (e : Ending) (lines rest : List Line)
    → after_header lines ≡ some rest
    → verdict e (finish (add_lines rest start)) ≡ passed
    → Sound e lines
unfolding finish start empty_summary
sound_lem e lines rest reported h =
    let s = add_lines rest start in
    let (plumbing, complete, unfailed, uncrashed, done) = passes e (finish s) h in
    let (tests, passing, fails, skips) = from_none rest in
    let (planned, agreed) = planned_lem s.plan (length s.tests) (totals_ok s.totals s) complete in
    let (finished, exited, stayed_up, in_time) = plumbed e plumbing in
    record {
      finished = finished;
      exited = exited;
      stayed_up = stayed_up;
      in_time = in_time;
      no_crash = uncounted e uncrashed;
      rest = rest;
      reported = after_header-LastHeader lines rest reported;
      planned = sym (plan-add_lines rest start) ∙ planned ∙ ap some tests;
      totalled =
          Agrees-of s.totals _ (totals-add_lines rest start) passing fails skips
            (totals_ok-Agrees s.totals s agreed);
      none_failed = sym fails ∙ unfailed;
      one_passed = λ z. done (passing ∙ z);
    }

-- An item passes only on a run that was done, with no exit status or 0, in a guest that stayed up,
-- before its deadline, with no crash of a user's program if one is to fail it. After its journal's
-- last header the first plan is of as many results as there are, none of them failed and one
-- passed, and the last totals, if there are any, agree with their counts.
pub collect-Sound : (e : Ending) (lines : List Line) → collect e lines ≡ passed → Sound e lines
unfolding collect start
collect-Sound e lines h = elim (Option-cases (after_header lines)) [
  | inl n ↦ absurd (incomplete e (sym (ap (verdict e) (unreported lines n)) ∙ h))
  | inr (rest, r) ↦ sound_lem e lines rest r (sym (ap (verdict e) (reported lines rest r)) ∙ h)
]
