-- ===== src/Blktests/Wait/Finishes.antt =====
-- The wait reports a unit that finishes in time.
use mathlib.Core.Option.{get_or}
use kdevops_ng.Prelude.{
  ℕ, suc, ◌<◌, String, ◌≡◌, refl, ◌⊎◌, inl, inr, true, false, none, some, List, [], ◌∷◌, ◌++◌,
  arith, string_eq, contains, leb,
}
use kdevops_ng.Prelude.Dict.{Dict, lookup}
use kdevops_ng.Blktests.Wait.{
  done_states, alive_states, transport_budget, Poll, Watch, first_watch, stop, again, poll_failed,
  poll_shown, poll_once, watch, wait,
}

abbrev pub active_of : Dict String → String
active_of props = get_or (lookup "ActiveState" props) ""

-- Polls over which the unit runs, before the deadline, on a guest that is up; of the polls in a row
-- that raise, the errors before them included, there are fewer than the budget.
abbrev pub Running : ℕ → ℕ → List Poll → Type 0
Running deadline errors [] = Unit
Running deadline errors (p ∷ polls) =
    (contains alive_states p.host_state ≡ true)
    × (p.clock < deadline)
    × (((p.shown ≡ none) × (suc errors < transport_budget) × Running deadline (suc errors) polls)
        ⊎ ((props : Dict String) × (p.shown ≡ some props)
            × (contains done_states (active_of props) ≡ false)
            × Running deadline 0 polls))

-- A poll that sees the unit done.
pub record Done (p : Poll) (props : Dict String) : Type 0 where
  pub up : contains alive_states p.host_state ≡ true
  pub shown : p.shown ≡ some props
  pub over : contains done_states (active_of props) ≡ true

early_test : (deadline clock : ℕ) → clock < deadline → leb deadline clock ≡ false
early_test deadline clock early = ground (arith, early)

within_budget : (errors : ℕ) → errors < transport_budget → leb transport_budget errors ≡ false
within_budget errors few = ground (arith, few)

poll-Done :
    (deadline : ℕ) (p : Poll) (props : Dict String) (w : Watch)
    → Done p props
    → poll_once deadline p w
      ≡ stop (record w { state = props; active_state = active_of props; poll_errors = 0 })
unfolding poll_once poll_shown
poll-Done deadline p props w end =
    rw (end.up, end.shown, poll_once) (rw (end.over, poll_shown) refl)

poll_silent :
    (deadline : ℕ) (p : Poll) (w : Watch)
    → contains alive_states p.host_state ≡ true
    → p.clock < deadline
    → p.shown ≡ none
    → suc w.poll_errors < transport_budget
    → poll_once deadline p w ≡ again (record w { poll_errors = suc w.poll_errors })
unfolding poll_once poll_failed
poll_silent deadline p w up early silent left =
    rw (up, silent, poll_once)
      (rw (within_budget (suc w.poll_errors) left, poll_failed)
        (rw (early_test deadline p.clock early) refl))

poll_busy :
    (deadline : ℕ) (p : Poll) (props : Dict String) (w : Watch)
    → contains alive_states p.host_state ≡ true
    → p.clock < deadline
    → p.shown ≡ some props
    → contains done_states (active_of props) ≡ false
    → poll_once deadline p w
      ≡ again (record w { state = props; active_state = active_of props; poll_errors = 0 })
unfolding poll_once poll_shown
poll_busy deadline p props w up early shown busy =
    rw (up, shown, poll_once) (rw (busy, poll_shown) (rw (early_test deadline p.clock early) refl))

-- What the last poll leaves does not depend on those before it, but for the flags.
watch-finishes :
    (deadline : ℕ) (before : List Poll) (p : Poll) (after : List Poll) (props : Dict String)
    (w : Watch)
    → Running deadline w.poll_errors before
    → Done p props
    → watch deadline (before ++ (p ∷ after)) w
      ≡ some (record w { state = props; active_state = active_of props; poll_errors = 0 })
unfolding watch
watch-finishes deadline [] p after props w running end =
    rw (poll-Done deadline p props w end, watch) refl
watch-finishes deadline (q ∷ before) p after props w (up, early, inl (silent, left, running)) end =
    rw (poll_silent deadline q w up early silent left, watch)
      (watch-finishes deadline before p after props (record w { poll_errors = suc w.poll_errors })
        running end)
watch-finishes deadline (q ∷ before) p after props w (up, early, inr (now, shown, busy, running))
      end =
    rw (poll_busy deadline q now w up early shown busy, watch)
      (watch-finishes deadline before p after props
        (record w { state = now; active_state = active_of now; poll_errors = 0 }) running end)

-- A unit that runs over some polls and is then seen done, before the deadline until then and on a
-- guest that is up, with fewer than 20 polls in a row that raise: whatever would come after, the wait
-- ends with the unit's own result, and neither a crash nor a timeout.
pub wait-finishes :
    (deadline : ℕ) (before : List Poll) (p : Poll) (after : List Poll) (props : Dict String)
    → Running deadline 0 before
    → Done p props
    → wait deadline (before ++ (p ∷ after))
      ≡ some (record {
        result = get_or (lookup "Result" props) "";
        exec_status = get_or (lookup "ExecMainStatus" props) "";
        active_state = active_of props;
        crashed = false;
        timed_out = false;
        stopped = false;
      })
unfolding wait
wait-finishes deadline before p after props running end =
    rw (watch-finishes deadline before p after props first_watch running end, wait) refl
