-- ===== src/Blktests/Wait/Ends.antt =====
-- The wait ends, and how.
use mathlib.Core.Path.{subst}
use mathlib.Core.Option.{some-injective}
use kdevops_ng.Prelude.{
  ℕ, suc, ◌+◌, ◌≤◌, ◌<◌, String, ◌≡◌, ◌≢◌, refl, ◌∙◌, inl, inr, ◌⊎◌, true, false, Option, none,
  some, List, [], ◌∷◌, arith, string_eq, contains, leb, Bool-cases, Option-cases,
}
use kdevops_ng.Prelude.Lists.{All, length, any}
use kdevops_ng.Prelude.Dict.{Dict}
use kdevops_ng.Blktests.Wait.{
  done_states, alive_states, transport_budget, Poll, Watch, first_watch, Round, stop, again,
  poll_failed, poll_shown, poll_once, watch, Waited, waited_of, wait,
}

-- A round that goes on: the clock is before the deadline, nothing was decided, and the count of
-- failed polls is below the budget and one up after a failed poll.
record GoesOn (deadline clock : ℕ) (shown : Option (Dict String)) (w w' : Watch) : Type 0 where
  pub early : clock < deadline
  pub crashed_is : w'.crashed ≡ w.crashed
  pub timed_out_is : w'.timed_out ≡ w.timed_out
  pub counted :
      (shown ≢ none) ⊎ ((w'.poll_errors ≡ suc w.poll_errors) × (w'.poll_errors < transport_budget))

-- How a round that stops the loop leaves the watch.
abbrev pub Outcome : ℕ → ℕ → Watch → Type 0
Outcome deadline clock w =
    ((w.crashed ≡ true) × (w.timed_out ≡ false))
    ⊎ ((w.crashed ≡ false) × (w.timed_out ≡ true) × (deadline ≤ clock))
    ⊎ ((w.crashed ≡ false) × (w.timed_out ≡ false) × (contains done_states w.active_state ≡ true))

abbrev After : ℕ → ℕ → Option (Dict String) → Watch → Round → Type 0
After deadline clock shown w (stop w') =
    w.crashed ≡ false → w.timed_out ≡ false → Outcome deadline clock w'
After deadline clock shown w (again w') = GoesOn deadline clock shown w w'

poll_failed-After :
    (deadline clock : ℕ) (shown : Option (Dict String)) (w : Watch)
    → After deadline clock shown w
        (poll_failed deadline clock (record w { poll_errors = suc w.poll_errors }))
unfolding poll_failed
poll_failed-After deadline clock shown w =
    elim (Bool-cases (leb transport_budget (suc w.poll_errors))) [
      | inl spent ↦ rw spent λ a b. inl (refl, b)
      | inr left ↦ elim (Bool-cases (leb deadline clock)) [
        | inl late ↦ rw (left, late) λ a b. inr (inl (a, refl, ground arith))
        | inr early ↦
            rw (left, early)
              (record {
                early = ground arith;
                crashed_is = refl;
                timed_out_is = refl;
                counted = inr (refl, ground arith);
              })
      ]
    ]

poll_shown-After :
    (deadline clock : ℕ) (w : Watch) (props : Dict String) (active : String)
    → After deadline clock (some props) w (
        poll_shown deadline clock
          (record w { state = props; active_state = active; poll_errors = 0 }))
unfolding poll_shown
poll_shown-After deadline clock w props active = elim (Bool-cases (contains done_states active)) [
  | inl over ↦ rw over λ a b. inr (inr (a, b, over))
  | inr running ↦ elim (Bool-cases (leb deadline clock)) [
    | inl late ↦ rw (running, late) λ a b. inr (inl (a, refl, ground arith))
    | inr early ↦
        rw (running, early)
          (record {
            early = ground arith;
            crashed_is = refl;
            timed_out_is = refl;
            counted = inl (λ n. cc);
          })
  ]
]

poll_once-After :
    (deadline : ℕ) (p : Poll) (w : Watch)
    → After deadline p.clock p.shown w (poll_once deadline p w)
unfolding poll_once
poll_once-After deadline p w = elim (Bool-cases (contains alive_states p.host_state)) [
  | inr down ↦ rw (down, poll_once) λ a b. inl (refl, b)
  | inl up ↦ elim (Option-cases p.shown) [
    | inl silent ↦ rw (up, silent, poll_once) (poll_failed-After deadline p.clock none w)
    | inr (props, e) ↦ rw (up, e, poll_once) (poll_shown-After deadline p.clock w props _)
  ]
]

Round-cases : (r : Round) → ((w : Watch) × (r ≡ stop w)) ⊎ ((w : Watch) × (r ≡ again w))
Round-cases (stop w) = inl (w, refl)
Round-cases (again w) = inr (w, refl)

goes_on :
    (deadline : ℕ) (p : Poll) (w : Watch) {w' : Watch}
    → poll_once deadline p w ≡ again w'
    → GoesOn deadline p.clock p.shown w w'
goes_on deadline p w e = subst (After deadline p.clock p.shown w) e (poll_once-After deadline p w)

watch-Outcome :
    (deadline : ℕ) (polls : List Poll) (w : Watch) {out : Watch}
    → w.crashed ≡ false
    → w.timed_out ≡ false
    → watch deadline polls w ≡ some out
    → (clock : ℕ) × Outcome deadline clock out
unfolding watch
watch-Outcome deadline [] w a b e = cc
watch-Outcome deadline (p ∷ polls) w {out} a b e = elim (Round-cases (poll_once deadline p w)) [
  | inl (w', stops) ↦
      let is_out : w' ≡ out = some-injective _ _ (rw (stops, watch) at e) in
      (
        p.clock,
        subst (Outcome deadline p.clock) is_out
            ((subst (After deadline p.clock p.shown w) stops (poll_once-After deadline p w)) a b),
      )
  | inr (w', more) ↦
      let on = goes_on deadline p w more in
      watch-Outcome deadline polls w' {out = out} (on.crashed_is ∙ a) (on.timed_out_is ∙ b)
        (rw (more, watch) at e)
]

-- Either a poll comes past the deadline, or enough polls in a row raise.
abbrev pub Enough : ℕ → List Poll → Type 0
Enough deadline polls =
    (any (λ (p : Poll). leb deadline p.clock) polls ≡ true)
    ⊎ (All (λ (p : Poll). p.shown ≡ none) polls × (transport_budget ≤ length polls))

watch_late :
    (deadline : ℕ) (polls : List Poll) (w : Watch)
    → any (λ (p : Poll). leb deadline p.clock) polls ≡ true
    → (out : Watch) × (watch deadline polls w ≡ some out)
unfolding watch
watch_late deadline [] w late = cc
watch_late deadline (p ∷ polls) w late = elim (Round-cases (poll_once deadline p w)) [
  | inl (w', stops) ↦ (w', rw (stops, watch) refl)
  | inr (w', more) ↦
      let on = goes_on deadline p w more in
      let before = on.early in rw (more, watch) (watch_late deadline polls w' (ground arith))
]

watch-Silent :
    (deadline : ℕ) (polls : List Poll) (w : Watch)
    → All (λ (p : Poll). p.shown ≡ none) polls
    → w.poll_errors < transport_budget
    → transport_budget ≤ length polls + w.poll_errors
    → (out : Watch) × (watch deadline polls w ≡ some out)
unfolding watch
watch-Silent deadline [] w silent below enough = absurd (omega arith)
watch-Silent deadline (p ∷ polls) w (silent, rest) below enough =
    elim (Round-cases (poll_once deadline p w)) [
      | inl (w', stops) ↦ (w', rw (stops, watch) refl)
      | inr (w', more) ↦ elim ((goes_on deadline p w more).counted) [
        | inl shown ↦ absurd (shown silent)
        | inr (counted, still) ↦
            rw (more, watch) (watch-Silent deadline polls w' rest still (omega arith))
      ]
    ]

watch_ends :
    (deadline : ℕ) (polls : List Poll)
    → Enough deadline polls
    → (out : Watch) × (watch deadline polls first_watch ≡ some out)
watch_ends deadline polls (inl late) = watch_late deadline polls first_watch late
watch_ends deadline polls (inr (silent, enough)) =
    watch-Silent deadline polls first_watch silent (omega arith) (omega arith)

-- A wait that ended, in exactly one of three ways: the guest is down or its transport dead; the
-- deadline has passed, and the unit was stopped; or the unit is done.
abbrev pub Ended : Waited → Type 0
Ended out =
    ((out.crashed ≡ true) × (out.timed_out ≡ false) × (out.stopped ≡ false))
    ⊎ ((out.crashed ≡ false) × (out.timed_out ≡ true) × (out.stopped ≡ true))
    ⊎ ((out.crashed ≡ false)
        × (out.timed_out ≡ false)
        × (out.stopped ≡ false)
        × (contains done_states out.active_state ≡ true))

-- Over polls of which one is at or past the deadline, and over 20 or more polls that all raise, the
-- wait ends, whatever the states of the guest and of the unit are. It ends in exactly one of three
-- ways: a crash; a timeout, after which the unit is stopped; or a unit that is done.
pub wait_ends :
    (deadline : ℕ) (polls : List Poll)
    → Enough deadline polls
    → (out : Waited) × (wait deadline polls ≡ some out) × Ended out
unfolding wait
wait_ends deadline polls enough =
    let (w, e) = watch_ends deadline polls enough in
    let (clock, how) = watch-Outcome deadline polls first_watch {out = w} refl refl e in
    (
      waited_of w,
      rw (e, wait) refl,
      elim how [
        | inl (a, b) ↦ inl (a, b, b)
        | inr (inl (a, b, _)) ↦ inr (inl (a, b, b))
        | inr (inr (a, b, c)) ↦ inr (inr (a, b, b, c))
      ],
    )
