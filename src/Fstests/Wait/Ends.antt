-- ===== src/Fstests/Wait/Ends.antt =====
-- When the wait for a section ends.
use mathlib.Core.Path.{subst}
use kdevops_ng.Prelude.{
  ℕ, ◌<◌, String, ◌≡◌, refl, inl, inr, ◌⊎◌, true, false, none, some, List, [], ◌∷◌, arith,
  string_eq, contains, leb, Bool-cases, Option-cases,
}
use kdevops_ng.Prelude.Lists.{any}
use kdevops_ng.Fstests.Wait.{
  done_states, alive_states, Poll, Watch, first_watch, Round, stop, again, check_deadline,
  note_state, poll_once, watch, Waited, waited_of, wait,
}

-- How a watch stands when the loop stops.
Settled : Watch → Type 0
Settled w =
    ((w.crashed ≡ true) × (w.timed_out ≡ false))
    ⊎ ((w.crashed ≡ false) × (w.timed_out ≡ true))
    ⊎ ((w.crashed ≡ false) × (w.timed_out ≡ false) × (contains done_states w.active_state ≡ true))

Running : Watch → Type 0
Running w = (w.crashed ≡ false) × (w.timed_out ≡ false)

After : ℕ → ℕ → Round → Type 0
After deadline clock (stop w) = Settled w
After deadline clock (again w) = Running w × (clock < deadline)

check_deadline-After :
    (deadline clock : ℕ) (w : Watch)
    → Running w
    → After deadline clock (check_deadline deadline clock w)
unfolding check_deadline Running After Settled
check_deadline-After deadline clock w (a, b) = elim (Bool-cases (leb deadline clock)) [
  | inl late ↦ rw late (inr (inl (a, refl)))
  | inr early ↦ rw early ((a, b), ground arith)
]

poll_once-After :
    (deadline : ℕ) (p : Poll) (w : Watch)
    → Running w
    → After deadline p.clock (poll_once deadline p w)
unfolding poll_once Running After Settled note_state
poll_once-After deadline p w (a, b) = elim (Bool-cases (contains alive_states p.host_state)) [
  | inr down ↦ rw (down, poll_once) (inl (refl, b))
  | inl up ↦ elim (Option-cases p.shown) [
    | inl silent ↦ rw (up, silent, poll_once) (check_deadline-After deadline p.clock w (a, b))
    | inr (props, e) ↦ elim (Bool-cases (contains done_states (note_state props w).active_state)) [
      | inl over ↦ rw (up, e, over, poll_once) (inr (inr (a, b, over)))
      | inr on ↦
          rw (up, e, on, poll_once)
            (check_deadline-After deadline p.clock (note_state props w) (a, b))
    ]
  ]
]

Round-cases : (r : Round) → ((w : Watch) × (r ≡ stop w)) ⊎ ((w : Watch) × (r ≡ again w))
Round-cases (stop w) = inl (w, refl)
Round-cases (again w) = inr (w, refl)

watch_settles :
    (deadline : ℕ) (polls : List Poll) (w : Watch)
    → Running w
    → any (λ (p : Poll). leb deadline p.clock) polls ≡ true
    → (out : Watch) × (watch deadline polls w ≡ some out) × Settled out
unfolding watch After
watch_settles deadline [] w running late = cc
watch_settles deadline (p ∷ polls) w running late =
    let after = poll_once-After deadline p w running in
    elim (Round-cases (poll_once deadline p w)) [
      | inl (w', stops) ↦ (w', rw (stops, watch) refl, subst (After deadline p.clock) stops after)
      | inr (w', more) ↦
          let (still, early) = subst (After deadline p.clock) more after in
          rw (more, watch) (watch_settles deadline polls w' still (ground arith))
    ]

-- The three ways in which a wait ends; the guest is asked for the geometry but after a crash.
pub Ended : Waited → Type 0
Ended out =
    ((out.crashed ≡ true)
      × (out.timed_out ≡ false)
      × (out.stopped ≡ false)
      × (out.geometry_of ≡ none))
    ⊎ ((out.crashed ≡ false)
        × (out.timed_out ≡ true)
        × (out.stopped ≡ true)
        × ((id : String) × (out.geometry_of ≡ some id)))
    ⊎ ((out.crashed ≡ false)
        × (out.timed_out ≡ false)
        × (contains done_states out.active_state ≡ true)
        × ((id : String) × (out.geometry_of ≡ some id)))

Settled-Ended : (w : Watch) → Settled w → Ended (waited_of w)
unfolding Settled Ended waited_of
Settled-Ended w (inl (a, b)) = inl (a, b, b, rw a refl)
Settled-Ended w (inr (inl (a, b))) = inr (inl (a, b, b, (w.invocation_id, rw a refl)))
Settled-Ended w (inr (inr (a, b, c))) = inr (inr (a, b, c, (w.invocation_id, rw a refl)))

-- Over polls of which one is at or past the deadline the wait ends, in one of three ways: a
-- crash, after which the guest is not asked for the run's geometry; a timeout, after which the unit
-- is stopped and the geometry asked for; or a unit that is done, whose geometry is asked for.
pub wait-Ended :
    (deadline : ℕ) (polls : List Poll)
    → any (λ (p : Poll). leb deadline p.clock) polls ≡ true
    → (out : Waited) × (wait deadline polls ≡ some out) × Ended out
unfolding wait Running
wait-Ended deadline polls late =
    let (w, e, settled) = watch_settles deadline polls first_watch (refl, refl) late in
    (waited_of w, rw (e, wait) refl, Settled-Ended w settled)
