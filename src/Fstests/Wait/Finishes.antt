-- ===== src/Fstests/Wait/Finishes.antt =====
-- The wait for a section reports a unit that finishes in time, however many polls raise.
use mathlib.Core.Option.{get_or}
use kdevops_ng.Prelude.{
  ℕ, ◌<◌, String, ◌≡◌, refl, ◌⊎◌, inl, inr, true, false, none, some, List, [], ◌∷◌, ◌++◌, arith,
  string_eq, contains, leb, ◌==◌, if◌then◌else◌,
}
use kdevops_ng.Prelude.Dict.{Dict, lookup}
use kdevops_ng.Fstests.Wait.{
  done_states, alive_states, Poll, Watch, first_watch, stop, again, check_deadline, latch,
  note_state, poll_once, watch, waited_of, wait,
}

abbrev pub active_of : Dict String → String
active_of props = get_or (lookup "ActiveState" props) ""

abbrev pub id_of : Dict String → String
id_of props = get_or (lookup "InvocationID" props) ""

-- Polls before the deadline on a guest that is up, each of which raises or sees the unit at work.
abbrev pub Busy : ℕ → List Poll → Type 0
Busy deadline [] = Unit
Busy deadline (p ∷ polls) =
    (contains alive_states p.host_state ≡ true)
    × (p.clock < deadline)
    × ((p.shown ≡ none)
        ⊎ ((props : Dict String) × (p.shown ≡ some props)
            × (contains done_states (active_of props) ≡ false)))
    × Busy deadline polls

-- The id of a start, the earlier one where the state shows none.
abbrev pub or_earlier : String → Dict String → String
or_earlier id props = if id_of props == "" then id else id_of props

-- The last id of a start that the polls show, and the one before them where they show none.
abbrev pub last_id : String → List Poll → String
last_id id [] = id
last_id id (p ∷ polls) =
    last_id (elim p.shown [ none ↦ id | some props ↦ or_earlier id props ]) polls

noted : Dict String → Watch → Watch
noted props w = record w {
  state = props;
  active_state = active_of props;
  invocation_id = or_earlier w.invocation_id props;
}

-- A poll that sees the unit done.
pub record Done (p : Poll) (props : Dict String) : Type 0 where
  pub up : contains alive_states p.host_state ≡ true
  pub shown : p.shown ≡ some props
  pub over : contains done_states (active_of props) ≡ true

early_test : (deadline clock : ℕ) → clock < deadline → leb deadline clock ≡ false
early_test deadline clock early = ground (arith, early)

poll-Done :
    (deadline : ℕ) (p : Poll) (props : Dict String) (w : Watch)
    → Done p props
    → poll_once deadline p w ≡ stop (noted props w)
unfolding poll_once note_state noted latch
poll-Done deadline p props w end = rw (end.up, end.shown, end.over, poll_once) refl

poll_silent :
    (deadline : ℕ) (p : Poll) (w : Watch)
    → contains alive_states p.host_state ≡ true
    → p.clock < deadline
    → p.shown ≡ none
    → poll_once deadline p w ≡ again w
unfolding poll_once check_deadline
poll_silent deadline p w up early silent =
    rw (up, silent, poll_once) (rw (early_test deadline p.clock early, check_deadline) refl)

poll_busy :
    (deadline : ℕ) (p : Poll) (props : Dict String) (w : Watch)
    → contains alive_states p.host_state ≡ true
    → p.clock < deadline
    → p.shown ≡ some props
    → contains done_states (active_of props) ≡ false
    → poll_once deadline p w ≡ again (noted props w)
unfolding poll_once check_deadline note_state noted latch
poll_busy deadline p props w up early shown busy =
    rw (up, shown, busy, poll_once) (rw (early_test deadline p.clock early, check_deadline) refl)

-- What the last poll leaves, but for the flags and the id.
watch-finishes :
    (deadline : ℕ) (before : List Poll) (p : Poll) (after : List Poll) (props : Dict String)
    (w : Watch)
    → Busy deadline before
    → Done p props
    → watch deadline (before ++ (p ∷ after)) w
      ≡ some (record w {
        state = props;
        active_state = active_of props;
        invocation_id = or_earlier (last_id w.invocation_id before) props;
      })
unfolding watch noted
watch-finishes deadline [] p after props w busy end =
    rw (poll-Done deadline p props w end, watch) refl
watch-finishes deadline (q ∷ before) p after props w (up, early, inl silent, busy) end =
    rw (poll_silent deadline q w up early silent, silent, watch)
      (watch-finishes deadline before p after props w busy end)
watch-finishes deadline (q ∷ before) p after props w (up, early, inr (now, shown, runs), busy) end =
    rw (poll_busy deadline q now w up early shown runs, shown, watch)
      (watch-finishes deadline before p after props (noted now w) busy end)

-- A unit that runs over some polls and is then seen done, before the deadline until then and on a
-- guest that is up, however many of the polls raise: whatever would come after, the wait ends with
-- the unit's own result, neither a crash nor a timeout, and asks the guest for the geometry of the
-- last start that any poll showed.
pub wait-finishes_section :
    (deadline : ℕ) (before : List Poll) (p : Poll) (after : List Poll) (props : Dict String)
    → Busy deadline before
    → Done p props
    → wait deadline (before ++ (p ∷ after))
      ≡ some (record {
        result = get_or (lookup "Result" props) "";
        exec_status = get_or (lookup "ExecMainStatus" props) "";
        active_state = active_of props;
        crashed = false;
        timed_out = false;
        stopped = false;
        geometry_of = some (or_earlier (last_id "" before) props);
      })
unfolding wait waited_of
wait-finishes_section deadline before p after props busy end =
    rw (watch-finishes deadline before p after props first_watch busy end, wait) refl
