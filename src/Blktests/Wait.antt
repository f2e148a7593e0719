-- ===== src/Blktests/Wait.antt =====
-- f/blktests/wait.py: the loop that polls the unit of one group until it ends.
pub mod Ends
pub mod Finishes
use mathlib.Core.Option.{get_or}
use kdevops_ng.Prelude.{
  ℕ, suc, String, Bool, true, false, not, Option, none, some, List, [], ◌∷◌, string_eq, contains,
  leb, if◌then◌else◌,
}
use kdevops_ng.Prelude.Dict.{Dict, lookup}

-- `_DONE`, `_ALIVE` and `_TRANSPORT_BUDGET`
abbrev pub done_states : List String
done_states = "inactive" ∷ "failed" ∷ []

abbrev pub alive_states : List String
alive_states = "active" ∷ "activating" ∷ "reloading" ∷ "refreshing" ∷ []

abbrev pub transport_budget : ℕ
transport_budget = 20

-- What one round of the loop sees: the state of the guest's qemu unit, the properties of the
-- group's unit, none where the poll raises, and the clock after it.
pub record Poll : Type 0 where
  pub host_state : String
  pub shown : Option (Dict String)
  pub clock : ℕ

pub record Watch : Type 0 where
  pub state : Dict String
  pub active_state : String
  pub poll_errors : ℕ
  pub crashed : Bool
  pub timed_out : Bool

abbrev pub first_watch : Watch
first_watch = record {
  state = [];
  active_state = "";
  poll_errors = 0;
  crashed = false;
  timed_out = false;
}

-- The loop stops, or goes on to the next round.
pub data Round : Type 0 where
  stop : Watch → Round
  again : Watch → Round

-- A poll that raised, after it was counted.
unfoldable pub poll_failed : ℕ → ℕ → Watch → Round
poll_failed deadline clock w =
    if leb transport_budget w.poll_errors
    then stop (record w { crashed = true })
    else if leb deadline clock
    then stop (record w { timed_out = true })
    else again w

unfoldable pub poll_shown : ℕ → ℕ → Watch → Round
poll_shown deadline clock w =
    if contains done_states w.active_state
    then stop w
    else if leb deadline clock
    then stop (record w { timed_out = true })
    else again w

unfoldable pub poll_once : ℕ → Poll → Watch → Round
poll_once deadline p w =
    if not (contains alive_states p.host_state)
    then stop (record w { crashed = true })
    else elim p.shown [
      | none ↦ poll_failed deadline p.clock (record w { poll_errors = suc w.poll_errors })
      | some props ↦ poll_shown deadline p.clock (record w {
        state = props;
        active_state = get_or (lookup "ActiveState" props) "";
        poll_errors = 0;
      })
    ]

-- None where the loop still runs after these polls.
unfoldable pub watch : ℕ → List Poll → Watch → Option Watch
watch deadline [] w = none
watch deadline (p ∷ polls) w = elim (poll_once deadline p w) [
  | stop w' ↦ some w'
  | again w' ↦ watch deadline polls w'
]

-- The outcome of the step, with whether it stopped the unit.
pub record Waited : Type 0 where
  pub result : String
  pub exec_status : String
  pub active_state : String
  pub crashed : Bool
  pub timed_out : Bool
  pub stopped : Bool

abbrev pub waited_of : Watch → Waited
waited_of w = record {
  result = get_or (lookup "Result" w.state) "";
  exec_status = get_or (lookup "ExecMainStatus" w.state) "";
  active_state = w.active_state;
  crashed = w.crashed;
  timed_out = w.timed_out;
  stopped = w.timed_out;
}

unfoldable pub wait : ℕ → List Poll → Option Waited
wait deadline polls = elim (watch deadline polls first_watch) [
  | none ↦ none
  | some w ↦ some (waited_of w)
]
