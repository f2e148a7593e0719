-- ===== src/Fstests/Wait.antt =====
-- f/fstests/wait.py: the loop that polls the unit of one section until it ends. Unlike the wait of
-- blktests it has no budget for polls that raise.
pub mod Ends
pub mod Finishes
use mathlib.Core.Option.{get_or}
use kdevops_ng.Prelude.{
  ℕ, String, Bool, true, false, not, Option, none, some, List, [], ◌∷◌, string_eq, contains, leb,
  if◌then◌else◌, ◌==◌,
}
use kdevops_ng.Prelude.Dict.{Dict, lookup}

-- `_DONE` and `_ALIVE`
abbrev pub done_states : List String
done_states = "inactive" ∷ "failed" ∷ []

abbrev pub alive_states : List String
alive_states = "active" ∷ "activating" ∷ "reloading" ∷ "refreshing" ∷ []

-- One round's sight of the host's qemu unit, of the section's unit, none where the poll raises,
-- and of the clock.
pub record Poll : Type 0 where
  pub host_state : String
  pub shown : Option (Dict String)
  pub clock : ℕ

pub record Watch : Type 0 where
  pub state : Dict String
  pub active_state : String
  pub invocation_id : String
  pub crashed : Bool
  pub timed_out : Bool

abbrev pub first_watch : Watch
first_watch = record {
  state = [];
  active_state = "";
  invocation_id = "";
  crashed = false;
  timed_out = false;
}

pub data Round : Type 0 where
  stop again : Watch → Round

unfoldable pub check_deadline : ℕ → ℕ → Watch → Round
check_deadline deadline clock w =
    if leb deadline clock then stop (record w { timed_out = true }) else again w

-- The id of this start of the unit is kept once it was seen.
unfoldable pub latch : String → String → String
latch seen now = if now == "" then seen else now

unfoldable pub note_state : Dict String → Watch → Watch
note_state props w = record w {
  state = props;
  active_state = get_or (lookup "ActiveState" props) "";
  invocation_id = latch w.invocation_id (get_or (lookup "InvocationID" props) "");
}

unfoldable pub poll_once : ℕ → Poll → Watch → Round
poll_once deadline p w =
    if not (contains alive_states p.host_state)
    then stop (record w { crashed = true })
    else elim p.shown [
      | none ↦ check_deadline deadline p.clock w
      | some props ↦
          if contains done_states (note_state props w).active_state
          then stop (note_state props w)
          else check_deadline deadline p.clock (note_state props w)
    ]

-- None where the loop still runs after these polls.
unfoldable pub watch : ℕ → List Poll → Watch → Option Watch
watch deadline [] w = none
watch deadline (p ∷ polls) w = elim (poll_once deadline p w) [
  | stop w' ↦ some w'
  | again w' ↦ watch deadline polls w'
]

-- The outcome of the step: with whether it stopped the unit, and whether it asked the guest for
-- the geometry of the run, by the id of its start.
pub record Waited : Type 0 where
  pub result : String
  pub exec_status : String
  pub active_state : String
  pub crashed : Bool
  pub timed_out : Bool
  pub stopped : Bool
  pub geometry_of : Option String

unfoldable pub waited_of : Watch → Waited
waited_of w = record {
  result = get_or (lookup "Result" w.state) "";
  exec_status = get_or (lookup "ExecMainStatus" w.state) "";
  active_state = w.active_state;
  crashed = w.crashed;
  timed_out = w.timed_out;
  stopped = w.timed_out;
  geometry_of = if w.crashed then none else some w.invocation_id;
}

unfoldable pub wait : ℕ → List Poll → Option Waited
wait deadline polls = elim (watch deadline polls first_watch) [
  | none ↦ none
  | some w ↦ some (waited_of w)
]
