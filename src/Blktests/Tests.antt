-- ===== src/Blktests/Tests.antt =====
-- A wait over a few polls, and the verdict on a run of two groups.
use mathlib.Core.List.{cons≢nil}
use mathlib.Core.Option.{get_or}
use kdevops_ng.Prelude.{
  ℕ, ◌≡◌, ◌≢◌, refl, sym, ◌∙◌, ◌↔◌, inl, inr, String, true, false, Option, none, some, List, [],
  ◌∷◌, ◌++◌, arith, map, string_eq, nat_eq,
}
use kdevops_ng.Prelude.Lists.{keep, All, sort_by, insert_by}
use kdevops_ng.Prelude.Dict.{Dict, lookup, insert}
use kdevops_ng.Prelude.Words.{
  words, join, split_at, strip_ending, strip, lstrip, rstrip, split_lines, is_break, text_ltb,
}
use kdevops_ng.Blktests.Args.{
  all_name_chars, all_decimal, is_group_name, test_group, add_test, by_group, joined, select,
  test_args, group_args, build_args,
}
use kdevops_ng.Blktests.Args.Members.{IsTest, is_of, positionals, build_args-members}
use kdevops_ng.Blktests.Wait.{Poll, Waited, poll_once, poll_failed, poll_shown, watch, wait}
use kdevops_ng.Blktests.Wait.Finishes.{Running, Done, active_of, wait-finishes}
use kdevops_ng.Blktests.Wait.Ends.{Ended, wait_ends}
use kdevops_ng.Blktests.Files.{
  Devdir, Row, note_lines, with_status, parse_seqres, is_test_number, row_of, file_rows, all_rows,
  safe_group, collect_group_rows,
}
use kdevops_ng.Blktests.Files.Sound.{DirFine, collect_group_rows-DirFine}
use kdevops_ng.Blktests.Results.{passed, Group, collect, group_status, run_status}
use kdevops_ng.Blktests.Results.Verdict.{entry_status, CleanEntry, run_status-CleanEntry}

abbrev sees : Option (Dict String) → ℕ → Poll
sees shown clock = record { host_state = "active"; shown = shown; clock = clock }

abbrev props : String → Dict String
props active = ("Result", "success") ∷ ("ExecMainStatus", "0") ∷ ("ActiveState", active) ∷ []

abbrev polls : List Poll
polls =
    sees none 10
    ∷ sees (some (props "activating")) 20
    ∷ sees (some (props "inactive")) 30
    ∷ sees none 100
    ∷ []

wait_ends_example : (out : Waited) × (wait 90 polls ≡ some out) × Ended out
wait_ends_example = wait_ends 90 polls (inl refl)

finished : Waited
finished = record {
  result = "success";
  exec_status = "0";
  active_state = "inactive";
  crashed = false;
  timed_out = false;
  stopped = false;
}

abbrev still_running : List Poll
still_running = sees none 10 ∷ sees (some (props "activating")) 20 ∷ []

runs : Running 90 0 still_running
unfolding string_eq lookup
runs = (
  refl,
  omega arith,
  inl (refl, omega arith, (refl, omega arith, inr (props "activating", refl, refl, tt))),
)

abbrev last_poll : Poll
last_poll = sees (some (props "inactive")) 95

ends : Done last_poll (props "inactive")
unfolding string_eq lookup
ends = record { up = refl; shown = refl; over = refl }

wait-finishes_example :
    wait 90 (still_running ++ (last_poll ∷ []))
    ≡ some (record {
      result = get_or (lookup "Result" (props "inactive")) "";
      exec_status = get_or (lookup "ExecMainStatus" (props "inactive")) "";
      active_state = active_of (props "inactive");
      crashed = false;
      timed_out = false;
      stopped = false;
    })
wait-finishes_example = wait-finishes 90 still_running last_poll [] (props "inactive") runs ends

waits : wait 90 polls ≡ some finished
unfolding wait watch poll_once poll_failed poll_shown lookup string_eq finished
waits = refl

abbrev groups : List (Option Group)
groups =
    some (record { waited = finished; rows = "pass" ∷ "not run" ∷ [] })
    ∷ some (record { waited = finished; rows = "pass" ∷ [] })
    ∷ []

run_status-CleanEntry_example :
    run_status (map entry_status groups) ≡ passed ↔ (groups ≢ []) × All CleanEntry groups
run_status-CleanEntry_example = run_status-CleanEntry groups

run_passes : run_status (map entry_status groups) ≡ passed
unfolding run_status collect group_status finished string_eq
run_passes = refl

abbrev named_tests : String
named_tests = "block/002 nvme/003 block/005"

named_words : words named_tests ≡ "block/002" ∷ "nvme/003" ∷ "block/005" ∷ []
unfolding words string_eq nat_eq
named_words = refl

some_named : words named_tests ≢ []
some_named none_left = cons≢nil (sym named_words ∙ none_left)

all_named : All IsTest (words named_tests)
unfolding words string_eq nat_eq IsTest test_group split_at all_name_chars all_decimal
all_named = (("block", refl), (("nvme", refl), (("block", refl), tt)))

build_args-members_example :
    (out : Dict String) × (build_args "tests" [] named_tests ≡ some out)
    × ((g : String) → positionals g out ≡ join " " (keep (is_of g) (words named_tests)))
build_args-members_example = build_args-members [] named_tests some_named all_named

two_units :
    build_args "tests" [] named_tests
    ≡ some (("block", "block/002 block/005") ∷ ("nvme", "nvme/003") ∷ [])
unfolding build_args test_args by_group add_test joined join words string_eq nat_eq test_group
    split_at all_name_chars all_decimal lookup insert
two_units = refl

not_a_test : build_args "tests" [] "block/2" ≡ none
unfolding build_args test_args by_group words string_eq nat_eq test_group split_at all_name_chars
not_a_test = refl

no_tests : build_args "tests" ("block" ∷ []) " " ≡ none
unfolding build_args test_args words string_eq
no_tests = refl

groups_once :
    build_args "groups" ("dm" ∷ "md" ∷ "dm" ∷ []) "x" ≡ some (("dm", "dm") ∷ ("md", "md") ∷ [])
unfolding build_args group_args select is_group_name strip_ending all_name_chars string_eq nat_eq
groups_once = refl

not_a_group : build_args "groups" ("d/m" ∷ []) "" ≡ none
unfolding build_args group_args select is_group_name strip_ending all_name_chars string_eq nat_eq
not_a_group = refl

-- One test over two devices, and its log.
abbrev on_disk : List Devdir
on_disk =
    record {
      name = "nodev";
      is_dir = true;
      group_dir = some (
          record { name = "002"; is_file = true; contents = some "status\tpass\nruntime\t0.1s\n" }
          ∷ record { name = "002.full"; is_file = true; contents = some "status\tfail\n" }
          ∷ []);
    }
    ∷ record {
      name = "loop0";
      is_dir = true;
      group_dir =
          some (record { name = "002"; is_file = true; contents = some "status\tnot run\n" } ∷ []);
    }
    ∷ record { name = "sda"; is_dir = true; group_dir = none }
    ∷ []

abbrev read_rows : List Row
read_rows =
    record { devdir = "loop0"; test = "block/002"; status = "not run"; reason = ""; runtime = "" }
    ∷ record {
      devdir = "nodev";
      test = "block/002";
      status = "pass";
      reason = "";
      runtime = "0.1s";
    }
    ∷ []

reads : collect_group_rows (some on_disk) " block" ≡ some read_rows
unfolding collect_group_rows safe_group all_rows file_rows row_of is_test_number parse_seqres
    with_status note_lines sort_by insert_by text_ltb strip lstrip rstrip split_lines is_break
    split_at strip_ending all_decimal insert lookup string_eq nat_eq
reads = refl

group_passes : group_status (map (λ (row : Row). row.status) read_rows) true false false ≡ passed
unfolding group_status string_eq
group_passes = refl

collect_group_rows-DirFine_example : All DirFine on_disk
collect_group_rows-DirFine_example =
    collect_group_rows-DirFine on_disk " block" read_rows true false false reads group_passes
