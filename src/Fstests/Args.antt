-- ===== src/Fstests/Args.antt =====
-- f/fstests/common.py: the flags of xfstests' check and the environment of a section's unit.
pub mod Plain
pub mod Flags
pub mod Modes
use kdevops_ng.Prelude.{
  ℕ, String, ◌<>◌, Bool, true, false, ◌&&◌, not, List, [], ◌∷◌, ◌++◌, ◌==◌, ◌!=◌, string_eq, nat_eq,
  ltb, if◌then◌else◌,
}
use kdevops_ng.Prelude.Lists.{keep, concat}
use kdevops_ng.Prelude.Dict.{Dict}
use kdevops_ng.Prelude.Words.{words, join, decimal}

pub record CheckInputs : Type 0 where
  pub test_selection : String
  pub groups : List String
  pub exclude_group : String
  pub exclude : String
  pub report : String
  pub randomize : Bool
  pub tests : String
  pub iterations : ℕ
  pub loop_on_fail : ℕ
  pub stop_on_fail : Bool

abbrev pub in_tests_mode : CheckInputs → Bool
in_tests_mode i = i.test_selection == "tests"

-- A flag and its value, where the condition holds.
abbrev pub flag_if : Bool → String → String → List String
flag_if on flag value = if on then flag ∷ value ∷ [] else []

unfoldable pub group_of : CheckInputs → String
group_of i = if in_tests_mode i then "" else join "," (keep (λ g. g != "") i.groups)

unfoldable pub group_args : CheckInputs → List String
group_args i = flag_if (group_of i != "") "-g" (group_of i)

unfoldable pub exclude_group_args : CheckInputs → List String
exclude_group_args i = flag_if (i.exclude_group != "" && not (in_tests_mode i)) "-x" i.exclude_group

unfoldable pub randomize_args : CheckInputs → List String
randomize_args i = if i.randomize then "-r" ∷ [] else []

unfoldable pub iteration_args : CheckInputs → List String
iteration_args i =
    flag_if (ltb 1 i.iterations) (if i.stop_on_fail then "-I" else "-i") (decimal i.iterations)

unfoldable pub loop_args : CheckInputs → List String
loop_args i = flag_if (ltb 0 i.loop_on_fail) "-L" (decimal i.loop_on_fail)

unfoldable pub test_args : CheckInputs → List String
test_args i = if in_tests_mode i && i.tests != "" then words i.tests else []

-- The flags in the order they are added.
unfoldable pub arg_parts : CheckInputs → List (List String)
arg_parts i =
    group_args i
    ∷ exclude_group_args i
    ∷ flag_if (i.exclude != "") "-X" i.exclude
    ∷ flag_if (i.report != "") "-R" i.report
    ∷ randomize_args i
    ∷ iteration_args i
    ∷ loop_args i
    ∷ test_args i
    ∷ []

unfoldable pub check_args : CheckInputs → List String
check_args i = concat (arg_parts i)

unfoldable pub build_check_args : CheckInputs → String
build_check_args i = join " " (check_args i)

unfoldable pub timeout_pairs : List (String × ℕ) → List String
timeout_pairs [] = []
timeout_pairs ((test, seconds) ∷ timeouts) =
    let rest = timeout_pairs timeouts in
    if test != "" && seconds != 0 then (test <> ":" <> decimal seconds) ∷ rest else rest

-- The lines of the environment file.
unfoldable pub env_lines : String → String → ℕ → List (String × ℕ) → Bool → List String
env_lines host_options check_args test_timeout test_timeouts recreate_test_dev =
    let pairs = join " " (timeout_pairs test_timeouts) in
    ("HOST_OPTIONS=" <> host_options)
    ∷ ("XFSTESTS_CHECK_ARGS=" <> check_args)
    ∷ ("RECREATE_TEST_DEV=" <> (if recreate_test_dev then "true" else "false"))
    ∷ ((if test_timeout != 0 then ("TEST_TIMEOUT=" <> decimal test_timeout) ∷ [] else [])
        ++ (if pairs != "" then ("TEST_TIMEOUTS=" <> pairs) ∷ [] else []))

unfoldable pub render_section_env : String → String → ℕ → List (String × ℕ) → Bool → String
render_section_env host_options check_args test_timeout test_timeouts recreate_test_dev =
    join "\n" (env_lines host_options check_args test_timeout test_timeouts recreate_test_dev)
    <> "\n"
