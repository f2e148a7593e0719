-- ===== src/Fstests/Args/Modes.antt =====
-- The inputs of one mode change nothing in the other.
use kdevops_ng.Prelude.{
  String, ◌≡◌, refl, sym, ap, ◌∙◌, true, false, inl, inr, List, [], ◌∷◌, ◌++◌, ◌!=◌, string_eq,
  nat_eq, arith, Bool-cases, if◌then◌else◌,
}
use kdevops_ng.Prelude.Lists.{concat, drop, take}
use kdevops_ng.Prelude.Words.{join}
use kdevops_ng.Fstests.Args.{
  CheckInputs, flag_if, in_tests_mode, group_of, group_args, exclude_group_args, randomize_args,
  iteration_args, loop_args, test_args, arg_parts, check_args, build_check_args,
}

no_flag : (flag value : String) → value ≡ "" → flag_if (value != "") flag value ≡ []
no_flag flag value e = ground arith

no_group : (i : CheckInputs) → in_tests_mode i ≡ true → group_args i ≡ []
unfolding group_args group_of
no_group i e = no_flag "-g" (group_of i) (rw e refl)

no_exclude_group : (i : CheckInputs) → in_tests_mode i ≡ true → exclude_group_args i ≡ []
unfolding exclude_group_args
no_exclude_group i e = ground (arith, e)

no_tests : (i : CheckInputs) → in_tests_mode i ≡ false → test_args i ≡ []
unfolding test_args
no_tests i e = rw e refl

groups_idle :
    (i : CheckInputs) (groups : List String) (exclude_group : String)
    → in_tests_mode i ≡ true
    → build_check_args (record i { groups = groups; exclude_group = exclude_group })
      ≡ build_check_args i
unfolding build_check_args check_args arg_parts randomize_args iteration_args loop_args test_args
groups_idle i groups exclude_group e =
    ap (λ g. join " " (g ++ (exclude_group_args j ++ rest))) (no_group j e ∙ sym (no_group i e))
    ∙ ap (λ x. join " " (group_args i ++ (x ++ rest)))
        (no_exclude_group j e ∙ sym (no_exclude_group i e))
  where
    j : CheckInputs
    j = record i { groups = groups; exclude_group = exclude_group }

    rest : List String
    rest = concat (drop 2 (arg_parts i))

tests_idle :
    (i : CheckInputs) (tests : String)
    → in_tests_mode i ≡ false
    → build_check_args (record i { tests = tests }) ≡ build_check_args i
unfolding build_check_args check_args arg_parts group_args group_of exclude_group_args
    randomize_args iteration_args loop_args
tests_idle i tests e =
    ap (λ ts. join " " (concat (take 7 (arg_parts i) ++ (ts ∷ []))))
      (no_tests (record i { tests = tests }) e ∙ sym (no_tests i e))

-- The inputs without those that the other mode takes.
abbrev pub of_mode : CheckInputs → CheckInputs
of_mode i =
    if in_tests_mode i
    then record i { groups = []; exclude_group = "" }
    else record i { tests = "" }

-- One mode at a time: in the mode of the tests the groups and the excluded group change nothing,
-- and in the other one the tests change nothing.
pub build_check_args-of_mode : (i : CheckInputs) → build_check_args (of_mode i) ≡ build_check_args i
build_check_args-of_mode i = elim (Bool-cases (in_tests_mode i)) [
  | inl e ↦ rw e (groups_idle i [] "" e)
  | inr e ↦ rw e (tests_idle i "" e)
]
