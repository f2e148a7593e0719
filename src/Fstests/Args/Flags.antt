-- ===== src/Fstests/Args/Flags.antt =====
-- The flags as systemd splits them.
use kdevops_ng.Prelude.{
  String, ◌≡◌, refl, ◌∙◌, Bool, true, false, ◌&&◌, List, [], ◌∷◌, ◌!=◌, string_eq, nat_eq,
  if◌then◌else◌, ℕ,
}
use kdevops_ng.Prelude.Lists.{All, All-concat}
use Prim.Native.Char.{code}
use kdevops_ng.Prelude.Words.{words, decimal, is_space}
use kdevops_ng.Prelude.Words.Codes.{AllCodes, join-AllCodes}
use kdevops_ng.Prelude.Words.Joined.{IsSolid, IsWord, words-join}
use kdevops_ng.Fstests.Args.{
  CheckInputs, in_tests_mode, group_of, group_args, exclude_group_args, randomize_args,
  iteration_args, loop_args, test_args, arg_parts, check_args, build_check_args,
}
use kdevops_ng.Fstests.Args.Plain.{
  is_unquoted, is_clear, IsPlain, Systemd, IsFlag, Parts, flag_if-All, and_left, short_flags,
  short_flags-IsFlag, plain-Parts,
}

module _ (P : String → Type 0) where
  if-All : (on : Bool) (xs : List String) → All P xs → All P (if on then xs else [])
  if-All true xs h = h
  if-All false xs h = tt

  iterate : (stop : Bool) → P "-I" → P "-i" → P (if stop then "-I" else "-i")
  iterate true f g = f
  iterate false f g = g

  check_args-All : (i : CheckInputs) → All P short_flags → Parts P i → All P (check_args i)
  unfolding check_args arg_parts group_args exclude_group_args randomize_args iteration_args
      loop_args test_args
  check_args-All i (g, (x, (ex, (r, (rand, (stop, (pass, (l, _)))))))) parts =
      All-concat P (arg_parts i) (
        flag_if-All P _ "-g" (group_of i) g parts.group,
        (
          flag_if-All P _ "-x" i.exclude_group x
              (λ on. parts.exclude_group (and_left (i.exclude_group != "") _ on)),
          (
            flag_if-All P _ "-X" i.exclude ex parts.exclude,
            (
              flag_if-All P _ "-R" i.report r parts.report,
              (
                if-All i.randomize ("-r" ∷ []) (rand, tt),
                (
                  flag_if-All P _ _ (decimal i.iterations) (iterate i.stop_on_fail stop pass)
                      (λ _. parts.number i.iterations),
                  (
                    flag_if-All P _ "-L" (decimal i.loop_on_fail) l
                        (λ _. parts.number i.loop_on_fail),
                    (if-All (in_tests_mode i && i.tests != "") (words i.tests) parts.tests, tt),
                  ),
                ),
              ),
            ),
          ),
        ),
      )

solid-clear : (s : String) → IsSolid s → AllCodes is_unquoted s → AllCodes is_clear s
solid-clear String.[] h k = tt
solid-clear (String.◌∷◌ c s) (solid, h) (mark, k) =
    (clear_code (code c) solid mark, solid-clear s h k)
  where
    clear_code : (c : ℕ) → is_space c ≡ false → is_unquoted c ≡ true → is_clear c ≡ true
    clear_code c solid mark = rw (solid, mark) refl

flags-clear : (ws : List String) → All IsFlag ws → All (AllCodes is_clear) ws
flags-clear [] h = tt
flags-clear (w ∷ ws) (((_, solid), unquoted), h) = (solid-clear w solid unquoted, flags-clear ws h)

flags-IsWord : (ws : List String) → All IsFlag ws → All IsWord ws
flags-IsWord [] h = tt
flags-IsWord (w ∷ ws) ((word, _), h) = (word, flags-IsWord ws h)

blank-clear : AllCodes is_clear " "
unfolding nat_eq
blank-clear = (refl, tt)

-- systemd splits the text into exactly the flags and tests that were meant, where no input has a
-- quote or a backslash, and no group, file or format a space.
pub arguments-build_check_args :
    (systemd : Systemd) (i : CheckInputs)
    → IsPlain i
    → systemd.arguments (build_check_args i) ≡ check_args i
unfolding build_check_args
arguments-build_check_args systemd i plain =
    let flags = check_args-All IsFlag i short_flags-IsFlag (plain-Parts i plain) in
    systemd.arguments_lem (build_check_args i)
      (join-AllCodes is_clear " " (check_args i) blank-clear (flags-clear (check_args i) flags))
    ∙ words-join (check_args i) (flags-IsWord (check_args i) flags)
