-- ===== src/Fstests/Config/Tests.antt =====
-- A configuration of two sections, and the devices and flags of a run of one.
use kdevops_ng.Prelude.{
  String, ◌≡◌, refl, true, false, none, some, List, [], ◌∷◌, string_eq, nat_eq, option_eq, list_eq,
}
use kdevops_ng.Prelude.Lists.{length}
use kdevops_ng.Prelude.{◌<◌, ◌↔◌}
use kdevops_ng.Prelude.Dict.{insert}
use kdevops_ng.Prelude.Words.{
  strip, lstrip, rstrip, split_lines, split_at, is_break, contains_text, join, split_on,
  rstrip_char, words, digit, digits, decimal,
}
use kdevops_ng.Fstests.Config.{
  header, sections_from, strip_quotes, setting_of, entry_of, vars_from, lines_vars, section_vars,
  block_from, section_block,
}
use kdevops_ng.Fstests.Config.Blocks.{count_header}
use kdevops_ng.Fstests.Args.{
  CheckInputs, check_args, build_check_args, arg_parts, group_args, exclude_group_args,
  randomize_args, iteration_args, loop_args, test_args, group_of, timeout_pairs, env_lines,
  render_section_env,
}
use kdevops_ng.Fstests.Args.Plain.{IsPlain, Systemd}
use kdevops_ng.Fstests.Args.Flags.{arguments-build_check_args}
use kdevops_ng.Fstests.Args.Modes.{of_mode, build_check_args-of_mode}
use kdevops_ng.Fstests.Devices.{
  section_external_devs, drop_blank, fill_in, fill_all, added, with_base, base_of, bind_devices,
  inject_device_base,
}
use kdevops_ng.Fstests.Devices.Enough.{devices_needed, inject_device_base-none}
use kdevops_ng.Fstests.Config.Texts.{section_vars-section_block}

abbrev config : String
config = "# two\n[one]\nFSTYP=ext4\n\n [two] \nFSTYP=\"xfs\"\nTEST_RTDEV=\n\n"

two_block : section_block config "two" ≡ " [two] \nFSTYP=\"xfs\"\nTEST_RTDEV=\n"
unfolding section_block list_eq block_from split_lines nat_eq header strip rstrip lstrip split_at
    string_eq join is_break
two_block = refl

two_vars : section_vars config "two" ≡ ("FSTYP", "xfs") ∷ ("TEST_RTDEV", "") ∷ []
unfolding section_vars lines_vars vars_from split_lines nat_eq entry_of string_eq strip rstrip
    lstrip header split_at setting_of list_eq sections_from option_eq insert is_break strip_quotes
two_vars = refl

two_once : count_header "two" (split_lines config) ≡ 1
unfolding split_lines nat_eq option_eq header strip rstrip lstrip split_at string_eq is_break
two_once = refl

section_vars-section_block_example :
    section_vars (section_block config "two") "two" ≡ section_vars config "two"
section_vars-section_block_example = section_vars-section_block config "two" (λ e. cc) two_once

abbrev nodes : List String
nodes = "/dev/a" ∷ "/dev/b" ∷ "/dev/c" ∷ []

bound :
    inject_device_base "[two]\nTEST_RTDEV=\n" nodes false
    ≡ some
        "[two]\nTEST_RTDEV=/dev/c\nTEST_DEV=/dev/a\nTEST_DIR=/media/test\nSCRATCH_MNT=/media/scratch\nSCRATCH_DEV=/dev/b\n"
unfolding inject_device_base bind_devices list_eq section_external_devs split_on nat_eq string_eq
    strip rstrip lstrip with_base added base_of contains_text join fill_all fill_in rstrip_char
    drop_blank
bound = refl

inject_device_base-none_example :
    (inject_device_base "[two]\nTEST_RTDEV=\n" nodes true ≡ none)
    ↔ (length nodes < devices_needed "[two]\nTEST_RTDEV=\n" true)
inject_device_base-none_example = inject_device_base-none "[two]\nTEST_RTDEV=\n" nodes true

abbrev inputs : CheckInputs
inputs = record {
  test_selection = "tests";
  groups = "quick" ∷ [];
  exclude_group = "dangerous";
  exclude = "";
  report = "xunit";
  randomize = false;
  tests = "xfs/001  generic/475";
  iterations = 12;
  loop_on_fail = 0;
  stop_on_fail = true;
}

flags : build_check_args inputs ≡ "-R xunit -I 12 xfs/001 generic/475"
unfolding build_check_args join check_args arg_parts group_args string_eq group_of
    exclude_group_args randomize_args iteration_args loop_args test_args words nat_eq decimal digits
    digit
flags = refl

IsPlain-inputs : IsPlain inputs
unfolding nat_eq
IsPlain-inputs = record {
  groups = ((refl, (refl, (refl, (refl, (refl, tt))))), tt);
  exclude_group = (refl, (refl, (refl, (refl, (refl, (refl, (refl, (refl, (refl, tt)))))))));
  exclude = tt;
  report = (refl, (refl, (refl, (refl, (refl, tt)))));
  unquoted_groups = ((refl, (refl, (refl, (refl, (refl, tt))))), tt);
  unquoted_exclude_group =
      (refl, (refl, (refl, (refl, (refl, (refl, (refl, (refl, (refl, tt)))))))));
  unquoted_exclude = tt;
  unquoted_report = (refl, (refl, (refl, (refl, (refl, tt)))));
  unquoted_tests = (
    refl,
    (
      refl,
      (
        refl,
        (
          refl,
          (
            refl,
            (
              refl,
              (
                refl,
                (
                  refl,
                  (
                    refl,
                    (
                      refl,
                      (
                        refl,
                        (refl, (refl, (refl, (refl, (refl, (refl, (refl, (refl, (refl, tt))))))))),
                      ),
                    ),
                  ),
                ),
              ),
            ),
          ),
        ),
      ),
    ),
  );
}

-- A systemd that knows no quotes.
abbrev plain_systemd : Systemd
plain_systemd = record { arguments = words; arguments_lem = λ s clear. refl }

arguments-build_check_args_example :
    plain_systemd.arguments (build_check_args inputs) ≡ check_args inputs
arguments-build_check_args_example = arguments-build_check_args plain_systemd inputs IsPlain-inputs

one_mode : build_check_args (of_mode inputs) ≡ build_check_args inputs
one_mode = build_check_args-of_mode inputs

env :
    render_section_env "/x.config" "-r" 60 (("xfs/1", 5) ∷ ("xfs/2", 0) ∷ []) true
    ≡ "HOST_OPTIONS=/x.config\nXFSTESTS_CHECK_ARGS=-r\nRECREATE_TEST_DEV=true\nTEST_TIMEOUT=60\nTEST_TIMEOUTS=xfs/1:5\n"
unfolding render_section_env join env_lines nat_eq string_eq timeout_pairs decimal digits digit
env = refl
