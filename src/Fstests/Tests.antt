-- ===== src/Fstests/Tests.antt =====
-- The XFS matrix at concrete features, and a wait over a few polls.
use mathlib.Core.Option.{get_or}
use kdevops_ng.Prelude.{
  ◌≡◌, refl, inl, inr, true, false, none, some, [], ◌∷◌, arith, string_eq, nat_eq, option_eq,
}
use kdevops_ng.Prelude.Dict.{Dict, lookup, insert, has, keys}
use kdevops_ng.Prelude.Words.{join, decimal}
use kdevops_ng.Prelude.{ℕ, String, Option, List, ◌++◌}
use kdevops_ng.Fstests.Wait.{
  Poll, Waited, check_deadline, latch, note_state, poll_once, watch, waited_of, wait,
}
use kdevops_ng.Fstests.Wait.Ends.{Ended, wait-Ended}
use kdevops_ng.Fstests.Wait.Finishes.{wait-finishes_section}
use kdevops_ng.Fstests.Xfs.{
  default_into, Feature, features, feature_keys, Profile, size_tag, section_name, profile,
  below_least, skips, sectors_into, blocks_into, features_into, xfs_profiles_matrix, section_text,
  xfs_catalog_text,
}
use kdevops_ng.Fstests.Xfs.Geometry.{Fits, IsSection, xfs_profiles_matrix-IsSection}
use kdevops_ng.Fstests.Xfs.Complete.{xfs_profiles_matrix_complete}

abbrev v4_matrix : Dict Profile
v4_matrix = get_or (xfs_profiles_matrix (some "nocrc") "matrix") []

v4_sections :
    keys v4_matrix
    ≡ "xfs_nocrc_bs512_ss512" ∷ "xfs_nocrc_bs1k_ss512" ∷ "xfs_nocrc_bs1k_ss1k"
      ∷ "xfs_nocrc_bs2k_ss512" ∷ "xfs_nocrc_bs2k_ss1k" ∷ "xfs_nocrc_bs2k_ss2k"
      ∷ "xfs_nocrc_bs4k_ss512" ∷ "xfs_nocrc_bs4k_ss1k" ∷ "xfs_nocrc_bs4k_ss2k"
      ∷ "xfs_nocrc_bs4k_ss4k" ∷ []
unfolding keys xfs_profiles_matrix string_eq feature_keys features features_into lookup blocks_into
    skips below_least nat_eq sectors_into insert section_name size_tag decimal
v4_sections = refl

xfs_profiles_matrix-IsSection_example :
    IsSection "xfs_nocrc_bs4k_ss512"
      (record { mkfs = "-m crc=0 -b size=4096 -s size=512"; mount = ""; needs = none })
unfolding keys xfs_profiles_matrix string_eq feature_keys features features_into lookup blocks_into
    skips below_least nat_eq sectors_into insert section_name size_tag decimal profile join
xfs_profiles_matrix-IsSection_example =
    xfs_profiles_matrix-IsSection (some "nocrc") {m = v4_matrix} "xfs_nocrc_bs4k_ss512" refl refl

abbrev rtx4 : Feature
rtx4 = get_or (lookup "realtime_rtx4" features) (record {
  mkfs = "";
  mount = "";
  v4 = false;
  needs = none;
  min_block = none;
  rt_extsize_mult = none;
})

rtx4-Fits : Fits rtx4 1024 512
unfolding lookup features string_eq
rtx4-Fits = record {
  sector_le = omega arith;
  crc_block = inr (omega arith);
  v4_block = inl refl;
  least_block = tt;
  extent = inr (omega arith);
}

xfs_profiles_matrix_complete_example :
    (m : Dict Profile) × (xfs_profiles_matrix (some "realtime_rtx4") "matrix" ≡ some m)
    × (has (section_name "realtime_rtx4" 1024 512) m ≡ true)
unfolding feature_keys string_eq keys features lookup nat_eq
xfs_profiles_matrix_complete_example =
    xfs_profiles_matrix_complete (some "realtime_rtx4") "realtime_rtx4" rtx4 1024 512
      {feats = "realtime_rtx4" ∷ []} refl refl refl refl refl rtx4-Fits

abbrev sees : Option (Dict String) → ℕ → Poll
sees shown clock = record { host_state = "active"; shown = shown; clock = clock }

abbrev polls : List Poll
polls =
    sees none 10
    ∷ sees (some (("ActiveState", "activating") ∷ ("InvocationID", "f00d") ∷ [])) 20
    ∷ sees none 100
    ∷ []

wait-Ended_example : (out : Waited) × (wait 90 polls ≡ some out) × Ended out
wait-Ended_example = wait-Ended 90 polls refl

-- A poll that raises, one at work and one that is done, before a deadline of 90.
abbrev finished : Dict String
finished = ("ActiveState", "inactive") ∷ ("Result", "success") ∷ []

wait-finishes_section_example :
    wait 90 (
      (sees none 10
        ∷ sees (some (("ActiveState", "activating") ∷ ("InvocationID", "f00d") ∷ [])) 20
        ∷ [])
      ++ (sees (some finished) 30 ∷ []))
    ≡ some (record {
      result = "success";
      exec_status = "";
      active_state = "inactive";
      crashed = false;
      timed_out = false;
      stopped = false;
      geometry_of = some "f00d";
    })
unfolding lookup string_eq
wait-finishes_section_example =
    wait-finishes_section 90
      (sees none 10
        ∷ sees (some (("ActiveState", "activating") ∷ ("InvocationID", "f00d") ∷ [])) 20
        ∷ [])
      (sees (some finished) 30) [] finished
      (
        refl,
        omega arith,
        inl refl,
        (
          refl,
          omega arith,
          inr (("ActiveState", "activating") ∷ ("InvocationID", "f00d") ∷ [], refl, refl),
          tt,
        ),
      )
      (record { up = refl; shown = refl; over = refl })

times_out : (elim (wait 90 polls) [ none ↦ none | some out ↦ out.geometry_of ]) ≡ some "f00d"
unfolding wait watch poll_once check_deadline note_state latch waited_of lookup string_eq
times_out = refl

catalog :
    xfs_catalog_text (some "logdev") "default"
    ≡ some "[xfs_logdev]\nFSTYP=xfs\nUSE_EXTERNAL=yes\nTEST_LOGDEV=\nSCRATCH_LOGDEV=\n"
unfolding xfs_catalog_text xfs_profiles_matrix string_eq feature_keys keys features features_into
    lookup join default_into insert section_text
catalog = refl
