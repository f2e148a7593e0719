-- ===== src/Qsu/Tests.antt =====
-- Two drives of a guest, the second on a null driver.
use kdevops_ng.Prelude.{
  ℕ, String, ◌≡◌, refl, true, false, List, [], ◌∷◌, ◌&&◌, ◌||◌, contains, string_eq, nat_eq,
  list_eq,
}
use kdevops_ng.Common.Gitrefs.{strip_prefix}
use kdevops_ng.Prelude.Lists.{All, sort_by, insert_by}
use kdevops_ng.Prelude.Distinct.{Distinct}
use kdevops_ng.Prelude.Dict.{Dict, lookup, erase}
use kdevops_ng.Prelude.Words.{
  text_ltb, strip_ending, split_lines, is_break, words, strip, lstrip, rstrip, split_on, decimal,
  digits, digit,
}
use kdevops_ng.Qsu.Drives.{
  Setting, text, on, memory, Drive, DriveInputs, made, refused, needs_direct, ◌>>=◌, drive_pick,
  drive_onoff, bucket, number_from, int_of, pmr_checked, pmr_sized, pmr_of, cmb_of, ctrl_of,
  read_zeroes, null_base, file_checked, format_of, file_base, base_of, ns_of, drive_with, drive_at,
  drives_from, nvme_drives,
}
use kdevops_ng.Qsu.Machines.{
  guest_of, first_guest, add, running_vms, union, offer_from, offer_peers, local_vms, options_by,
  passes, vm_options,
}
use kdevops_ng.Qsu.Machines.Offers.{values, on_peers, vm_options-Distinct}
use kdevops_ng.Qsu.Drives.Opens.{DriveOpens, nvme_drives-DriveOpens}

abbrev with_knobs : ℕ → Dict String → DriveInputs
with_knobs count knobs = record {
  nvme_drives = [];
  nvme_drive_count = count;
  nvme_drive_size_gb = 20;
  knobs = knobs;
  atomic_dn = false;
  atomic_mam = false;
  legacy_cmb = false;
  pmr_share = true;
  pmr_pmem = true;
}

abbrev two_drives : DriveInputs
two_drives =
    with_knobs 2 (
      ("aio", "native") ∷ ("cache", "none") ∷ ("driver", ",null-co") ∷ ("pmr_size", "16_384,") ∷ [])

abbrev composed : List Drive
composed =
    record {
      settings =
          ("file", text "nvme0.qcow2")
          ∷ ("format", text "qcow2")
          ∷ ("serial", text "kdevops0")
          ∷ ("aio", text "native")
          ∷ ("cache", text "none")
          ∷ ("ioeventfd", on)
          ∷ ("pmr", memory (record { size = 16384; share_off = false; pmem = true }))
          ∷ [];
      namespaces = [];
    }
    ∷ record {
      settings =
          ("driver", text "null-co")
          ∷ ("serial", text "kdevops1")
          ∷ ("size", Setting.number 21474836480)
          ∷ ("read-zeroes", text "on")
          ∷ ("ioeventfd", on)
          ∷ [];
      namespaces = [];
    }
    ∷ []

composed_lem : nvme_drives 4096 two_drives ≡ made composed
unfolding nvme_drives drives_from drive_at base_of file_checked file_base null_base read_zeroes
    format_of ctrl_of cmb_of pmr_of pmr_sized pmr_checked int_of number_from ns_of drive_with bucket
    drive_pick drive_onoff ◌>>=◌ lookup erase strip lstrip rstrip split_on decimal digits digit
    string_eq nat_eq list_eq
composed_lem = refl

nvme_drives-DriveOpens_example : All (DriveOpens 4096) composed
nvme_drives-DriveOpens_example = nvme_drives-DriveOpens 4096 two_drives composed refl composed_lem

refused_native : nvme_drives 4096 (with_knobs 1 (("aio", "native") ∷ [])) ≡ refused needs_direct
unfolding nvme_drives drives_from drive_at base_of file_checked file_base format_of bucket
    drive_pick ◌>>=◌ lookup strip lstrip rstrip split_on string_eq nat_eq
refused_native = refl

abbrev here : String
here = "● qemu-system@xfs.service loaded active\n  qemu-system@mm.service loaded active\n"

abbrev there : List (String × String)
there = ("far", "qemu-system@XFS2.service loaded\nqemu-system@xfs.service loaded\n") ∷ []

offers :
    vm_options "XFS" here ("xfs" ∷ "old-xfs" ∷ []) there
    ≡ record { label = "old-xfs"; value = "old-xfs" }
      ∷ record { label = "xfs"; value = "xfs" }
      ∷ record { label = "XFS2 (far)"; value = "XFS2" }
      ∷ []
unfolding vm_options options_by passes local_vms running_vms first_guest guest_of union add
    offer_peers offer_from sort_by insert_by text_ltb strip_prefix strip_ending split_lines is_break
    words string_eq nat_eq
offers = refl

vm_options-Distinct_example :
    let offered = values (vm_options "XFS" here ("xfs" ∷ "old-xfs" ∷ []) there) in
    Distinct offered
    × ((v : String)
        → contains offered v ≡ (
            passes "XFS" v
            && (contains (running_vms here) v
                || contains ("xfs" ∷ "old-xfs" ∷ []) v
                || on_peers there v)))
vm_options-Distinct_example = vm_options-Distinct "XFS" here ("xfs" ∷ "old-xfs" ∷ []) there
