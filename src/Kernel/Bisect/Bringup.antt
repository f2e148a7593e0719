-- ===== src/Kernel/Bisect/Bringup.antt =====
-- f/kernel/bisect_step.py: `bringup_args`, the f/qsu/bringup inputs that boot a candidate.
pub mod Keeps
use Prim.Native.Char.{code}
use mathlib.Core.Option.{get_or}
use kdevops_ng.Prelude.{
  String, Bool, true, false, Option, none, some, List, [], ◌∷◌, ◌++◌, map, ◌==◌, string_eq, nat_eq,
  contains, if◌then◌else◌,
}
use kdevops_ng.Prelude.Dict.{Dict, lookup}
use kdevops_ng.Common.Json.{
  Value, bool, num, str, arr, obj, Items, nil, cons, Fields, end, get, put, pop, update, truthy,
  dict, fields_of, texts,
}
use kdevops_ng.Kernel.Bisect.Dicts.{
  union, harness_dirs, closure_suites, guest_ok, vm_group, worktree_group, reuse_group, or_no_texts,
  as_dict, or_empty, set_default, required, ◌>>=◌,
}

module _ (candidate vm_name payload : String) (suites : List String)
    (compiler make_flags : String) where
  -- The guest that the bisect has built in.
  unfoldable pub builtin_args : Fields
  unfolding closure_suites harness_dirs
  builtin_args =
      let selftests = payload == "selftests" in
      let usertests = payload == "usertests" in
      fields_of (
        (
          "boot_orchestration",
          dict (("wait_timeout", num 300) ∷ ("emit_vars_yaml_snapshot", bool false) ∷ []),
        )
        ∷ ("vm", vm_group vm_name)
        ∷ ("qemu", dict (("mode", str "nixpkgs") ∷ []))
        ∷ ("boot_kernel", dict (("kernel_parameters", arr nil) ∷ []))
        ∷ (
          "closure",
          dict (
              ("mode", str "build")
              ∷ ("lock", dict (("update_lock", bool true) ∷ []))
              ∷ (
                "guest",
                dict (
                    ("vm_name", str vm_name)
                    ∷ ("home", bool true)
                    ∷ ("shares", obj end)
                    ∷ ("home_dir", str "")
                    ∷ ("ssh_keys", arr nil)
                    ∷ ("user_name", str "kdevops")
                    ∷ []),
              )
              ∷ (
                "closure",
                dict (
                    ("profiles", texts ("devel" ∷ []))
                    ∷ ("overrides", arr nil)
                    ∷ ("test_suites", texts (closure_suites payload))
                    ∷ []),
              )
              ∷ []),
        )
        ∷ (
          "boot_nvme",
          dict (
              ("customize_drives", bool false)
              ∷ ("nvme_drive_count", num 4)
              ∷ ("nvme_drive_size_gb", num 20)
              ∷ []),
        )
        ∷ (
          "kernel",
          dict (
              ("mode", str "build")
              ∷ (
                "build",
                dict (
                    ("ccache", bool true)
                    ∷ ("compiler", str compiler)
                    ∷ ("make_flags", str make_flags)
                    ∷ ("reproducible", bool true)
                    ∷ []),
              )
              ∷ ("reuse", reuse_group)
              ∷ (
                "installation",
                dict (("install", bool true) ∷ ("modules_install", bool true) ∷ []),
              )
              ∷ (
                "configuration",
                dict (("config_method", str "preset") ∷ ("preset", str "imageless_defconfig") ∷ []),
              )
              ∷ ("worktree", obj (worktree_group candidate))
              ∷ (
                "selftests",
                dict (
                    ("enable", bool selftests)
                    ∷ ("targets", texts (if selftests then suites else []))
                    ∷ ("extra_targets", str "")
                    ∷ []),
              )
              ∷ (
                "usertests",
                dict (
                    ("enable", bool usertests)
                    ∷ ("harnesses", texts (if usertests then harness_dirs suites else []))
                    ∷ []),
              )
              ∷ []),
        )
        ∷ (
          "boot_qemu",
          dict (
              ("cpu", str "host")
              ∷ ("ram", num 4096)
              ∷ ("cpus", num 4)
              ∷ ("accel", str "kvm")
              ∷ ("iommu", str "")
              ∷ ("machine_type", str "q35")
              ∷ []),
        )
        ∷ (
          "boot_networking",
          dict (
              ("vm_index", num 0)
              ∷ ("ssh_port_base", num 10022)
              ∷ ("vsock_cid_base", num 100)
              ∷ ("custom_ssh_port", bool false)
              ∷ ("custom_vsock_cid", bool false)
              ∷ []),
        )
        ∷ (
          "boot_sharing",
          dict (
              ("home_share", bool true)
              ∷ ("controller_share", bool false)
              ∷ ("custom_virtiofsd", bool false)
              ∷ ("home_share_readwrite", bool true)
              ∷ []),
        )
        ∷ [])

  -- `closure` of a pasted guest: the VM's name and the payload's test suite.
  unfoldable pub pasted_closure : Fields → Option Fields
  unfolding set_default or_no_texts union closure_suites
  pasted_closure closure = do
    guest ← set_default "guest" closure
    let named = put "guest" (obj (put "vm_name" (str vm_name) guest)) closure
    body ← set_default "closure" named
    tests ← or_no_texts (get "test_suites" body)
    let all_tests = texts (union tests (closure_suites payload))
    some (put "closure" (obj (put "test_suites" all_tests body)) named)

  -- The group that the payload builds from: it is enabled and its list grows by the suites.
  unfoldable pub enabled : String → String → List String → Fields → Option Fields
  unfolding or_empty or_no_texts union
  enabled group key extra kernel = do
    pasted ← or_empty (get group kernel)
    old ← or_no_texts (get key pasted)
    let grown =
        update pasted (fields_of (("enable", bool true) ∷ (key, texts (union old extra)) ∷ []))
    some (put group (obj grown) kernel)

  unfoldable pub pasted_payload : Fields → Option Fields
  unfolding enabled harness_dirs
  pasted_payload kernel =
      if payload == "selftests"
      then enabled "selftests" "targets" suites kernel
      else if payload == "usertests"
      then enabled "usertests" "harnesses" (harness_dirs suites) kernel
      else some kernel

  -- `kernel` of a pasted guest.
  unfoldable pub pasted_kernel : Fields → Option Fields
  unfolding or_empty pasted_payload
  pasted_kernel kernel = do
    let built = put "mode" (str "build") kernel
    pasted ← or_empty (get "worktree" built)
    let tree = obj (update (pop "ref" pasted) (worktree_group candidate))
    let treed = put "worktree" tree built
    build ← or_empty (get "build" treed)
    let flags = fields_of (("compiler", str compiler) ∷ ("make_flags", str make_flags) ∷ [])
    let reused = put "reuse" reuse_group (put "build" (obj (update build flags)) treed)
    pasted_payload reused

  unfoldable pub pasted_args : Fields → Option Fields
  unfolding required pasted_closure pasted_kernel
  pasted_args guest = do
    let args = pop "worktree" (put "vm" (vm_group vm_name) guest)
    closure ← required "closure" args
    closed ← pasted_closure closure
    kernel ← required "kernel" args
    built ← pasted_kernel kernel
    some (put "kernel" (obj built) (put "closure" (obj closed) args))

  -- None where the step raises: on a guest without its two groups, or of another shape.
  unfoldable pub bringup_args : Value → Option Fields
  unfolding builtin_args pasted_args as_dict
  bringup_args guest =
      if truthy guest
      then (if guest_ok guest then (as_dict guest >>= pasted_args) else none)
      else some builtin_args
