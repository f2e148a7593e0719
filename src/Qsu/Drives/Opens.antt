-- ===== src/Qsu/Drives/Opens.antt =====
-- What QEMU asks of a drive that it opens, of every drive that is composed.
use mathlib.Core.Path.{subst}
use kdevops_ng.Prelude.{
  ℕ, zero, suc, String, ◌≡◌, refl, sym, ap, ◌∙◌, true, false, Option, none, some, List, [], ◌∷◌,
  ◌++◌, ◌==◌, string_eq, nat_eq, contains, if-lem,
}
use kdevops_ng.Prelude.Lists.{All}
use kdevops_ng.Prelude.Dict.{
  Dict, lookup, erase, lookup-cons, lookup-erase, lookup-append_missed, lookup-append_kept,
}
use kdevops_ng.Qsu.Drives.{
  Pmr, Setting, text, memory, Drive, DriveInputs, made, cache_direct, blockconf_knobs, bucket,
  ctrl_of, Base, text_of, base_of, ns_of, is_empty, drive_with, drive_at, drives_from, nvme_drives,
  serial_of, given_or,
}
use kdevops_ng.Qsu.Drives.Keys.{
  made_of, made-injective, missed, Outside, Outside-aio, Outside-cache, Outside-discard,
  Outside-zeroes, Outside-pmr, ns_of-lookup, ctrl_of-lookup, blockconf-lookup,
}
use kdevops_ng.Qsu.Drives.Region.{IsRegion, pmr_of-PmrPart, PmrPart-other, PmrPart-IsRegion}
use kdevops_ng.Qsu.Drives.Backend.{BaseOk, no_text, base_of-BaseOk}

-- The settings of one device: what QEMU refuses at its start does not stand in them.
pub record Opens (page : ℕ) (settings : Dict Setting) : Type 0 where
  pub unmaps :
      text_of (lookup "detect-zeroes" settings) ≡ "unmap"
      → text_of (lookup "discard" settings) ≡ "unmap"
  pub direct :
      text_of (lookup "aio" settings) ≡ "native"
      → contains cache_direct (text_of (lookup "cache" settings)) ≡ true
  pub region : (m : Pmr) → lookup "pmr" settings ≡ some (memory m) → IsRegion page m

-- The keys of the backend are found in the settings as in the backend.
Opens-of_backend :
    (page : ℕ) (base : Base) (settings : Dict Setting)
    → BaseOk base
    → ((k : String) → Outside k → (k == "pmr") ≡ false → lookup k settings ≡ lookup k base.backend)
    → ((m : Pmr) → lookup "pmr" settings ≡ some (memory m) → IsRegion page m)
    → Opens page settings
unfolding string_eq
Opens-of_backend page base settings good same region =
    let zeroes = ap text_of (same "detect-zeroes" Outside-zeroes refl) in
    let discard = ap text_of (same "discard" Outside-discard refl) in
    let aio = ap text_of (same "aio" Outside-aio refl) in
    let cache = ap text_of (same "cache" Outside-cache refl) in
    record {
      unmaps = λ h. discard ∙ good.unmaps (sym zeroes ∙ h);
      direct = λ h. ap (contains cache_direct) cache ∙ good.direct (sym aio ∙ h);
      region = region;
    }

-- No key of the backend is among the settings.
Opens-without :
    (page : ℕ) (settings : Dict Setting)
    → ((k : String) → Outside k → (k == "pmr") ≡ false → lookup k settings ≡ none)
    → ((m : Pmr) → lookup "pmr" settings ≡ some (memory m) → IsRegion page m)
    → Opens page settings
unfolding string_eq
Opens-without page settings gone region = record {
  unmaps = λ h. absurd (no_text _ "unmap" refl (gone "detect-zeroes" Outside-zeroes refl) h);
  direct = λ h. absurd (no_text _ "native" refl (gone "aio" Outside-aio refl) h);
  region = region;
}

none_found : (found : Option Setting) (m : Pmr) → found ≡ none → found ≡ some (memory m) → ⊥
none_found found m gone there = cc

module _ (page : ℕ) (inputs : DriveInputs) (i : ℕ) (base : Base) (good : BaseOk base)
    (ctrl : Dict Setting) (is_ctrl : ctrl_of page inputs i ≡ made ctrl) where
  ctrl-other : (k : String) → Outside k → (k == "pmr") ≡ false → lookup k ctrl ≡ none
  ctrl-other k o other =
      let (pmr, is_pmr, same) = ctrl_of-lookup k o page inputs i ctrl is_ctrl in
      same ∙ PmrPart-other page pmr k other (pmr_of-PmrPart page inputs i pmr is_pmr)

  ctrl-IsRegion : (m : Pmr) → lookup "pmr" ctrl ≡ some (memory m) → IsRegion page m
  ctrl-IsRegion m found =
      let (pmr, is_pmr, same) = ctrl_of-lookup "pmr" Outside-pmr page inputs i ctrl is_ctrl in
      PmrPart-IsRegion page pmr m (pmr_of-PmrPart page inputs i pmr is_pmr) (sym same ∙ found)

  blockconf : Dict Setting
  blockconf = bucket inputs.knobs blockconf_knobs i

  simple-Opens : Opens page (base.place ++ (base.backend ++ (ctrl ++ blockconf)))
  unfolding blockconf
  simple-Opens =
      Opens-of_backend page base _ good
        (λ k o other.
          lookup-append_missed k base.place _ (good.elsewhere k o)
          ∙ lookup-append_kept k base.backend _ (
              lookup-append_missed k ctrl _ (ctrl-other k o other) ∙ blockconf-lookup k o inputs i))
        (λ m found. ctrl-IsRegion m (
          sym (lookup-append_kept "pmr" ctrl _ (blockconf-lookup "pmr" Outside-pmr inputs i))
          ∙ sym (lookup-append_missed "pmr" base.backend _ good.no_pmr)
          ∙ sym (lookup-append_missed "pmr" base.place _ (good.elsewhere "pmr" Outside-pmr))
          ∙ found))

  erased : (k : String) → Outside k → lookup k (erase "serial" base.place) ≡ none
  erased k o = lookup-erase k "serial" base.place ∙ rw (o.of_serial) (good.elsewhere k o)

  tail-none : (k : String) → Outside k → lookup k (blockconf ++ ns_of inputs i) ≡ none
  unfolding blockconf
  tail-none k o =
      lookup-append_missed k _ _ (blockconf-lookup k o inputs i) ∙ ns_of-lookup k o inputs i

  pmr-none :
      lookup "pmr" (erase "serial" base.place ++ (base.backend ++ (blockconf ++ ns_of inputs i)))
      ≡ none
  pmr-none =
      lookup-append_missed "pmr" _ _ (erased "pmr" Outside-pmr)
      ∙ lookup-append_missed "pmr" base.backend _ good.no_pmr
      ∙ tail-none "pmr" Outside-pmr

  namespace-Opens :
      Opens page (erase "serial" base.place ++ (base.backend ++ (blockconf ++ ns_of inputs i)))
  namespace-Opens =
      Opens-of_backend page base _ good
        (λ k o other.
          lookup-append_missed k _ _ (erased k o)
          ∙ lookup-append_kept k base.backend _ (tail-none k o))
        (λ m found. absurd (none_found _ m pmr-none found))

  controller-Opens : Opens page (("serial", text (serial_of i)) ∷ ctrl)
  controller-Opens =
      Opens-without page _
        (λ k o other. missed k "serial" _ ctrl o.of_serial (ctrl-other k o other))
        (λ m found.
          ctrl-IsRegion m
            (sym (lookup-cons "pmr" "serial" _ ctrl ∙ rw (Outside-pmr.of_serial) refl) ∙ found))

-- Every device of a drive.
abbrev pub DriveOpens : ℕ → Drive → Type 0
DriveOpens page d = Opens page d.settings × All (Opens page) d.namespaces

drive_at-DriveOpens :
    (page : ℕ) (inputs : DriveInputs) (i : ℕ) (d : Drive)
    → drive_at page inputs i ≡ made d
    → DriveOpens page d
unfolding drive_at drive_with blockconf
drive_at-DriveOpens page inputs i d h =
    let (base, is_base, h₁) = made_of (base_of inputs i) _ d h in
    let (ctrl, is_ctrl, h₂) = made_of (ctrl_of page inputs i) _ d h₁ in
    let good = base_of-BaseOk inputs i base is_base in
    subst (DriveOpens page) (made-injective _ d h₂) (
      if-lem (DriveOpens page) (is_empty (ns_of inputs i)) _ _
        (λ _. (simple-Opens page inputs i base good ctrl is_ctrl, tt))
        (λ _. (
          controller-Opens page inputs i base good ctrl is_ctrl,
          (namespace-Opens page inputs i base good ctrl is_ctrl, tt),
        )))

drives_from-DriveOpens :
    (page : ℕ) (inputs : DriveInputs) (i count : ℕ) (drives : List Drive)
    → drives_from page inputs i count ≡ made drives
    → All (DriveOpens page) drives
unfolding drives_from
drives_from-DriveOpens page inputs i zero drives h =
    subst (All (DriveOpens page)) (made-injective [] drives h) tt
drives_from-DriveOpens page inputs i (suc count) drives h =
    let (d, is_d, h₁) = made_of (drive_at page inputs i) _ drives h in
    let (rest, is_rest, h₂) = made_of (drives_from page inputs (suc i) count) _ drives h₁ in
    subst (All (DriveOpens page)) (made-injective (d ∷ rest) drives h₂) (
      drive_at-DriveOpens page inputs i d is_d,
      drives_from-DriveOpens page inputs (suc i) count rest is_rest,
    )

-- Where no drives are given, of every drive that is composed, whatever the knobs: a device that
-- unmaps detected zeroes unmaps discards; one with native AIO opens its file past the cache; and a
-- memory region is a power of two, of at least a page, and persistent only if it is shared.
pub nvme_drives-DriveOpens :
    (page : ℕ) (inputs : DriveInputs) (drives : List Drive)
    → inputs.nvme_drives ≡ []
    → nvme_drives page inputs ≡ made drives
    → All (DriveOpens page) drives
unfolding nvme_drives
nvme_drives-DriveOpens page inputs drives none_given h =
    let composed = drives_from page inputs 0 inputs.nvme_drive_count in
    drives_from-DriveOpens page inputs 0 inputs.nvme_drive_count drives
      (sym (ap (λ given. given_or given composed) none_given) ∙ h)
