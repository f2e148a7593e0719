-- ===== src/Fstests/Devices/Enough.antt =====
-- How many devices a section takes, and which lines it keeps.
use kdevops_ng.Prelude.{
  ℕ, ◌+◌, ◌<◌, String, ◌≡◌, refl, Bool, ◌⊎◌, inl, inr, ◌↔◌, Option, none, some, List, [], ◌∷◌,
  arith, string_eq, list_eq, ltb, Bool-cases, if◌then◌else◌,
}
use kdevops_ng.Prelude.Lists.{length}
use kdevops_ng.Fstests.Devices.{
  pair, carves, section_external_devs, bind_devices, split_last, inject_device_base,
}

-- A device each for the test and the scratch file system, for each external variable and for the
-- logwrites.
abbrev pub devices_needed : String → Bool → ℕ
devices_needed block logwrites =
    2 + length (section_external_devs block) + (if carves block logwrites then 1 else 0)

bind_devices_enough :
    (block : String) (externals : List String) (logwrites : List (String × String))
    (devs : List String)
    → (bind_devices block externals logwrites devs ≡ none) ↔ (length devs < 2 + length externals)
unfolding bind_devices
bind_devices_enough block externals logwrites [] = (λ e. omega arith, λ l. refl)
bind_devices_enough block externals logwrites (first ∷ []) = (λ e. omega arith, λ l. refl)
bind_devices_enough block externals logwrites (first ∷ second ∷ rest) =
    (λ e. ground (arith, e), λ l. ground (arith, l))

-- What split_last takes is one item.
length-split_last :
    (devs : List String)
    → ((devs ≡ []) × (split_last devs ≡ none))
      ⊎ ((before : List String) × (last : String) × (split_last devs ≡ some (before, last))
          × (length devs ≡ 1 + length before))
unfolding split_last
length-split_last [] = inl (refl, refl)
length-split_last (x ∷ devs) = elim (length-split_last devs) [
  | inl (e, s) ↦ inr ([], x, rw s refl, grind (arith, e))
  | inr (before, last, s, l) ↦ inr (x ∷ before, last, rw s refl, omega (arith, l))
]

carved :
    (bound : Option String) (left externals all : ℕ)
    → all ≡ 1 + left
    → (bound ≡ none) ↔ (left < 2 + externals)
    → ((if ltb all (2 + externals + 1) then none else bound) ≡ none) ↔ (all < 2 + externals + 1)
carved bound left externals all l enough = (λ e. ground (arith, e, enough), λ k. ground (arith, k))

-- It raises exactly where the guest has fewer devices than the section needs.
pub inject_device_base-none :
    (block : String) (devices : List String) (logwrites : Bool)
    → (inject_device_base block devices logwrites ≡ none)
      ↔ (length devices < devices_needed block logwrites)
unfolding inject_device_base
inject_device_base-none block devices logwrites = elim (Bool-cases (carves block logwrites)) [
  | inr plain ↦ rw plain (
    λ e. omega (arith, (bind_devices_enough block (section_external_devs block) [] devices).0 e),
    λ l. (bind_devices_enough block (section_external_devs block) [] devices).1 (omega (arith, l)),
  )
  | inl carve ↦ rw carve (elim (length-split_last devices) [
    | inl (empty, s) ↦ rw s (λ e. grind (arith, empty), λ l. ground arith)
    | inr (before, last, s, l) ↦ rw s (
        carved
          (bind_devices block (section_external_devs block) (pair "LOGWRITES_DEV=" last ∷ [])
            before)
          (length before) (length (section_external_devs block)) (length devices) l
          (bind_devices_enough block (section_external_devs block) (pair "LOGWRITES_DEV=" last ∷ [])
            before))
  ])
]
