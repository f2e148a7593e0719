-- ===== src/Qsu/Drives/Region.antt =====
-- The persistent memory region of a controller.
use Prim.Native.Nat.{bit_and}
use mathlib.Core.Path.{subst}
use kdevops_ng.Prelude.{
  ℕ, ◌-◌, ◌≤◌, String, ◌≡◌, sym, ◌⊎◌, inl, inr, Bool, true, false, ◌&&◌, ◌||◌, not, Option, none,
  some, [], ◌∷◌, ◌==◌, ◌!=◌, string_eq, nat_eq, ltb, arith, Bool-cases,
}
use kdevops_ng.Prelude.Bits.{IsPowerOfTwo, bit_and_before}
use kdevops_ng.Prelude.Dict.{Dict, lookup, lookup-nil}
use kdevops_ng.Qsu.Drives.{
  Pmr, Setting, memory, DriveInputs, made, drive_pick, int_of, pmr_checked, pmr_sized, pmr_of,
}
use kdevops_ng.Qsu.Drives.Keys.{made-injective, missed}

-- A memory region that QEMU takes: a power of two, a page or more, and persistent only if shared.
pub record IsRegion (page : ℕ) (m : Pmr) : Type 0 where
  pub power : IsPowerOfTwo m.size
  pub paged : page ≤ m.size
  pub shared : m.pmem ≡ true → m.share_off ≡ false

-- The part of the memory region: none, or one that QEMU takes.
unfoldable pub PmrPart : ℕ → Dict Setting → Type 0
PmrPart page pmr = (pmr ≡ []) ⊎ ((m : Pmr) × (pmr ≡ ("pmr", memory m) ∷ []) × IsRegion page m)

unfold_tests :
    (page : ℕ) (inputs : DriveInputs) (size : ℕ)
    → 1 ≤ size
    → (bit_and size (size - 1) != 0 || ltb size page) ≡ false
    → (inputs.pmr_pmem && not inputs.pmr_share) ≡ false
    → IsRegion page
        (record { size = size; share_off = not inputs.pmr_share; pmem = inputs.pmr_pmem })
unfold_tests page inputs size big good fine = record {
  power = bit_and_before size big (ground (arith, good));
  paged = ground (arith, good);
  shared = λ pmem. ground (arith, fine, pmem);
}

pmr_checked-PmrPart :
    (page : ℕ) (inputs : DriveInputs) (size : ℕ) (pmr : Dict Setting)
    → 1 ≤ size
    → pmr_checked page inputs size ≡ made pmr
    → PmrPart page pmr
unfolding pmr_checked PmrPart
pmr_checked-PmrPart page inputs size pmr big h =
    elim (Bool-cases (bit_and size (size - 1) != 0 || ltb size page)) [
      | inl bad ↦ cc (rw bad at h)
      | inr good ↦ elim (Bool-cases (inputs.pmr_pmem && not inputs.pmr_share)) [
        | inl alone ↦ cc (rw (good, alone) at h)
        | inr fine ↦ inr (
          record { size = size; share_off = not inputs.pmr_share; pmem = inputs.pmr_pmem },
          sym (made-injective _ pmr (rw (good, fine) at h)),
          unfold_tests page inputs size big good fine,
        )
      ]
    ]

pmr_sized-PmrPart :
    (page : ℕ) (inputs : DriveInputs) (value : Option (Bool × ℕ)) (pmr : Dict Setting)
    → pmr_sized page inputs value ≡ made pmr
    → PmrPart page pmr
unfolding pmr_sized PmrPart
pmr_sized-PmrPart page inputs none pmr h = cc
pmr_sized-PmrPart page inputs (some (true, size)) pmr h = cc
pmr_sized-PmrPart page inputs (some (false, size)) pmr h = elim (Bool-cases (size == 0)) [
  | inl unset ↦ inl (sym (made-injective [] pmr (rw unset at h)))
  | inr set ↦ pmr_checked-PmrPart page inputs size pmr (ground (arith, set)) (rw set at h)
]

pub pmr_of-PmrPart :
    (page : ℕ) (inputs : DriveInputs) (i : ℕ) (pmr : Dict Setting)
    → pmr_of page inputs i ≡ made pmr
    → PmrPart page pmr
unfolding pmr_of PmrPart
pmr_of-PmrPart page inputs i pmr h =
    let size = drive_pick (lookup "pmr_size" inputs.knobs) i in
    elim (Bool-cases (size == "")) [
      | inl unset ↦ inl (sym (made-injective [] pmr (rw unset at h)))
      | inr set ↦ pmr_sized-PmrPart page inputs (int_of size) pmr (rw set at h)
    ]

pub PmrPart-other :
    (page : ℕ) (pmr : Dict Setting) (k : String)
    → (k == "pmr") ≡ false
    → PmrPart page pmr
    → lookup k pmr ≡ none
unfolding PmrPart
PmrPart-other page pmr k other (inl e) = rw e (lookup-nil k)
PmrPart-other page pmr k other (inr (m, e, _)) =
    rw e (missed k "pmr" (memory m) [] other (lookup-nil k))

memory-injective :
    (a b : Pmr) → ◌≡◌ {A = Option Setting} (some (memory a)) (some (memory b)) → a ≡ b
memory-injective a b h = cc

pub PmrPart-IsRegion :
    (page : ℕ) (pmr : Dict Setting) (m : Pmr)
    → PmrPart page pmr
    → lookup "pmr" pmr ≡ some (memory m)
    → IsRegion page m
unfolding PmrPart lookup string_eq
PmrPart-IsRegion page pmr m (inl e) found = cc (rw e at found)
PmrPart-IsRegion page pmr m (inr (m', e, region)) found =
    subst (IsRegion page) (memory-injective m' m (rw e at found)) region
