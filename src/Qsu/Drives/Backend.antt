-- ===== src/Qsu/Drives/Backend.antt =====
-- The settings of a drive's backend.
use mathlib.Core.Path.{subst}
use kdevops_ng.Prelude.{
  ℕ, String, ◌≡◌, refl, ◌∙◌, inl, inr, Bool, true, false, ◌&&◌, not, Option, none, [], map, ◌==◌,
  ◌!=◌, string_eq, nat_eq, contains, arith, if-lem, Bool-cases,
}
use kdevops_ng.Prelude.Dict.{Dict, lookup, has, lookup-nil, lookup-append_missed}
use kdevops_ng.Qsu.Drives.{
  Setting, text, DriveInputs, made, backend_knobs, null_knobs, null_drivers, cache_direct,
  drive_pick, bucket, Base, read_zeroes, null_base, text_of, file_checked, file_base, base_of,
}
use kdevops_ng.Qsu.Drives.Keys.{
  made-injective, bucket-lookup, missed, Outside, file_base-lookup, null_base-lookup,
}

-- What the checks of a file's backend leave, and a null driver's has not to meet.
pub record BaseOk (base : Base) : Type 0 where
  pub unmaps :
      text_of (lookup "detect-zeroes" base.backend) ≡ "unmap"
      → text_of (lookup "discard" base.backend) ≡ "unmap"
  pub direct :
      text_of (lookup "aio" base.backend) ≡ "native"
      → contains cache_direct (text_of (lookup "cache" base.backend)) ≡ true
  pub no_pmr : lookup "pmr" base.backend ≡ none
  pub elsewhere : (k : String) → Outside k → lookup k base.place ≡ none

implied : (a b : String) → (a == "unmap" && b != "unmap") ≡ false → a ≡ "unmap" → b ≡ "unmap"
implied a b test h = ground (arith, test, h)

implied_direct :
    (a : String) (b : Bool) → (a == "native" && not b) ≡ false → a ≡ "native" → b ≡ true
implied_direct a b test h = ground (arith, test, h)

file_checked-BaseOk :
    (base base' : Base)
    → lookup "pmr" base.backend ≡ none
    → ((k : String) → Outside k → lookup k base.place ≡ none)
    → file_checked base ≡ made base'
    → BaseOk base'
unfolding file_checked
file_checked-BaseOk base base' no_pmr elsewhere h =
    let zeroes = text_of (lookup "detect-zeroes" base.backend) in
    let discard = text_of (lookup "discard" base.backend) in
    let aio = text_of (lookup "aio" base.backend) in
    let direct = contains cache_direct (text_of (lookup "cache" base.backend)) in
    elim (Bool-cases (zeroes == "unmap" && discard != "unmap")) [
      | inl bad ↦ cc (rw bad at h)
      | inr good ↦ elim (Bool-cases (aio == "native" && not direct)) [
        | inl bad ↦ cc (rw (good, bad) at h)
        | inr fine ↦ subst BaseOk (made-injective base base' (rw (good, fine) at h)) (record {
          unmaps = implied zeroes discard good;
          direct = implied_direct aio direct fine;
          no_pmr = no_pmr;
          elsewhere = elsewhere;
        })
      ]
    ]

read_zeroes-lookup :
    (k : String) (backend : Dict Setting)
    → (k == "read-zeroes") ≡ false
    → lookup k backend ≡ none
    → lookup k (read_zeroes backend) ≡ none
unfolding read_zeroes
read_zeroes-lookup k backend other gone =
    if-lem (λ (d : Dict Setting). lookup k d ≡ none) (has "read-zeroes" backend) _ _ (λ _. gone)
      (λ _.
        lookup-append_missed k backend _ gone
        ∙ missed k "read-zeroes" (text "on") [] other (lookup-nil k))

pub no_text : (s : Option Setting) (v : String) → (v == "") ≡ false → s ≡ none → text_of s ≡ v → ⊥
no_text s v filled gone h = ground (arith, filled, gone, h)

null_base-BaseOk :
    (inputs : DriveInputs) (driver : String) (i : ℕ) → BaseOk (null_base inputs driver i)
unfolding null_base string_eq
null_base-BaseOk inputs driver i =
    let backend = bucket inputs.knobs null_knobs i in
    let gone =
      λ (k : String) (other : (k == "read-zeroes") ≡ false)
          (outside : contains (map (λ (e : String × String). e.1) null_knobs) k ≡ false).
        read_zeroes-lookup k backend other (bucket-lookup inputs.knobs null_knobs i k outside) in
    record {
      unmaps = λ h. absurd (no_text _ "unmap" refl (gone "detect-zeroes" refl refl) h);
      direct = λ h. absurd (no_text _ "native" refl (gone "aio" refl refl) h);
      no_pmr = gone "pmr" refl refl;
      elsewhere = λ k o. null_base-lookup k o inputs driver i;
    }

file_base-BaseOk :
    (inputs : DriveInputs) (i : ℕ) (base : Base)
    → file_checked (file_base inputs i) ≡ made base
    → BaseOk base
unfolding file_base string_eq
file_base-BaseOk inputs i base h =
    file_checked-BaseOk (file_base inputs i) base
      (bucket-lookup inputs.knobs backend_knobs i "pmr" refl) (λ k o. file_base-lookup k o inputs i)
      h

pub base_of-BaseOk :
    (inputs : DriveInputs) (i : ℕ) (base : Base) → base_of inputs i ≡ made base → BaseOk base
unfolding base_of
base_of-BaseOk inputs i base h =
    let driver = drive_pick (lookup "driver" inputs.knobs) i in
    elim (Bool-cases (driver == "")) [
      | inl unset ↦ file_base-BaseOk inputs i base (rw unset at h)
      | inr set ↦ elim (Bool-cases (contains null_drivers driver)) [
        | inl known ↦
            subst BaseOk (made-injective _ base (rw (set, known) at h))
              (null_base-BaseOk inputs driver i)
        | inr unknown ↦ cc (rw (set, unknown) at h)
      ]
    ]
