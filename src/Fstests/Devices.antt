-- ===== src/Fstests/Devices.antt =====
-- f/fstests/common.py: the devices of a guest, bound to a section.
pub mod Enough
use kdevops_ng.Prelude.{
  ℕ, ◌+◌, String, ◌<>◌, Bool, true, false, ◌&&◌, ◌||◌, not, Option, none, some, List, [], ◌∷◌, ◌++◌,
  map, ◌==◌, ◌!=◌, string_eq, nat_eq, list_eq, ltb, if◌then◌else◌,
}
use kdevops_ng.Prelude.Lists.{length, any, keep}
use kdevops_ng.Prelude.Dict.{Dict, lookup}
use kdevops_ng.Prelude.Words.{strip, contains_text, join, split_on, rstrip_char}
use kdevops_ng.Fstests.Config.{section_vars}

-- A discovered device: its node, and its logical sector size where it is known.
pub record Device : Type 0 where
  pub name : String
  pub log_sec : Option ℕ

abbrev pub larger : ℕ → ℕ → ℕ
larger a b = if ltb a b then b else a

unfoldable pub largest : List Device → Option ℕ
largest [] = none
largest (d ∷ ds) = elim d.log_sec [
  | none ↦ largest ds
  | some size ↦ elim (largest ds) [ none ↦ some size | some rest ↦ some (larger size rest) ]
]

unfoldable pub device_sector : List Device → ℕ
device_sector devices = elim (largest devices) [ none ↦ 512 | some size ↦ size ]

abbrev pub device_keys : List String
device_keys =
    "TEST_DEV" ∷ "SCRATCH_DEV" ∷ "SCRATCH_DEV_POOL" ∷ "TEST_RTDEV" ∷ "SCRATCH_RTDEV" ∷ "TEST_LOGDEV"
    ∷ "SCRATCH_LOGDEV" ∷ "LOGWRITES_DEV" ∷ []

unfoldable pub declared : Dict String → List String → Dict String
declared vars [] = []
declared vars (key ∷ keys) =
    let rest = declared vars keys in
    elim (lookup key vars) [
      | none ↦ rest
      | some value ↦ if value != "" then (key, value) ∷ rest else rest
    ]

unfoldable pub section_device_map : String → String → Dict String
section_device_map text section = declared (section_vars text section) device_keys

abbrev pub external_dev_keys : List String
external_dev_keys = "TEST_RTDEV" ∷ "SCRATCH_RTDEV" ∷ "TEST_LOGDEV" ∷ "SCRATCH_LOGDEV" ∷ []

-- `^\s*KEY=\s*$` on a line.
abbrev pub is_empty_dev : String → String → Bool
is_empty_dev key line = strip line == key <> "="

unfoldable pub section_external_devs : String → List String
section_external_devs block =
    keep (λ key. any (is_empty_dev key) (split_on b'\n' block)) external_dev_keys

unfoldable pub drop_blank : List String → List String
drop_blank [] = []
drop_blank (line ∷ lines) = if strip line == "" then drop_blank lines else line ∷ lines

-- `sub(filled, body, count=1)` with that pattern, whose spaces go over the blank lines around the line.
-- The second argument is the blank lines that were passed last. The line is inserted as it is: a
-- backslash in it, which `re` would interpret, is taken not to occur.
unfoldable pub fill_in : String → List String → String → List String → List String
fill_in key blanks filled [] = blanks
fill_in key blanks filled (line ∷ lines) =
    let later = fill_in key (blanks ++ (line ∷ [])) filled lines in
    let on = fill_in key [] filled lines in
    if is_empty_dev key line
    then filled ∷ drop_blank lines
    else if strip line == ""
    then later
    else blanks ++ (line ∷ on)

-- Each external variable takes one of the devices after the first two, in order.
unfoldable pub fill_all : List String → List String → List String → List String
fill_all [] devs body = body
fill_all (key ∷ keys) [] body = body
fill_all (key ∷ keys) (dev ∷ devs) body =
    fill_all keys devs (fill_in key [] (key <> "=" <> dev) body)

abbrev pub pair : String → String → String × String
pair key value = (key, key <> value)

-- The mount points of every section.
abbrev pub mounts : List (String × String)
mounts = pair "TEST_DIR=" "/media/test" ∷ pair "SCRATCH_MNT=" "/media/scratch" ∷ []

unfoldable pub added : String → List (String × String) → List String
added block [] = []
added block ((key, line) ∷ base) =
    let rest = added block base in if contains_text block key then rest else line ∷ rest

-- The body with the base lines that the block does not have yet.
unfoldable pub with_base : String → String → List (String × String) → String
with_base block body base =
    let lines = added block base in
    if lines == [] then body <> "\n" else (body <> "\n" <> join "\n" lines) <> "\n"

unfoldable pub scratch_of : String → List String → String × String
scratch_of second [] = pair "SCRATCH_DEV=" second
scratch_of second (dev ∷ devs) =
    pair "SCRATCH_DEV_POOL=" ("\"" <> join " " (second ∷ dev ∷ devs) <> "\"")

unfoldable pub base_of :
    String → String → String × String → List (String × String) → List (String × String)
base_of block first scratch logwrites =
    let fixed = pair "TEST_DEV=" first ∷ mounts in
    if contains_text block "SCRATCH_DEV=" || contains_text block "SCRATCH_DEV_POOL="
    then fixed ++ logwrites
    else fixed ++ (scratch ∷ logwrites)

-- The devices that are left, bound: the device of the logwrites is out.
unfoldable pub bind_devices :
    String → List String → List (String × String) → List String → Option String
bind_devices block externals logwrites [] = none
bind_devices block externals logwrites (first ∷ []) = none
bind_devices block externals logwrites (first ∷ second ∷ rest) =
    let body = rstrip_char b'\n' block in
    if externals == []
    then some (with_base block body (base_of block first (scratch_of second rest) logwrites))
    else if ltb (length rest) (length externals)
    then none
    else some (
        with_base block (join "\n" (fill_all externals rest (split_on b'\n' body)))
          (base_of block first (pair "SCRATCH_DEV=" second) logwrites))

-- The list without its last item, and that item.
unfoldable pub split_last : List String → Option (List String × String)
split_last [] = none
split_last (x ∷ xs) = elim (split_last xs) [
  | none ↦ some ([], x)
  | some (before, last) ↦ some (x ∷ before, last)
]

-- Whether a device is kept for the logwrites.
abbrev pub carves : String → Bool → Bool
carves block logwrites = logwrites && not (contains_text block "LOGWRITES_DEV=")

-- None where it raises.
unfoldable pub inject_device_base : String → List String → Bool → Option String
inject_device_base block devices logwrites =
    let externals = section_external_devs block in
    if not (carves block logwrites)
    then bind_devices block externals [] devices
    else if ltb (length devices) (2 + length externals + 1)
    then none
    else elim (split_last devices) [
      | none ↦ none
      | some (devs, last) ↦ bind_devices block externals (pair "LOGWRITES_DEV=" last ∷ []) devs
    ]
