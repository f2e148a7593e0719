-- ===== src/Common/Gitrefs.antt =====
-- f/common/gitrefs.py: reading a bare repository's refs for the pickers, and the full refname of
-- a picked value.
pub mod Korg
pub mod Picks
mod Tests
use Prim.Native.Char.{code}
use kdevops_ng.Prelude.{
  ℕ, String, ◌<>◌, Bool, true, false, ◌||◌, Option, none, some, List, [], ◌∷◌, ◌++◌, ◌==◌,
  string_eq, nat_eq, contains, if◌then◌else◌, starts_with,
}
use kdevops_ng.Prelude.Lists.{keep}
use kdevops_ng.Prelude.Dict.{Dict, insert}

-- A repository's `packed-refs`, by its lines, and the names of its loose refs.
pub record Bare : Type 0 where
  pub packed : List String
  pub loose : List String

pub data Kind : Type 0 where
  head mirror remote tag : Kind

-- A namespace: its kind, its prefix, and the prefix of its picker names.
pub record Space : Type 0 where
  pub kind : Kind
  pub prefix : String
  pub keyed : String

abbrev pub ref_kinds : List Space
ref_kinds =
    record { kind = head; prefix = "refs/heads/"; keyed = "" }
    ∷ record { kind = mirror; prefix = "refs/remotes/mirror/"; keyed = "mirror/" }
    ∷ record { kind = remote; prefix = "refs/remotes/"; keyed = "" }
    ∷ record { kind = tag; prefix = "refs/tags/"; keyed = "" }
    ∷ []

-- `name[len(prefix):]` where `name.startswith(prefix)`.
unfoldable pub strip_prefix : String → String → Option String
strip_prefix String.[] s = some s
strip_prefix (String.◌∷◌ c p) String.[] = none
strip_prefix (String.◌∷◌ c p) (String.◌∷◌ d s) = if code c == code d then strip_prefix p s else none

-- The picker name and the kind, by the first namespace that matches.
unfoldable pub classify : List Space → String → Option (String × Kind)
classify [] name = none
classify (space ∷ spaces) name = elim (strip_prefix space.prefix name) [
  | some rest ↦ some (space.keyed <> rest, space.kind)
  | none ↦ classify spaces name
]

-- `line.partition(" ")[2]`
abbrev after_space : String → String
after_space String.[] = String.[]
after_space (String.◌∷◌ c s) = if code c == b' ' then s else after_space s

abbrev pub packed_names : List String → List String
packed_names [] = []
packed_names (line ∷ lines) =
    let rest = packed_names lines in
    if line == "" || starts_with line "#" || starts_with line "^"
    then rest
    else after_space line ∷ rest

unfoldable pub note_ref : Dict Kind → String → Dict Kind
unfolding classify
note_ref refs name = elim (classify ref_kinds name) [
  | none ↦ refs
  | some (key, kind) ↦ insert key kind refs
]

unfoldable pub note_refs : Dict Kind → List String → Dict Kind
note_refs refs [] = refs
note_refs refs (name ∷ names) = note_refs (note_ref refs name) names

-- A loose entry is read after the packed ones and replaces their kind.
unfoldable pub read_refs : Bare → Dict Kind
read_refs bare = note_refs [] (packed_names bare.packed ++ bare.loose)

unfoldable pub read_refnames : Bare → List String
read_refnames bare =
    keep (λ name. starts_with name "refs/") (packed_names bare.packed) ++ bare.loose

-- The full refnames that a ref may mean, in the order of preference.
unfoldable pub candidates : String → List String
candidates ref =
    if starts_with ref "refs/"
    then ref ∷ []
    else ("refs/tags/" <> ref)
      ∷ ("refs/remotes/mirror/" <> ref)
      ∷ ("refs/heads/" <> ref)
      ∷ ("refs/remotes/" <> ref)
      ∷ []

unfoldable pub first_in : List String → List String → Option String
first_in names [] = none
first_in names (candidate ∷ rest) =
    if contains names candidate then some candidate else first_in names rest

-- None for the repository where there is no Bare and no mirror.
unfoldable pub qualify_ref : Option Bare → String → Option String
qualify_ref none ref = none
qualify_ref (some bare) ref = first_in (read_refnames bare) (candidates ref)
