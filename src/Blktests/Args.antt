-- ===== src/Blktests/Args.antt =====
-- f/blktests/common.py: the catalog of groups and the positionals of each group's unit.
pub mod Members
use Prim.Native.Char.{code}
use kdevops_ng.Prelude.{
  ℕ, String, Bool, true, false, ◌&&◌, ◌||◌, not, Option, none, some, List, [], ◌∷◌, ◌++◌, map, ◌==◌,
  ◌!=◌, contains, string_eq, nat_eq, leb, if◌then◌else◌,
}
use kdevops_ng.Prelude.Lists.{keep}
use kdevops_ng.Prelude.Dict.{Dict, lookup, insert}
use kdevops_ng.Prelude.Words.{words, join, split_at, strip_ending, text_length}

-- The catalog's names, in its order.
abbrev pub group_names : List String
group_names =
    "block" ∷ "nvme" ∷ "meta" ∷ "srp" ∷ "zbd" ∷ "loop" ∷ "scsi" ∷ "throtl" ∷ "ublk" ∷ "nbd" ∷ "md"
    ∷ "dm" ∷ "rnbd" ∷ "blktrace" ∷ "bcache" ∷ []

unfoldable pub default_groups : List String
default_groups = keep (λ g. g != "meta") group_names

abbrev is_decimal : ℕ → Bool
is_decimal c = leb b'0' c && leb c b'9'

abbrev is_name_char : ℕ → Bool
is_name_char c =
    (leb b'a' c && leb c b'z')
    || (leb b'A' c && leb c b'Z')
    || is_decimal c
    || c == b'_'
    || c == b'-'

unfoldable pub all_name_chars : String → Bool
all_name_chars String.[] = true
all_name_chars (String.◌∷◌ c s) = is_name_char (code c) && all_name_chars s

unfoldable pub all_decimal : String → Bool
all_decimal String.[] = true
all_decimal (String.◌∷◌ c s) = is_decimal (code c) && all_decimal s

-- `$` matches in front of a newline that ends the text, too.
abbrev pub or_same : String → Option String → String
or_same s none = s
or_same s (some before) = before

unfoldable pub is_group_name : String → Bool
is_group_name g = let name = or_same g (strip_ending "\n" g) in name != "" && all_name_chars name

-- The group of a `group/nnn`, which is a word: no newline ends it.
unfoldable pub test_group : String → Option String
test_group name = elim (split_at b'/' name) [
  | none ↦ none
  | some (group, number) ↦
      if group != "" && all_name_chars group && text_length number == 3 && all_decimal number
      then some group
      else none
]

abbrev pub or_nil : Option (List String) → List String
or_nil none = []
or_nil (some members) = members

-- `out.setdefault(group, []).append(name)`
unfoldable pub add_test : String → String → Dict (List String) → Dict (List String)
add_test group name out = insert group (or_nil (lookup group out) ++ name ∷ []) out

-- None for a ValueError.
unfoldable pub by_group : List String → Dict (List String) → Option (Dict (List String))
by_group [] out = some out
by_group (name ∷ names) out = elim (test_group name) [
  | none ↦ none
  | some group ↦ by_group names (add_test group name out)
]

unfoldable pub joined : Dict (List String) → Dict String
joined [] = []
joined ((group, members) ∷ out) = (group, join " " members) ∷ joined out

unfoldable pub select : List String → List String → Option (List String)
select [] selected = some selected
select (group ∷ groups) selected =
    let rest =
      select groups (if contains selected group then selected else selected ++ group ∷ []) in
    if is_group_name group then rest else none

abbrev pub or_default : List String → List String
or_default [] = default_groups
or_default (group ∷ groups) = group ∷ groups

unfoldable pub test_args : List String → Option (Dict String)
test_args [] = none
test_args (name ∷ names) = elim (by_group (name ∷ names) []) [
  | none ↦ none
  | some out ↦ some (joined out)
]

unfoldable pub group_args : List String → Option (Dict String)
group_args groups = elim (select (or_default groups) []) [
  | none ↦ none
  | some selected ↦ some (map (λ g. (g, g)) selected)
]

-- The tests are given as a text.
unfoldable pub build_args : String → List String → String → Option (Dict String)
build_args test_selection groups tests =
    if test_selection == "tests" then test_args (words tests) else group_args groups
