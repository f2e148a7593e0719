-- ===== src/Fstests/Config.antt =====
-- f/fstests/common.py: the sections of an xfstests configuration and their variables. A text is
-- read as its lines.
pub mod Blocks
pub mod Texts
mod Tests
use Prim.Native.Char.{code}
use kdevops_ng.Prelude.{
  String, ◌<>◌, Bool, true, false, ◌&&◌, ◌||◌, not, Option, none, some, List, [], ◌∷◌, ◌++◌, ◌==◌,
  ◌!=◌, list_eq, string_eq, nat_eq, option_eq, contains, if◌then◌else◌,
}
use kdevops_ng.Prelude.Dict.{Dict, insert}
use kdevops_ng.Prelude.Words.{strip, rstrip, split_lines, split_at, starts_with_char, join}

-- `^\[([^\]]+)\]` on a stripped line, and the group without the spaces around it.
unfoldable pub header : String → Option String
header String.[] = none
header (String.◌∷◌ c s) = if code c == b'[' then inside (split_at b']' s) else none
  where
    inside : Option (String × String) → Option String
    inside none = none
    inside (some (name, _)) = if name == "" then none else some (strip name)

unfoldable pub sections_from : List String → List String → List String
sections_from seen [] = seen
sections_from seen (line ∷ lines) = elim (header (strip line)) [
  | none ↦ sections_from seen lines
  | some name ↦
      sections_from (if name != "" && not (contains seen name) then seen ++ (name ∷ []) else seen)
        lines
]

unfoldable pub parse_sections : String → List String
parse_sections text = sections_from [] (split_lines text)

-- The last character of a text and what stands before it.
last_of : String → Option (String × String)
last_of String.[] = none
last_of (String.◌∷◌ c s) = elim (last_of s) [
  | none ↦ some ("", String.◌∷◌ c "")
  | some (before, last) ↦ some (String.◌∷◌ c before, last)
]

-- Without one pair of equal quotes around it.
unfoldable pub strip_quotes : String → String
unfolding last_of
strip_quotes raw = unquoted (strip raw)
  where
    inner : String → String → Option (String × String) → String
    inner value first none = value
    inner value first (some (middle, last)) =
        if first == last && (first == "'" || first == "\"") then middle else value

    unquoted : String → String
    unquoted String.[] = ""
    unquoted (String.◌∷◌ c s) = inner (String.◌∷◌ c s) (String.◌∷◌ c "") (last_of s)

-- What a line is to the reader of the variables.
pub data Entry : Type 0 where
  skipped : Entry
  heading : String → Entry
  setting : String → String → Entry

unfoldable pub setting_of : Option (String × String) → Entry
setting_of none = skipped
setting_of (some (key, value)) =
    if strip key == "" then skipped else setting (strip key) (strip_quotes value)

-- The reading of a stripped line.
unfoldable pub entry_of : String → Entry
entry_of line =
    if line == "" || starts_with_char b'#' line
    then skipped
    else elim (header line) [ some name ↦ heading name | none ↦ setting_of (split_at b'=' line) ]

abbrev pub entry : String → Entry
entry raw = entry_of (strip raw)

unfoldable pub vars_from : Bool → String → Option String → Dict String → List String → Dict String
vars_from has_sections section current out [] = out
vars_from has_sections section current out (raw ∷ lines) = elim (entry raw) [
  | skipped ↦ vars_from has_sections section current out lines
  | heading name ↦ vars_from has_sections section (some name) out lines
  | setting key value ↦
      vars_from has_sections section current
        (if not has_sections && current == none || current == some section
          then insert key value out
          else out)
        lines
]

unfoldable pub lines_vars : List String → String → Dict String
lines_vars lines section = vars_from (sections_from [] lines != []) section none [] lines

unfoldable pub section_vars : String → String → Dict String
section_vars text section = lines_vars (split_lines text) section

unfoldable pub block_from : Bool → String → List String → List String
block_from grabbing section [] = []
block_from grabbing section (line ∷ lines) = elim (header (strip line)) [
  | none ↦ let rest = block_from grabbing section lines in if grabbing then line ∷ rest else rest
  | some name ↦ elim grabbing [
    | true ↦ []
    | false ↦ elim (name == section) [
      | true ↦ line ∷ block_from true section lines
      | false ↦ block_from false section lines
    ]
  ]
]

unfoldable pub section_block : String → String → String
section_block text section =
    let out = block_from false section (split_lines text) in
    if out == [] then "" else rstrip (join "\n" out) <> "\n"
