-- ===== src/Blktests/Files.antt =====
-- f/blktests/common.py: reading the result files of a group.
pub mod Sound
use Prim.Native.Char.{code}
use mathlib.Core.Option.{get_or}
use kdevops_ng.Prelude.{
  String, ◌<>◌, Bool, true, false, ◌&&◌, ◌||◌, Option, none, some, List, [], ◌∷◌, ◌++◌, ◌==◌, ◌!=◌,
  string_eq, nat_eq, if◌then◌else◌,
}
use kdevops_ng.Prelude.Lists.{sort_by}
use kdevops_ng.Prelude.Dict.{Dict, lookup, insert, has}
use kdevops_ng.Prelude.Words.{strip, split_lines, split_at, strip_ending, text_ltb, text_length}
use kdevops_ng.Blktests.Args.{or_same, all_decimal}

-- `out[key.strip()] = value.strip()`, for a line with a tab and a key.
abbrev pub note : Option (String × String) → Dict String → Dict String
note none out = out
note (some (key, value)) out = if strip key == "" then out else insert (strip key) (strip value) out

unfoldable pub note_lines : List String → Dict String → Dict String
note_lines [] out = out
note_lines (line ∷ lines) out = note_lines lines (note (split_at 9 line) out)

unfoldable pub with_status : Dict String → Dict String
with_status out = if has "status" out then out else insert "status" "missing" out

unfoldable pub parse_seqres : String → Dict String
parse_seqres text = with_status (note_lines (split_lines text) [])

-- What stands in a group's directory: its name, whether it is a file, and its text, none where
-- reading it raises.
pub record Found : Type 0 where
  pub name : String
  pub is_file : Bool
  pub contents : Option String

-- A directory of the results, with what its directory of the group has, none where there is none.
pub record Devdir : Type 0 where
  pub name : String
  pub is_dir : Bool
  pub group_dir : Option (List Found)

pub record Row : Type 0 where
  pub devdir : String
  pub test : String
  pub status : String
  pub reason : String
  pub runtime : String

-- `^[0-9]{3}$`
unfoldable pub is_test_number : String → Bool
is_test_number name =
    let number = or_same name (strip_ending "\n" name) in
    text_length number == 3 && all_decimal number

-- None where the file cannot be read; one that is not UTF-8, on which the source raises, is taken for
-- such a file.
abbrev pub seqres_of : Option String → Dict String
seqres_of none = ("status", "missing") ∷ []
seqres_of (some text) = parse_seqres text

unfoldable pub row_of : String → String → Found → Row
row_of group devdir found =
    let seqres = seqres_of found.contents in
    record {
      devdir = devdir;
      test = group <> ("/" <> found.name);
      status = get_or (lookup "status" seqres) "missing";
      reason = get_or (lookup "reason" seqres) "";
      runtime = get_or (lookup "runtime" seqres) "";
    }

abbrev pub is_result : Found → Bool
is_result found = found.is_file && is_test_number found.name

unfoldable pub file_rows : String → String → List Found → List Row
file_rows group devdir [] = []
file_rows group devdir (found ∷ entries) =
    let rest = file_rows group devdir entries in
    if is_result found then row_of group devdir found ∷ rest else rest

abbrev pub by_name : Found → Found → Bool
by_name a b = text_ltb a.name b.name

abbrev pub by_devdir : Devdir → Devdir → Bool
by_devdir a b = text_ltb a.name b.name

abbrev pub dir_rows : String → Devdir → List Row
dir_rows group d = elim d.group_dir [
  | none ↦ []
  | some entries ↦ if d.is_dir then file_rows group d.name (sort_by by_name entries) else []
]

unfoldable pub all_rows : String → List Devdir → List Row
all_rows group [] = []
all_rows group (d ∷ dirs) = dir_rows group d ++ all_rows group dirs

abbrev has_slash : String → Bool
has_slash g = elim (split_at b'/' g) [ none ↦ false | some _ ↦ true ]

-- `_safe_group`, none where it raises.
unfoldable pub safe_group : String → Option String
safe_group group =
    let g = strip group in if g == "" || has_slash g || g == "." || g == ".." then none else some g

abbrev pub rows_under : String → Option (List Devdir) → List Row
rows_under group none = []
rows_under group (some dirs) = all_rows group (sort_by by_devdir dirs)

-- None where it raises; a root that is not a directory has no rows.
unfoldable pub collect_group_rows : Option (List Devdir) → String → Option (List Row)
collect_group_rows root group = elim (safe_group group) [
  | none ↦ none
  | some g ↦ some (rows_under g root)
]
