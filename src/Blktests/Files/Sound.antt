-- ===== src/Blktests/Files/Sound.antt =====
-- What the files of a group that passed say.
use mathlib.Core.Option.{get_or, some-injective}
use kdevops_ng.Prelude.{
  String, ◌≡◌, refl, sym, ap, ◌∙◌, Bool, true, false, Option, none, some, List, [], ◌∷◌, ◌++◌, map,
  ◌==◌, string_eq, contains, arith, inl, inr, Option-cases, eq_true, eq_false, if◌then◌else◌,
}
use kdevops_ng.Prelude.Lists.{All, all, sort_by, insert_by}
use kdevops_ng.Prelude.Dict.{Dict, lookup, insert, lookup-insert}
use kdevops_ng.Prelude.Words.{strip, split_lines, split_at}
use kdevops_ng.Blktests.Results.{passed, harmless, group_status}
use kdevops_ng.Blktests.Results.Verdict.{group_status-harmless}
use kdevops_ng.Blktests.Files.{
  note, note_lines, with_status, parse_seqres, Found, Devdir, Row, seqres_of, row_of, is_result,
  file_rows, by_name, by_devdir, dir_rows, all_rows, rows_under, safe_group, collect_group_rows,
}

-- The status that the last line with one states.
abbrev stated_by : Option (String × String) → Option String → Option String
stated_by none before = before
stated_by (some (key, value)) before = if strip key == "status" then some (strip value) else before

pub stated : List String → Option String → Option String
stated [] before = before
stated (line ∷ lines) before = stated lines (stated_by (split_at 9 line) before)

empty_key :
    (v : String) (out : Dict String)
    → (if ◌==◌ {A = String} "" "status" then some v else lookup "status" out) ≡ lookup "status" out
unfolding string_eq
empty_key v out = refl

noted :
    (k v : String) (out : Dict String)
    → lookup "status" (if k == "" then out else insert k v out)
      ≡ (if k == "status" then some v else lookup "status" out)
noted k v out = elim (string_eq.dec k "") [
  | yes p ↦ rw (eq_true k "" p) (rw p (sym (empty_key v out)))
  | no n ↦ rw (eq_false k "" n) (ground (arith, lookup-insert "status" k v out))
]

lookup-note :
    (parts : Option (String × String)) (out : Dict String)
    → lookup "status" (note parts out) ≡ stated_by parts (lookup "status" out)
lookup-note none out = refl
lookup-note (some (key, value)) out = noted (strip key) (strip value) out

lookup-note_lines :
    (lines : List String) (out : Dict String)
    → lookup "status" (note_lines lines out) ≡ stated lines (lookup "status" out)
unfolding note_lines stated
lookup-note_lines [] out = refl
lookup-note_lines (line ∷ lines) out =
    lookup-note_lines lines (note (split_at 9 line) out)
    ∙ ap (stated lines) (lookup-note (split_at 9 line) out)

with_status-lookup :
    (out : Dict String)
    → get_or (lookup "status" (with_status out)) "missing" ≡ get_or (lookup "status" out) "missing"
unfolding with_status string_eq
with_status-lookup out = elim (Option-cases (lookup "status" out)) [
  | inr (s, e) ↦ rw e (rw e refl)
  | inl e ↦ rw e (ap (λ o. get_or o "missing") (lookup-insert "status" "status" "missing" out))
]

nothing_yet : ◌≡◌ {A = Option String} (lookup "status" []) none
unfolding lookup
nothing_yet = refl

-- The status of a text: the last one that is stated, and `missing` where none is.
abbrev pub text_status : String → String
text_status text = get_or (stated (split_lines text) none) "missing"

status_of_text :
    (text : String) → get_or (lookup "status" (parse_seqres text)) "missing" ≡ text_status text
unfolding parse_seqres
status_of_text text =
    with_status-lookup (note_lines (split_lines text) [])
    ∙ ap (λ o. get_or o "missing")
        (lookup-note_lines (split_lines text) [] ∙ ap (stated (split_lines text)) nothing_yet)

-- A result file could be read, and the last status that it states is that of a test that passed or
-- was not run.
abbrev pub Fine : Found → Type 0
Fine found =
    (text : String) × (found.contents ≡ some text) × (contains harmless (text_status text) ≡ true)

-- Every result file of a list of them.
abbrev pub AllFine : List Found → Type 0
AllFine entries = All (λ found. is_result found ≡ true → Fine found) entries

abbrev pub DirFine : Devdir → Type 0
DirFine d = (entries : List Found) → d.is_dir ≡ true → d.group_dir ≡ some entries → AllFine entries

abbrev harmless_rows : List Row → Bool
harmless_rows rows = all (contains harmless) (map (λ (row : Row). row.status) rows)

missing_harms : contains harmless (get_or (lookup "status" (seqres_of none)) "missing") ≡ false
unfolding lookup string_eq
missing_harms = refl

contents-Fine :
    (contents : Option String)
    → contains harmless (get_or (lookup "status" (seqres_of contents)) "missing") ≡ true
    → (text : String) × (contents ≡ some text) × (contains harmless (text_status text) ≡ true)
contents-Fine none h = cc (sym missing_harms ∙ h)
contents-Fine (some text) h = (text, refl, ap (contains harmless) (sym (status_of_text text)) ∙ h)

one_row :
    (b : Bool) (row : Row) (rest : List Row)
    → harmless_rows (if b then row ∷ rest else rest) ≡ true
    → (b ≡ true → contains harmless row.status ≡ true) × (harmless_rows rest ≡ true)
one_row true row rest h = (λ _. ground (arith, h), ground (arith, h))
one_row false row rest h = (λ off. cc, h)

file_rows-AllFine :
    (group devdir : String) (entries : List Found)
    → harmless_rows (file_rows group devdir entries) ≡ true
    → AllFine entries
unfolding file_rows row_of
file_rows-AllFine group devdir [] h = tt
file_rows-AllFine group devdir (found ∷ entries) h =
    let (first, rest) =
      one_row (is_result found) (row_of group devdir found) (file_rows group devdir entries) h in
    (λ is. contents-Fine found.contents (first is), file_rows-AllFine group devdir entries rest)

module _ {A : Type 0} (P : A → Type 0) (before : A → A → Bool) where
  place_either :
      (b : Bool) (x y : A) (rest ys : List A)
      → (All P rest → P x × All P ys)
      → All P (if b then y ∷ rest else x ∷ y ∷ ys)
      → P x × (P y × All P ys)
  place_either true x y rest ys under (h, hs) = let (a, b) = under hs in (a, (h, b))
  place_either false x y rest ys under h = h

  insert_by-All : (x : A) (ys : List A) → All P (insert_by before x ys) → P x × All P ys
  unfolding insert_by
  insert_by-All x [] h = h
  insert_by-All x (y ∷ ys) h =
      place_either (before y x) x y (insert_by before x ys) ys (insert_by-All x ys) h

  sort_by-All : (xs : List A) → All P (sort_by before xs) → All P xs
  unfolding sort_by
  sort_by-All [] h = tt
  sort_by-All (x ∷ xs) h =
      let (first, rest) = insert_by-All x (sort_by before xs) h in (first, sort_by-All xs rest)

harmless_rows-append :
    (xs ys : List Row)
    → harmless_rows (xs ++ ys) ≡ true
    → (harmless_rows xs ≡ true) × (harmless_rows ys ≡ true)
harmless_rows-append [] ys h = (refl, h)
harmless_rows-append (x ∷ xs) ys h = ground (arith, harmless_rows-append xs ys, h)

dir_rows-DirFine :
    (group : String) (d : Devdir) → harmless_rows (dir_rows group d) ≡ true → DirFine d
dir_rows-DirFine group d h entries is_dir there =
    sort_by-All _ by_name entries
      (file_rows-AllFine group d.name (sort_by by_name entries) (rw (there, is_dir) at h))

all_rows-DirFine :
    (group : String) (dirs : List Devdir)
    → harmless_rows (all_rows group dirs) ≡ true
    → All DirFine dirs
unfolding all_rows
all_rows-DirFine group [] h = tt
all_rows-DirFine group (d ∷ dirs) h =
    let (first, rest) = harmless_rows-append (dir_rows group d) (all_rows group dirs) h in
    (dir_rows-DirFine group d first, all_rows-DirFine group dirs rest)

-- Where a group passes on the rows of its results, every file of a test in its directory, under
-- every directory of the results, could be read and states, last of all, that the test passed or was
-- not run.
pub collect_group_rows-DirFine :
    (dirs : List Devdir) (group : String) (rows : List Row) (unit_ok crashed timed_out : Bool)
    → collect_group_rows (some dirs) group ≡ some rows
    → group_status (map (λ (row : Row). row.status) rows) unit_ok crashed timed_out ≡ passed
    → All DirFine dirs
unfolding collect_group_rows
collect_group_rows-DirFine dirs group rows unit_ok crashed timed_out read passes =
    elim (Option-cases (safe_group group)) [
      | inl e ↦ cc (rw (e, collect_group_rows) at read)
      | inr (g, e) ↦
          let same : rows_under g (some dirs) ≡ rows =
            some-injective _ _ (rw (e, collect_group_rows) at read) in
          sort_by-All DirFine by_devdir dirs (
            all_rows-DirFine g (sort_by by_devdir dirs) (
              ap harmless_rows same
              ∙ group_status-harmless (map (λ (row : Row). row.status) rows) unit_ok crashed
                  timed_out passes))
    ]
